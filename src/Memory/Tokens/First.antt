-- ===== src/Memory/Tokens/First.antt =====
-- The token that strtok_r finds.
use shadow_os.Base.{
  ℕ, ◌+◌, ◌≡◌, ◌≢◌, refl, sym, ◌∙◌, ap, true, false, none, some, [], ◌∷◌, ◌++◌, ◌==◌, drop, set,
  get_elem?, length, length-append, arith,
}
use mathlib.Core.List.{append_assoc}
use shadow_os.Base.Outcome.{ok}
use shadow_os.Memory.Chars.{Chars, in_set}
use shadow_os.Memory.Chars.Spans.{All, strspn-All, strpbrk-All}
use shadow_os.Memory.Tokens.{cut, strtok_from, strtok_r}

drop-length : (xs ys : Chars) → drop (length xs) (xs ++ ys) ≡ ys
drop-length [] ys = refl
drop-length (x ∷ xs) ys = drop-length xs ys

pub get_elem?-length :
    (xs : Chars) (y : ℕ) (ys : Chars) → get_elem? (xs ++ y ∷ ys) (length xs) ≡ some y
get_elem?-length [] y ys = refl
get_elem?-length (x ∷ xs) y ys = get_elem?-length xs y ys

pub set-length :
    (xs : Chars) (y v : ℕ) (ys : Chars) → set (xs ++ y ∷ ys) (length xs) v ≡ xs ++ v ∷ ys
set-length [] y v ys = refl
set-length (x ∷ xs) y v ys = ap (λ t. x ∷ t) (set-length xs y v ys)

-- The text is what stands before the place, some delimiters, a token that is not empty, a delimiter,
-- and the rest. strtok_r from that place gives the place of the token, ends it there, and keeps the
-- place behind the delimiter.
pub strtok_r-token :
    (before ds : Chars) (c : ℕ) (tok : Chars) (d : ℕ) (rest delim : Chars)
    → All true delim ds
    → All false delim (c ∷ tok)
    → d ≢ 0
    → in_set d delim ≡ some true
    → strtok_r none delim (some (length before)) (before ++ (ds ++ (c ∷ tok ++ d ∷ rest)))
      ≡ ok (record {
        text = (before ++ ds) ++ (c ∷ tok ++ 0 ∷ rest);
        kept = some (length before + length ds + length (c ∷ tok) + 1);
        token = some (length before + length ds);
      })
unfolding strtok_r strtok_from cut
strtok_r-token before ds c tok d rest delim delims (nc, out, all) nd hit =
    let text = before ++ (ds ++ (c ∷ tok ++ d ∷ rest)) in
    let whole : text ≡ (before ++ ds) ++ (c ∷ tok ++ d ∷ rest) =
      sym (append_assoc before ds (c ∷ tok ++ d ∷ rest)) in
    let len : length before + length ds ≡ length (before ++ ds) = sym (length-append before ds) in
    let here : get_elem? text (length before + length ds) ≡ some c =
      rw (whole, len) (get_elem?-length (before ++ ds) c (tok ++ d ∷ rest)) in
    let behind : drop (length before + length ds) text ≡ c ∷ tok ++ d ∷ rest =
      rw (whole, len) (drop-length (before ++ ds) (c ∷ tok ++ d ∷ rest)) in
    let all_of = (before ++ ds) ++ (c ∷ tok) in
    let through : text ≡ all_of ++ d ∷ rest =
      whole ∙ sym (append_assoc (before ++ ds) (c ∷ tok) (d ∷ rest)) in
    let len' : length before + length ds + length (c ∷ tok) ≡ length all_of =
      omega (arith, len, length-append (before ++ ds) (c ∷ tok)) in
    let ended : set text (length before + length ds + length (c ∷ tok)) 0
        ≡ (before ++ ds) ++ (c ∷ tok ++ 0 ∷ rest) =
      rw (through, len') (set-length all_of d 0 rest)
      ∙ append_assoc (before ++ ds) (c ∷ tok) (0 ∷ rest) in
    let test : (c == 0) ≡ false = ground (arith, nc) in
    rw
      (
        drop-length before (ds ++ (c ∷ tok ++ d ∷ rest)),
        strspn-All delim ds c (tok ++ d ∷ rest) delims nc out,
        here,
        test,
        behind,
        strpbrk-All delim (c ∷ tok) d rest (nc, out, all) nd hit,
        ended,
      )
      refl
