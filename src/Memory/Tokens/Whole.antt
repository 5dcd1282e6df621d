-- ===== src/Memory/Tokens/Whole.antt =====
-- strtok of a text without delimiters.
use shadow_os.Base.{
  ℕ, zero, suc, ◌+◌, ◌≡◌, refl, ◌∙◌, false, Option, some, [], ◌∷◌, ◌==◌, drop, get_elem?, length,
  arith,
}
use native.Mathlib.Nat.{add-zero, zero-add, suc-add}
use shadow_os.Base.Outcome.{ok}
use shadow_os.Memory.Chars.{Chars, strspn, strcspn}
use shadow_os.Memory.Chars.Length.{cstr}
use shadow_os.Memory.Chars.Spans.{All}
use shadow_os.Memory.Tokens.{cut_last, last_from, strtok}
use shadow_os.Memory.Tokens.First.{get_elem?-length}

pub get_elem?-drop :
    (start i : ℕ) (text : Chars) → get_elem? text (start + i) ≡ get_elem? (drop start text) i
get_elem?-drop zero i text = rw zero-add refl
get_elem?-drop (suc start) i [] = refl
get_elem?-drop (suc start) i (x ∷ text) = rw suc-add (get_elem?-drop start i text)

strcspn-All :
    (delim name rest : Chars)
    → All false delim name
    → strcspn (cstr name rest) delim ≡ some (length name)
unfolding strcspn
strcspn-All delim [] rest all = refl
strcspn-All delim (c ∷ name) rest (ne, out, all) =
    ground (arith, ne, out, strcspn-All delim name rest all)

-- A text that is not empty and has no delimiter is the token, and what is kept is the place of its
-- terminator.
pub strtok-whole :
    (text delim tl rest : Chars) (start c : ℕ) (last : Option ℕ)
    → drop start text ≡ cstr (c ∷ tl) rest
    → All false delim (c ∷ tl)
    → strtok (some start) delim last text
      ≡ ok (record { text = text; kept = some (start + length (c ∷ tl)); token = some start })
unfolding strtok last_from cut_last
strtok-whole text delim tl rest start c last here (ne, out, all) =
    let skipped : strspn (drop start text) delim ≡ some 0 =
      rw here (unfold strspn in ground (arith, ne, out)) in
    let first : get_elem? text (start + 0) ≡ some c = get_elem?-drop start 0 text ∙ rw here refl in
    let size : strcspn (drop (start + 0) text) delim ≡ some (length (c ∷ tl)) =
      rw (add-zero, here) (strcspn-All delim (c ∷ tl) rest (ne, out, all)) in
    let last_byte : get_elem? text (start + 0 + length (c ∷ tl)) ≡ some 0 =
      rw add-zero (
        get_elem?-drop start (length (c ∷ tl)) text ∙ rw here (get_elem?-length (c ∷ tl) 0 rest)) in
    let test : (c == 0) ≡ false = ground (arith, ne) in
    rw (skipped, first, test, size, last_byte) (rw add-zero refl)
