-- ===== src/Memory/Tokens/Progress.antt =====
-- What strtok keeps lies behind what it was given, up to the end of the text.
use shadow_os.Base.{
  ℕ, ◌+◌, ◌≤◌, ◌<◌, ◌≡◌, ◌≢◌, refl, Option, none, some, Bool-cases, inl, inr, arith, ◌==◌, length,
  length-set, get_elem?-bound, set, get_elem?, drop, if◌then◌else◌,
}
use shadow_os.Base.Outcome.{deref}
use native.Mathlib.Nat.{add-zero}
use shadow_os.Base.Returning.{Returning, Returning-next, Returning-bind}
use shadow_os.Memory.Chars.{Chars, strspn, strcspn}
use shadow_os.Memory.Tokens.{Token, cut_last, last_from}

-- What a call that starts at a place leaves: a token with a later place, or no token and the place
-- that was kept before.
pub data Moves (start : ℕ) (last : Option ℕ) (size : ℕ) (t : Token) : Type 0 where
  found : (q : ℕ) → t.kept ≡ some q → start < q → q ≤ size → Moves start last size t
  ended : t.token ≡ none → t.kept ≡ last → Moves start last size t

-- The text keeps its length.
pub record IsStep (start : ℕ) (last : Option ℕ) (text : Chars) (t : Token) : Type 0 where
  pub same_length : length t.text ≡ length text
  pub moves : Moves start last (length text) t

pub deref-some : {A : Type 0} (m : Option A) → Returning (λ a. m ≡ some a) (deref m)
deref-some none = tt
deref-some (some a) = refl

-- the token that ends at `start + n`
token_to : Chars → (start n c : ℕ) → Token
token_to text start n c = record {
  text = if c == 0 then text else set text (start + n) 0;
  kept = some (if c == 0 then start + n else start + n + 1);
  token = some start;
}

token_to-IsStep :
    (text : Chars) (last : Option ℕ) (before start n c d : ℕ)
    → before ≤ start
    → get_elem? text start ≡ some d
    → d ≢ 0
    → get_elem? text (start + n) ≡ some c
    → IsStep before last text (token_to text start n c)
unfolding token_to
token_to-IsStep text last before start n c d h first nonzero at =
    let inside = get_elem?-bound text (start + n) at in
    elim (Bool-cases (c == 0)) [
      | inl end ↦
          let none_left : n ≢ 0 =
            λ z. let here = rw (z, add-zero) at at in ground (arith, end, first, nonzero, here) in
          rw end (record {
            same_length = refl;
            moves = found (start + n) refl (omega (arith, none_left)) (omega (arith, inside));
          })
      | inr delim ↦ rw delim (record {
        same_length = length-set text (start + n) 0;
        moves = found (start + n + 1) refl (omega arith) (omega (arith, inside));
      })
    ]

cut_last-IsStep :
    (text delim : Chars) (last : Option ℕ) (before start d : ℕ)
    → before ≤ start
    → get_elem? text start ≡ some d
    → d ≢ 0
    → Returning (IsStep before last text) (cut_last text delim start)
unfolding cut_last token_to
cut_last-IsStep text delim last before start d h first nonzero =
    Returning-next (IsStep before last text) (deref (strcspn (drop start text) delim)) _ λ n.
      Returning-bind (λ c. get_elem? text (start + n) ≡ some c) (IsStep before last text)
        (deref (get_elem? text (start + n))) _ (deref-some (get_elem? text (start + n)))
        λ c at. token_to-IsStep text last before start n c d h first nonzero at

pub last_from-IsStep :
    (last : Option ℕ) (text delim : Chars) (start : ℕ)
    → Returning (IsStep start last text) (last_from last text delim start)
unfolding last_from
last_from-IsStep last text delim start =
    Returning-next (IsStep start last text) (deref (strspn (drop start text) delim)) _ λ n.
      Returning-bind (λ c. get_elem? text (start + n) ≡ some c) (IsStep start last text)
        (deref (get_elem? text (start + n))) _ (deref-some (get_elem? text (start + n)))
        λ c at. elim (Bool-cases (c == 0)) [
          | inl end ↦ rw end (record { same_length = refl; moves = ended refl refl })
          | inr more ↦ rw more (
              cut_last-IsStep text delim last start (start + n) c (omega arith) at
                (ground (arith, more)))
        ]
