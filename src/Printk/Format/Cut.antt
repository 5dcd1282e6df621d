-- ===== src/Printk/Format/Cut.antt =====
-- How much of a formatted text gets out.
use shadow_os.Base.{
  int_of_size, ℕ, zero, suc, ◌+◌, ◌-◌, ◌%◌, ◌^◌, ◌≤◌, ◌<◌, ◌≡◌, refl, sym, ◌∙◌, ap, Bool, true,
  if◌then◌else◌, ltb, ℤ, pos, length, length-append, take, drop, set, [], ◌∷◌, ◌++◌, Bool-cases,
  inl, inr, arith,
}
use shadow_os.Base.Outcome.{Outcome, ok, ◌>>=◌}
use shadow_os.Memory.Chars.{Chars}
use shadow_os.Memory.Tokens.First.{set-length}
use shadow_os.Printk.{Console, put}
use shadow_os.Printk.Format.{vsnprintf, sprintf, kprintf, vprintf, buffer_size}

-- What an object `buf` becomes that gets the beginning of a text that fits a size, and its
-- terminator: nothing is said of the other bytes within the size, and those behind it stay.
pub record Printed (text : Chars) (size : ℕ) (buf b : Chars) : Type 0 where
  pub rest : Chars
  pub filled : length (take (size - 1) text) + 1 + length rest ≡ size
  pub bytes : b ≡ take (size - 1) text ++ 0 ∷ (rest ++ drop size buf)

-- npf_vsnprintf, as its documentation has it: the object gets as much of the text as fits, and the
-- length is that of the whole text, where an int holds it.
pub record IsFormat {A : Type 0} (npf : A → ℕ → Chars → Outcome (Chars × ℤ)) : Type 0 where
  pub text : A → Chars
  pub prints :
      (args : A) (size : ℕ) (buf : Chars)
      → 1 ≤ size
      → size ≤ length buf
      → length (text args) < 2 ^ 31
      → (b : Chars) × (npf args size buf ≡ ok (b, pos (length (text args))))
        × Printed (text args) size buf b

length-take : (k : ℕ) (t : Chars) → k ≤ length t → length (take k t) ≡ k
length-take zero t h = refl
length-take (suc k) [] h = absurd (omega arith)
length-take (suc k) (c ∷ t) h = ap suc (length-take k t (omega arith))

take-all : (k : ℕ) (t : Chars) → length t ≤ k → take k t ≡ t
take-all zero [] h = refl
take-all zero (c ∷ t) h = absurd (omega arith)
take-all (suc k) [] h = refl
take-all (suc k) (c ∷ t) h = ap (λ u. c ∷ u) (take-all k t (omega arith))

take-length : (t r : Chars) → take (length t) (t ++ r) ≡ t
take-length [] r = refl
take-length (c ∷ t) r = ap (λ u. c ∷ u) (take-length t r)

below_size : (n : ℕ) → ltb n buffer_size ≡ true → n ≤ buffer_size - 1
below_size n h = ground (arith, h)

-- The byte that vsnprintf sets where the text is too long is the terminator that is there.
ended_again :
    (t : Chars) (size : ℕ) (buf b : Chars)
    → 1 ≤ size
    → size < 2 ^ 31
    → size ≤ length t
    → Printed t size buf b
    → ((size + 2 ^ 64 - 1) % 2 ^ 64 ≡ size - 1)
      × (ltb (size - 1) (length b) ≡ true)
      × (set b (size - 1) 0 ≡ b)
ended_again t size buf b some_room small long p =
    let at = length-take (size - 1) t (omega arith) in
    let r = p.rest ++ drop size buf in
    let whole = length-append (take (size - 1) t) (0 ∷ r) in
    (
      omega arith,
      ground (arith, at, whole, ap length p.bytes),
      ap (λ l. set l (size - 1) 0) p.bytes
          ∙ ap (λ i. set (take (size - 1) t ++ 0 ∷ r) i 0) (sym at)
          ∙ set-length (take (size - 1) t) 0 0 r
          ∙ sym p.bytes,
    )

module _ {A : Type 0} (npf : A → ℕ → Chars → Outcome (Chars × ℤ)) (F : IsFormat npf) where
  -- The last byte of the object is the terminator already.
  vsnprintf-Printed :
      (buf : Chars) (size : ℕ) (args : A)
      → 1 ≤ size
      → size < 2 ^ 31
      → size ≤ length buf
      → length (F.text args) < 2 ^ 31
      → (b : Chars) × (vsnprintf npf buf size args ≡ ok (b, pos (length (F.text args))))
        × Printed (F.text args) size buf b
  unfolding vsnprintf
  vsnprintf-Printed buf size args some_room small room counted =
      let (b, e, p) = F.prints args size buf some_room room counted in
      let n = length (F.text args) in
      let int_size : int_of_size size ≡ pos size = ground arith in
      elim (Bool-cases (ltb n size)) [
        | inl fits ↦ (b, rw (e, int_size) (rw fits refl), p)
        | inr over ↦
            let last =
              ended_again (F.text args) size buf b some_room small (ground (arith, over)) p in
            (b, rw (e, int_size) (rw (over, last.0, last.1, last.2) refl), p)
      ]

  -- Over a formatter that writes as much of the text as the object has room for, and the terminator,
  -- and returns the length of the text, which an int holds: sprintf to an object of at least eight
  -- bytes, however many they are, writes at most seven bytes of the text and the terminator, leaves the
  -- bytes behind the first eight as they were, and returns the length of the whole text.
  pub sprintf-Printed :
      (buf : Chars) (args : A)
      → 8 ≤ length buf
      → length (F.text args) < 2 ^ 31
      → (b : Chars) × (sprintf npf buf args ≡ ok (b, pos (length (F.text args))))
        × Printed (F.text args) 8 buf b
  unfolding sprintf
  sprintf-Printed buf args room counted =
      vsnprintf-Printed buf 8 args (omega arith) (omega arith) room counted

  -- Over a formatter that writes as much of the text as the object has room for, and the terminator,
  -- and returns the length of the text, which an int holds: kprintf, whose object has 1024 bytes, gives
  -- a text of less than 1024 bytes whole to put, and nothing of a longer one; where it returns, it
  -- returns the length of the text.
  pub kprintf-put :
      (ring : ℕ) (redirected has_screen : Bool) (buffer : Chars) (args : A) (s : Console)
      → length buffer ≡ buffer_size
      → length (F.text args) < 2 ^ 31
      → kprintf npf ring redirected has_screen buffer args s ≡ (
          let n = length (F.text args) in
          if ltb n buffer_size
          then (do t ← put ring redirected has_screen (F.text args) s; ok (t, pos n))
          else ok (s, pos n))
  unfolding kprintf vprintf
  kprintf-put ring redirected has_screen buffer args s whole counted =
      let (b, e, p) =
        F.prints args buffer_size buffer (omega arith) (omega (arith, whole)) counted in
      let n = length (F.text args) in
      elim (Bool-cases (ltb n buffer_size)) [
        | inl fits ↦
            let all = take-all (buffer_size - 1) (F.text args) (below_size n fits) in
            let r = p.rest ++ drop buffer_size buffer in
            let text : take n b ≡ F.text args =
              ap (take n) p.bytes
              ∙ ap (λ t. take n (t ++ 0 ∷ r)) all
              ∙ take-length (F.text args) (0 ∷ r) in
            rw e (rw (fits, text) refl)
        | inr over ↦ rw e (rw over refl)
      ]
