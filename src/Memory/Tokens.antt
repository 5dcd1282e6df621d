-- ===== src/Memory/Tokens.antt =====
-- strtok and strtok_r of kernel/src/lib/memory.c. The text is an object that is changed in place;
-- pointers into it are places from its start on, none for NULL.
pub mod First
pub mod Progress
pub mod Whole
use shadow_os.Base.{
  ℕ, zero, suc, ◌+◌, Bool, true, false, Option, none, some, List, [], ◌∷◌, ◌==◌, if◌then◌else◌,
  drop, set, get_elem?,
}
use mathlib.Core.Option
use shadow_os.Base.Outcome.{Outcome, ok, ◌>>=◌, deref}
use shadow_os.Memory.Chars.{Chars, strspn, strcspn, strpbrk, strlen}

-- what a call leaves: the text, the place that is kept, and the token
pub record Token : Type 0 where
  pub text : Chars
  pub kept : Option ℕ
  pub token : Option ℕ

-- strtok_r from a place on, once the delimiters in front are skipped
cut : Chars → Chars → ℕ → Outcome Token
cut text delim start = do
  found ← deref (strpbrk (drop start text) delim)
  elim found [
    | none ↦ do
      n ← deref (strlen (drop start text))
      ok (record { text = text; kept = some (start + n); token = some start })
    | some n ↦
        ok (record {
          text = set text (start + n) 0;
          kept = some (start + n + 1);
          token = some start;
        })
  ]

unfoldable pub strtok_from : Chars → Chars → ℕ → Outcome Token
unfolding cut
strtok_from text delim start = do
  n ← deref (strspn (drop start text) delim)
  c ← deref (get_elem? text (start + n))
  (if c == 0
      then ok (record { text = text; kept = some (start + n); token = none })
      else cut text delim (start + n))

-- `str` or else `*saveptr`
pub strtok_r : Option ℕ → Chars → Option ℕ → Chars → Outcome Token
unfolding strtok_from
strtok_r (some start) delim kept text = strtok_from text delim start
strtok_r none delim (some start) text = strtok_from text delim start
strtok_r none delim none text = ok (record { text = text; kept = none; token = none })

-- strtok once the delimiters in front are skipped: at the end of the text the place behind the token
-- is that of the terminator
unfoldable pub cut_last : Chars → Chars → ℕ → Outcome Token
cut_last text delim start = do
  n ← deref (strcspn (drop start text) delim)
  c ← deref (get_elem? text (start + n))
  ok (record {
    text = if c == 0 then text else set text (start + n) 0;
    kept = some (if c == 0 then start + n else start + n + 1);
    token = some start;
  })

-- A call that finds no token leaves `last` as it was.
unfoldable pub last_from : Option ℕ → Chars → Chars → ℕ → Outcome Token
unfolding cut_last
last_from last text delim start = do
  n ← deref (strspn (drop start text) delim)
  c ← deref (get_elem? text (start + n))
  (if c == 0
      then ok (record { text = text; kept = last; token = none })
      else cut_last text delim (start + n))

-- `last` is kept between the calls.
unfoldable pub strtok : Option ℕ → Chars → Option ℕ → Chars → Outcome Token
unfolding last_from
strtok (some start) delim last text = last_from last text delim start
strtok none delim (some start) text = last_from (some start) text delim start
strtok none delim none text = ok (record { text = text; kept = none; token = none })
