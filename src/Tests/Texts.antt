-- ===== src/Tests/Texts.antt =====
-- The theorems on the string functions at concrete texts.
use shadow_os.Base.{
  true, ℕ, ◌≡◌, false, Option, none, some, [], ◌∷◌, ◌++◌, leb, if◌then◌else◌, replicate, map, arith,
}
use shadow_os.Memory.Chars.{Chars, strcpy, strstr}
use shadow_os.Memory.Chars.Find.{strstr-first_match}
use shadow_os.Memory.Chars.Length.{IsText, cstr}
use shadow_os.Memory.Chars.Copy.{strcpy-cstr}
use shadow_os.Memory.Number.{strtol}
use shadow_os.Memory.Number.Value.{char_of, Reads, strtol-Reads}
use shadow_os.Memory.Dup.{IsRoomy}

abbrev abc : Chars
abc = b'a' ∷ b'b' ∷ b'c' ∷ []

abbrev room : Chars
room = 1 ∷ 2 ∷ 3 ∷ 4 ∷ 5 ∷ 6 ∷ []

abc-IsText : IsText abc
abc-IsText = (omega arith, (omega arith, (omega arith, tt)))

strcpy-cstr_example : strcpy room (cstr abc []) ≡ some (b'a' ∷ b'b' ∷ b'c' ∷ 0 ∷ 5 ∷ 6 ∷ [])
strcpy-cstr_example = strcpy-cstr room abc [] abc-IsText

strtol-Reads_example :
    Reads 16 false 0 0
      ((false, 1) ∷ (true, 15) ∷ [])
      (strtol (map char_of ((false, 1) ∷ (true, 15) ∷ []) ++ 0 ∷ []) 16)
strtol-Reads_example =
    strtol-Reads 16 ((false, 1) ∷ (true, 15) ∷ []) [] (omega arith) (omega arith)
      (omega arith, (omega arith, tt))

-- an allocator that has eight bytes
abbrev small : ℕ → Option Chars
small n = if leb n 8 then some (replicate 8 255) else none

small-IsRoomy : IsRoomy small
small-IsRoomy n b h = ground arith

strstr-first_match_example :
    strstr (cstr (b'a' ∷ b'b' ∷ b'c' ∷ []) []) (cstr (b'b' ∷ []) []) ≡ some (some 1)
strstr-first_match_example =
    strstr-first_match (b'b' ∷ []) [] (b'a' ∷ b'b' ∷ b'c' ∷ []) [] (omega arith, tt)
      (omega arith, (omega arith, (omega arith, tt)))
