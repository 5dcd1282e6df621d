-- ===== src/Memory/Chars/Spans.antt =====
-- strspn and strpbrk over a run of bytes that are in a set, or out of it.
use shadow_os.Base.{ℕ, ◌≡◌, ◌≢◌, Bool, true, false, some, [], ◌∷◌, ◌++◌, length, arith}
use shadow_os.Memory.Chars.{Chars, in_set, strspn, strpbrk}

-- all of these bytes are delimiters, or none of them, and none is a terminator
abbrev pub All : Bool → Chars → Chars → Type 0
All b delim [] = Unit
All b delim (c ∷ cs) = (c ≢ 0) × (in_set c delim ≡ some b) × All b delim cs

module _ (delim : Chars) where
  pub strspn-All :
      (ds : Chars) (c : ℕ) (rest : Chars)
      → All true delim ds
      → c ≢ 0
      → in_set c delim ≡ some false
      → strspn (ds ++ c ∷ rest) delim ≡ some (length ds)
  unfolding strspn
  strspn-All [] c rest all ne out = ground (arith, ne, out)
  strspn-All (d ∷ ds) c rest (nd, hit, all) ne out =
      ground (arith, nd, hit, strspn-All ds c rest all ne out)

  pub strpbrk-All :
      (tok : Chars) (d : ℕ) (rest : Chars)
      → All false delim tok
      → d ≢ 0
      → in_set d delim ≡ some true
      → strpbrk (tok ++ d ∷ rest) delim ≡ some (some (length tok))
  unfolding strpbrk
  strpbrk-All [] d rest all ne hit = ground (arith, ne, hit)
  strpbrk-All (c ∷ tok) d rest (nc, out, all) ne hit =
      ground (arith, nc, out, strpbrk-All tok d rest all ne hit)
