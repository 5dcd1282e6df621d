-- ===== src/Printk/Format.antt =====
-- The formatted output of kernel/src/lib/printf.c. `npf` is npf_vsnprintf: of the arguments, a size and
-- an object it makes the object and a length. `args` is a format with its arguments.
pub mod Cut
use shadow_os.Base.{
  ℕ, zero, suc, ◌+◌, ◌-◌, ◌%◌, ◌^◌, Bool, true, false, not, if◌then◌else◌, ltb, leb, ℤ, pos, negsuc,
  length, take, set, int_of_size,
}
use shadow_os.Base.Outcome.{Outcome, ok, fault, ◌>>=◌}
use shadow_os.Memory.Chars.{Chars}
use shadow_os.Printk.{Console, put}

-- `a < b`
abbrev pub ltb_ℤ : ℤ → ℤ → Bool
ltb_ℤ (pos a) (pos b) = ltb a b
ltb_ℤ (pos a) (negsuc b) = false
ltb_ℤ (negsuc a) (pos b) = true
ltb_ℤ (negsuc a) (negsuc b) = ltb b a

-- a write of one byte
abbrev put_byte : Chars → ℕ → ℕ → Outcome Chars
put_byte buf i c = if ltb i (length buf) then ok (set buf i c) else fault

-- `sizeof(buffer)`
abbrev pub buffer_size : ℕ
buffer_size = 1024

-- `sizeof(buf)` of a pointer
abbrev pub pointer_size : ℕ
pointer_size = 8

module _ {A : Type 0} (npf : A → ℕ → Chars → Outcome (Chars × ℤ)) where
  unfoldable pub vsnprintf : Chars → ℕ → A → Outcome (Chars × ℤ)
  vsnprintf buf size args = do
    (b, length_of) ← npf args size buf
    (if ltb_ℤ length_of (int_of_size size)
        then ok (b, length_of)
        else (do b' ← put_byte b ((size + 2 ^ 64 - 1) % 2 ^ 64) 0; ok (b', length_of)))

  unfoldable pub vsprintf : Chars → A → Outcome (Chars × ℤ)
  vsprintf buf args = vsnprintf buf pointer_size args

  unfoldable pub snprintf : Chars → ℕ → A → Outcome (Chars × ℤ)
  snprintf buf size args = vsnprintf buf size args

  unfoldable pub sprintf : Chars → A → Outcome (Chars × ℤ)
  sprintf buf args = vsnprintf buf pointer_size args

  -- vprintf and kprintf, with what `buffer` holds at first, and the arguments of `put`
  unfoldable pub vprintf : ℕ → Bool → Bool → Chars → A → Console → Outcome (Console × ℤ)
  vprintf ring redirected has_screen buffer args s = do
    (b, length_of) ← npf args buffer_size buffer
    elim length_of [
      | negsuc n ↦ ok (s, negsuc n)
      | pos n ↦
          if ltb n buffer_size
          then (do t ← put ring redirected has_screen (take n b) s; ok (t, pos n))
          else ok (s, pos n)
    ]

  unfoldable pub kprintf : ℕ → Bool → Bool → Chars → A → Console → Outcome (Console × ℤ)
  kprintf = vprintf

  -- over the write of a file, whose result is not looked at
  unfoldable pub vfprintf :
      {S : Type 0} → (Chars → S → Outcome (S × ℤ)) → Chars → A → S → Outcome (S × ℤ)
  vfprintf vfs_write buffer args s = do
    (b, length_of) ← npf args buffer_size buffer
    elim length_of [
      | negsuc n ↦ ok (s, negsuc n)
      | pos n ↦
          if ltb n buffer_size
          then (do (t, written) ← vfs_write (take n b) s; ok (t, pos n))
          else ok (s, pos n)
    ]

  unfoldable pub fprintf :
      {S : Type 0} → (Chars → S → Outcome (S × ℤ)) → Chars → A → S → Outcome (S × ℤ)
  fprintf = vfprintf

  -- printf, which writes nothing where there is no stdout
  pub printf : {S : Type 0} → Bool → (Chars → S → Outcome (S × ℤ)) → Chars → A → S → Outcome (S × ℤ)
  printf false vfs_write buffer args s = ok (s, pos 0)
  printf true vfs_write buffer args s = vfprintf vfs_write buffer args s
