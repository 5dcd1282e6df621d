-- ===== src/Printk.antt =====
-- The output of the kernel in kernel/src/lib/printf.c: the ring that keeps the log until a file
-- takes it, and the writes to a file. Formatting is that of another project's library.
pub mod Ring
pub mod Format
pub mod Files
use shadow_os.Base.{
  int_of_size, ℕ, zero, suc, ◌+◌, ◌-◌, ◌%◌, ◌^◌, Bool, true, false, List, [], ◌∷◌, ◌==◌, ltb,
  if◌then◌else◌, ℤ, pos, negsuc,
}
use shadow_os.Base.Outcome.{Outcome, ok, stuck, ◌>>=◌}
use shadow_os.Memory.Chars.{Chars}

-- `printk_index` and the memory from `printk_buff_start` on, `put_lock`, and what went to the serial
-- port and to the screen, the latest byte first
pub record Console : Type 0 where
  pub index : ℕ
  pub buffer : ℕ → ℕ
  pub locked : Bool
  pub serial : Chars
  pub screen : Chars

-- PRINTK_BUFF_SIZE, which the linker script gives
module _ (size : ℕ) where
  -- one round of the loop of append_to_printk_buff
  unfoldable pub append_byte : ℕ → Console → Console
  append_byte c s = record s {
    index = (s.index + 1) % size;
    buffer = λ i. if i == s.index then c else s.buffer i;
  }

  pub append_to_printk_buff : Chars → Console → Console
  unfolding append_byte
  append_to_printk_buff [] s = s
  append_to_printk_buff (c ∷ cs) s = append_to_printk_buff cs (append_byte c s)

  -- `outb(0xE9, data[i])` for all bytes
  send_serial : Chars → Console → Console
  send_serial [] s = s
  send_serial (c ∷ cs) s = send_serial cs (record s { serial = c ∷ s.serial })

  -- the second loop of put: the bytes go to the screen too, if there is a terminal or `putchar_impl`
  send_both : Bool → Chars → Console → Console
  send_both has_screen [] s = s
  send_both has_screen (c ∷ cs) s =
      send_both has_screen cs
        (record s { serial = c ∷ s.serial; screen = if has_screen then c ∷ s.screen else s.screen })

  -- `redirected` is whether there is a stdout.
  unfoldable pub put : Bool → Bool → Chars → Console → Outcome Console
  unfolding append_to_printk_buff send_serial send_both
  put redirected has_screen bytes s =
      if s.locked
      then stuck
      else if redirected
      then ok (send_serial bytes s)
      else ok (send_both has_screen bytes (append_to_printk_buff bytes s))

-- fwrite over the write of a file, which takes the place in the buffer and the size. Every round that
-- does not end it writes a byte or more, so that the size is enough for the number of rounds where a
-- write takes no more than it is given. The result is an int.
pub fwrite_from {ℓ} : {S : Type ℓ} → (ℕ → ℕ → S → Outcome (S × ℤ)) → ℕ → ℕ → ℕ → S → Outcome (S × ℤ)
fwrite_from write size zero total s = if ltb total size then stuck else ok (s, int_of_size total)
fwrite_from write size (suc k) total s =
    if ltb total size
    then (do
      (t, written) ← write total (size - total) s
      elim written [
        | negsuc n ↦ ok (t, negsuc 0)
        | pos n ↦
            let rest = fwrite_from write size k ((total + n) % 2 ^ 64) t in
            if n == 0 then ok (t, negsuc 0) else rest
      ])
    else ok (s, int_of_size total)

pub fwrite {ℓ} : {S : Type ℓ} → (ℕ → ℕ → S → Outcome (S × ℤ)) → ℕ → S → Outcome (S × ℤ)
fwrite write size s = fwrite_from write size size 0 s
