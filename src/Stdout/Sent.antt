-- ===== src/Stdout/Sent.antt =====
-- What the standard output sends.
use shadow_os.Base.{
  int_of_size, ℕ, zero, suc, ◌+◌, ◌%◌, ◌^◌, ◌<◌, ◌≡◌, ◌≢◌, refl, false, ◌∙◌, ap, List, [], ◌∷◌,
  ◌++◌, ◌==◌, pos, arith,
}
use mathlib.Core.List.{append_assoc}
use shadow_os.Base.Outcome.{ok}
use shadow_os.Memory.Block.{Bytes}
use shadow_os.Memory.Chars.{Chars}
use shadow_os.Ports.{Ports}
use shadow_os.Ports.Logged.{Access, put, logged}
use shadow_os.Stdout.{com_port, write_bytes, write}

-- the bytes from a place on, the last first
pub backwards : ℕ → Bytes → ℕ → Chars
backwards zero mem at = []
backwards (suc n) mem at = backwards n mem (at + 1) ++ mem at % 2 ^ 8 ∷ []

-- writes to the serial port
pub sent : Chars → List Access
sent [] = []
sent (c ∷ cs) = put com_port c ∷ sent cs

sent-append : (cs ds : Chars) → sent (cs ++ ds) ≡ sent cs ++ sent ds
unfolding sent
sent-append [] ds = refl
sent-append (c ∷ cs) ds = ap (λ log. put com_port c ∷ log) (sent-append cs ds)

write_bytes-sent :
    (P : Ports) (n : ℕ) (mem : Bytes) (at : ℕ) (s : P.State) (log : List Access) (screen : Chars)
    → (t : P.State) × (write_bytes (logged P) n mem at ((s, log), screen)
        ≡ ((t, sent (backwards n mem at) ++ log), backwards n mem at ++ screen))
unfolding write_bytes backwards
write_bytes-sent P zero mem at s log screen =
    let nothing_sent : sent [] ≡ [] = unfold sent in refl in (s, rw nothing_sent refl)
write_bytes-sent P (suc n) mem at s log screen =
    let c = mem at % 2 ^ 8 in
    let cs = backwards n mem (at + 1) in
    let (t, rest) =
      write_bytes-sent P n mem (at + 1) (P.outb com_port c s) (put com_port c ∷ log) (c ∷ screen) in
    let one : sent (c ∷ []) ≡ put com_port c ∷ [] = unfold sent in refl in
    let logs : sent (cs ++ c ∷ []) ++ log ≡ sent cs ++ put com_port c ∷ log =
      rw (sent-append cs (c ∷ []), one) (append_assoc (sent cs) (put com_port c ∷ []) log) in
    (t, rest ∙ rw (logs, append_assoc cs (c ∷ []) screen) refl)

-- A write of a buffer that is not NULL, of less than 2^31 bytes, sends these bytes in their order to
-- the serial port and to the terminal, makes no other access, and returns their number.
pub write-sent :
    (P : Ports) (mem : Bytes) (buf size : ℕ) (s : P.State) (log : List Access) (screen : Chars)
    → buf ≢ 0
    → size < 2 ^ 31
    → (t : P.State) × (write (logged P) mem buf size ((s, log), screen)
        ≡ ok (
          ((t, sent (backwards size mem buf) ++ log), backwards size mem buf ++ screen),
          pos size,
        ))
unfolding write
write-sent P mem buf size s log screen nonzero small =
    let (t, all) = write_bytes-sent P size mem buf s log screen in
    let there : (buf == 0) ≡ false = ground (arith, nonzero) in
    let int_size : int_of_size size ≡ pos size = ground arith in (t, rw (there, all, int_size) refl)
