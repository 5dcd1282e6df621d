-- ===== src/Tests/Formats.antt =====
-- Formatted output, with a formatter whose arguments are the text.
use shadow_os.Base.{
  length-take, length-replicate, ◌-◌, ◌∷◌, take, drop, ℕ, ◌≡◌, refl, false, ltb, if◌then◌else◌, ℤ,
  pos, length, replicate, [], ◌++◌, arith,
}
use shadow_os.Base.Outcome.{Outcome, ok, ◌>>=◌}
use shadow_os.Memory.Block.{Bytes}
use shadow_os.Memory.Chars.{Chars}
use shadow_os.Ports.{Ports}
use shadow_os.Ports.Logged.{logged}
use shadow_os.Printk.{Console, put}
use shadow_os.Printk.Format.{kprintf, sprintf, buffer_size}
use shadow_os.Printk.Format.Cut.{IsFormat, Printed, sprintf-Printed, kprintf-put}
use shadow_os.Stdout.{write}
use shadow_os.Stdout.Sent.{backwards, sent, write-sent}

-- It fills what is left of the size with zeros.
abbrev filler : ℕ → Chars → Chars
filler size t = replicate (size - 1 - length (take (size - 1) t)) 0

abbrev verbatim : Chars → ℕ → Chars → Outcome (Chars × ℤ)
verbatim args size buf =
    ok (take (size - 1) args ++ 0 ∷ (filler size args ++ drop size buf), pos (length args))

verbatim-IsFormat : IsFormat verbatim
verbatim-IsFormat = record {
  text = λ args. args;
  prints = λ args size buf some_room room counted. (
    _,
    refl,
    record {
      rest = filler size args;
      filled = omega (
        arith,
        some_room,
        length-take (size - 1) args,
        length-replicate {A = ℕ} (size - 1 - length (take (size - 1) args)) 0,
      );
      bytes = refl;
    },
  );
}

abbrev ten : Chars
ten = replicate 10 b'x'

sprintf-Printed_example :
    (b : Chars) × (sprintf verbatim (replicate 16 0) ten ≡ ok (b, pos (length ten)))
    × Printed ten 8 (replicate 16 0) b
unfolding verbatim-IsFormat
sprintf-Printed_example =
    sprintf-Printed verbatim verbatim-IsFormat (replicate 16 0) ten (omega arith) (omega arith)

abbrev quiet : Console
quiet = record { index = 0; buffer = λ i. 0; locked = false; serial = []; screen = [] }

kprintf-put_example : kprintf verbatim 4096 false false (replicate buffer_size 0) ten quiet ≡ (
    let n = length ten in
    if ltb n buffer_size
    then (do t ← put 4096 false false ten quiet; ok (t, pos n))
    else ok (quiet, pos n))
unfolding verbatim-IsFormat
kprintf-put_example =
    kprintf-put verbatim verbatim-IsFormat 4096 false false (replicate buffer_size 0) ten quiet refl
      (omega arith)

-- devices that do not answer
abbrev silence : Ports
silence = record {
  State = Unit;
  inb = λ p s. (0, s);
  outb = λ p v s. s;
  inl = λ p s. (0, s);
  outl = λ p v s. s;
}

abbrev letters : Bytes
letters a = a

write-sent_example :
    (t : Unit {0}) × (write (logged silence) letters 65 3 ((tt, []), [])
      ≡ ok (((t, sent (backwards 3 letters 65) ++ []), backwards 3 letters 65 ++ []), pos 3))
write-sent_example = write-sent silence letters 65 3 tt [] [] (omega arith) (omega arith)
