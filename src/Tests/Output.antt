-- ===== src/Tests/Output.antt =====
-- The theorems on the log and on the deletion of nodes.
use shadow_os.Base.{
  min, ℕ, ◌+◌, ◌≡◌, refl, false, none, some, [], ◌∷◌, ◌++◌, ◌==◌, if◌then◌else◌, arith, ℤ, pos,
}
use shadow_os.Base.Outcome.{Outcome, ok}
use shadow_os.Vfs.{NodeType, Fs}
use shadow_os.Printk.{Console, append_to_printk_buff, fwrite}
use shadow_os.Printk.Ring.{place, append-latest}
use shadow_os.Printk.Files.{Done, fwrite-Done}
use shadow_os.Tests.Nodes.{plain}

abbrev console : Console
console = record { index = 2; buffer = λ i. 0; locked = false; serial = []; screen = [] }

append-latest_example :
    (append_to_printk_buff 4 ((1 ∷ 2 ∷ 3 ∷ []) ++ (4 ∷ 5 ∷ 6 ∷ 7 ∷ [])) console).buffer
      (place 4 (append_to_printk_buff 4 (1 ∷ 2 ∷ 3 ∷ []) console).index 3)
    ≡ 7
append-latest_example =
    append-latest 4 (1 ∷ 2 ∷ 3 ∷ []) (4 ∷ 5 ∷ 6 ∷ 7 ∷ []) console 3 7 (omega arith) (omega arith)
      refl

-- a file that takes three bytes at a time and counts the writes
abbrev by_three : ℕ → ℕ → ℕ → Outcome (ℕ × ℤ)
by_three from n count = ok (count + 1, pos (min n 3))

fwrite-Done_example : (t : ℕ) × (out : ℤ) × (fwrite by_three 8 0 ≡ ok (t, out)) × Done 8 out
fwrite-Done_example =
    fwrite-Done by_three (λ from n s. ((s + 1, pos (min n 3)), refl, omega arith)) 8 (omega arith) 0

-- a directory at address 8 with two files, at 16 and 24
abbrev two_files : Fs
two_files = record {
  nodes = λ n.
      if n == 8
      then some (record plain { kind = NodeType.dir; child = 16 })
      else if n == 16
      then some (record plain { parent = 8; next = 24 })
      else if n == 24
      then some (record plain { parent = 8; name = b'b' ∷ 0 ∷ [] })
      else none;
  mem = λ a. 0;
}
