-- ===== src/Pic.antt =====
-- kernel/src/sys/pic.c: the mask of the two interrupt controllers.
pub mod Ports
use shadow_os.Base.{
  ℕ, ◌-◌, ◌/◌, ◌^◌, Bool, true, false, bit_and, bit_or, ◌%◌, ltb, leb, if◌then◌else◌, List, ◌∷◌,
}

-- `g_curmask`, what was last written to the data ports, and the commands that were written, the
-- latest first, true for those to the slave
pub record Pic : Type 0 where
  pub curmask : ℕ
  pub master_data : ℕ
  pub slave_data : ℕ
  pub commands : List (Bool × ℕ)

-- the write of the half of the mask that holds the line
send : ℕ → Pic → Pic
send irq p =
    if ltb irq 8
    then record p { master_data = bit_and p.curmask 0xFF }
    else record p { slave_data = bit_and (p.curmask / 2 ^ 8) 0xFF }

pub mask : ℕ → Pic → Pic
unfolding send
mask irq p = send irq (record p { curmask = bit_or p.curmask (2 ^ irq) % 2 ^ 16 })

-- `g_curmask &= ~(1 << irq)`, for a line below 16
pub unmask : ℕ → Pic → Pic
unfolding send
unmask irq p = send irq (record p { curmask = bit_and p.curmask (2 ^ 16 - 1 - 2 ^ irq) })

pub maskall : Pic → Pic
maskall p = record p { curmask = 0xFFFF; master_data = 0xFF; slave_data = 0xFF }

unfoldable pub eoi : ℕ → Pic → Pic
eoi irq p =
    let t = if leb 8 irq then record p { commands = (true, 0x20) ∷ p.commands } else p in
    record t { commands = (false, 0x20) ∷ t.commands }

-- The two commands of the initialisation, and what follows on the data ports, of which the last
-- value stays.
pub pic_init : Pic → Pic
pic_init p = maskall (record p {
  commands = (true, 0x11) ∷ (false, 0x11) ∷ p.commands;
  master_data = 1;
  slave_data = 1;
})
