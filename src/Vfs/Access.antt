-- ===== src/Vfs/Access.antt =====
-- vfs_am_i_allowed of kernel/src/dev/vfs.c.
use shadow_os.Base.{
  ℕ, zero, suc, ◌+◌, ◌*◌, ◌/◌, ◌%◌, ◌^◌, ◌≡◌, ◌↔◌, ◌<◌, inl, inr, Bool, true, false, Option, none,
  some, ◌==◌, ◌!=◌, ◌&&◌, bit_and, if◌then◌else◌, arith, Bool-cases,
}
use shadow_os.Base.Bits.{bit_and-low, bit_and-shift, pow-pos}
use shadow_os.Vfs.{Vnode}

-- the three classes of users
pub data Class : Type 0 where
  owner group others : Class

-- VNODE_MODE_XUSR to VNODE_MODE_WOTH: action 0 is execute, 1 is read, 2 is write, and the `switch`
-- passes over any other.
unfoldable pub bit_of : Class → ℕ → Option ℕ
bit_of Class.owner a =
    if a == 0 then some 0x40 else if a == 1 then some 0x100 else if a == 2 then some 0x80 else none
bit_of Class.group a =
    if a == 0 then some 0x8 else if a == 1 then some 0x20 else if a == 2 then some 0x10 else none
bit_of Class.others a =
    if a == 0 then some 0x1 else if a == 1 then some 0x4 else if a == 2 then some 0x2 else none

-- one `switch (action)`
unfoldable pub grants : Class → Vnode → ℕ → Bool
unfolding bit_of
grants c v action = elim (bit_of c action) [ none ↦ false | some b ↦ bit_and v.mode b != 0 ]

-- none for NULL
unfoldable pub am_i_allowed : Option Vnode → ℕ → ℕ → ℕ → Bool
unfolding grants
am_i_allowed none uid gid action = false
am_i_allowed (some v) uid gid action =
    if (v.uid == uid) && grants Class.owner v action
    then true
    else if (v.gid == gid) && grants Class.group v action
    then true
    else grants Class.others v action

-- The user is in the class.
abbrev pub IsIn : Class → Vnode → ℕ → ℕ → Type 0
IsIn Class.owner v uid gid = v.uid ≡ uid
IsIn Class.group v uid gid = v.gid ≡ gid
IsIn Class.others v uid gid = Unit

-- The twelve bits of a mode as `ls` reads them: three of the owner, three of the group and three of
-- the others, each read, write and execute from the high bit on.
abbrev pub place_of : Class → ℕ
place_of Class.owner = 6
place_of Class.group = 3
place_of Class.others = 0

-- The class has the right: actions 0, 1 and 2 are to execute, to read and to write.
abbrev pub HasRight : Class → ℕ → ℕ → Type 0
HasRight c mode zero = mode / 2 ^ place_of c % 2 ≡ 1
HasRight c mode (suc zero) = mode / 2 ^ (place_of c + 2) % 2 ≡ 1
HasRight c mode (suc (suc zero)) = mode / 2 ^ (place_of c + 1) % 2 ≡ 1
HasRight c mode (suc (suc (suc a))) = ⊥

scaled : (b p : ℕ) → 0 < p → b < 2 → (b * p != 0) ≡ (b == 1)
scaled zero p h lt = ground arith
scaled (suc zero) p h lt = ground arith
scaled (suc (suc b)) p h lt = absurd (omega arith)

bit_set : (k x : ℕ) → (bit_and x (1 * 2 ^ k) != 0) ≡ (x / 2 ^ k % 2 == 1)
bit_set k x =
    rw (bit_and-shift k x 1, bit_and-low 1 (x / 2 ^ k))
      (scaled (x / 2 ^ k % 2) (2 ^ k) (pow-pos k) (omega arith))

-- The constant of the code for a class and an action is the bit of that right.
grants-HasRight :
    (c : Class) (v : Vnode) (action : ℕ) → (grants c v action ≡ true) ↔ HasRight c v.mode action
unfolding grants bit_of
grants-HasRight Class.owner v zero =
    let e = bit_set 6 v.mode in (λ h. ground (arith, e, h), λ h. ground (arith, e, h))
grants-HasRight Class.owner v (suc zero) =
    let e = bit_set 8 v.mode in (λ h. ground (arith, e, h), λ h. ground (arith, e, h))
grants-HasRight Class.owner v (suc (suc zero)) =
    let e = bit_set 7 v.mode in (λ h. ground (arith, e, h), λ h. ground (arith, e, h))
grants-HasRight Class.owner v (suc (suc (suc a))) = (λ h. absurd (ground (arith, h)), λ h. absurd h)
grants-HasRight Class.group v zero =
    let e = bit_set 3 v.mode in (λ h. ground (arith, e, h), λ h. ground (arith, e, h))
grants-HasRight Class.group v (suc zero) =
    let e = bit_set 5 v.mode in (λ h. ground (arith, e, h), λ h. ground (arith, e, h))
grants-HasRight Class.group v (suc (suc zero)) =
    let e = bit_set 4 v.mode in (λ h. ground (arith, e, h), λ h. ground (arith, e, h))
grants-HasRight Class.group v (suc (suc (suc a))) = (λ h. absurd (ground (arith, h)), λ h. absurd h)
grants-HasRight Class.others v zero =
    let e = bit_set 0 v.mode in (λ h. ground (arith, e, h), λ h. ground (arith, e, h))
grants-HasRight Class.others v (suc zero) =
    let e = bit_set 2 v.mode in (λ h. ground (arith, e, h), λ h. ground (arith, e, h))
grants-HasRight Class.others v (suc (suc zero)) =
    let e = bit_set 1 v.mode in (λ h. ground (arith, e, h), λ h. ground (arith, e, h))
grants-HasRight Class.others v (suc (suc (suc a))) =
    (λ h. absurd (ground (arith, h)), λ h. absurd h)

-- A user is allowed exactly what the digit of the mode says for some class that the user is in, of
-- owner, group and others: rights add up over the classes, user 0 has no right of its own, and there
-- is no right to any action but the three.
pub am_i_allowed_iff :
    (v : Vnode) (uid gid action : ℕ)
    → (am_i_allowed (some v) uid gid action ≡ true)
      ↔ ((c : Class) × IsIn c v uid gid × HasRight c v.mode action)
unfolding am_i_allowed
am_i_allowed_iff v uid gid action = (forth, back)
  where
    forth :
        am_i_allowed (some v) uid gid action ≡ true
        → (c : Class) × IsIn c v uid gid × HasRight c v.mode action
    forth h = elim (Bool-cases ((v.uid == uid) && grants Class.owner v action)) [
      | inl own ↦
          (Class.owner, ground arith, (grants-HasRight Class.owner v action).0 (ground arith))
      | inr no_own ↦ elim (Bool-cases ((v.gid == gid) && grants Class.group v action)) [
        | inl grp ↦
            (Class.group, ground arith, (grants-HasRight Class.group v action).0 (ground arith))
        | inr no_grp ↦ (Class.others, tt, (grants-HasRight Class.others v action).0 (ground arith))
      ]
    ]

    back :
        (c : Class) × IsIn c v uid gid × HasRight c v.mode action
        → am_i_allowed (some v) uid gid action ≡ true
    back (Class.owner, h, g) = ground (arith, h, (grants-HasRight Class.owner v action).1 g)
    back (Class.group, h, g) = ground (arith, h, (grants-HasRight Class.group v action).1 g)
    back (Class.others, h, g) = ground (arith, (grants-HasRight Class.others v action).1 g)
