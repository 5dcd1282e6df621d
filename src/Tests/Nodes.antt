-- ===== src/Tests/Nodes.antt =====
-- The theorems on nodes, files and dates at concrete ones.
use shadow_os.Base.{
  ℕ, ◌+◌, ◌%◌, ◌^◌, ◌≡◌, refl, ◌↔◌, true, false, Option, none, some, [], ◌∷◌, ◌==◌, if◌then◌else◌,
  replicate, leb, arith, pos,
}
use shadow_os.Base.Outcome.{ok}
use shadow_os.Base.Returning.{Returning}
use shadow_os.Memory.Chars.{Chars}
use shadow_os.Vfs.{Vnode, NodeType, Fs, Ops}
use shadow_os.Vfs
use shadow_os.Vfs.Access.{Class, IsIn, HasRight, am_i_allowed, am_i_allowed_iff}
use shadow_os.Vfs.Locks.{IsFree, write-IsFree}
use shadow_os.Vfs.Paths.Children.{Chain}
use shadow_os.Ramfs.{Data, File}
use shadow_os.Ramfs
use shadow_os.Rtc.{
  extra_day, Date, IsDate, next_day, month_days, timestamp_of, timestamp_of-next_day,
}

abbrev pub plain : Vnode
plain = record {
  parent = 0;
  next = 0;
  child = 0;
  mount = 0;
  kind = NodeType.file;
  name = b'a' ∷ 0 ∷ [];
  size = 0;
  data_at = 0;
  uid = 5;
  gid = 6;
  mode = 0x184;
  creation_time = 0;
  access_time = 0;
  modify_time = 0;
  ops = 1;
  flags = 0;
  locked = false;
}

am_i_allowed_iff_example :
    (am_i_allowed (some plain) 5 7 2 ≡ true)
    ↔ ((c : Class) × IsIn c plain 5 7 × HasRight c plain.mode 2)
am_i_allowed_iff_example = am_i_allowed_iff plain 5 7 2

-- one node, at address 8
abbrev disk : Fs
disk = record { nodes = λ n. if n == 8 then some plain else none; mem = λ a. 0 }

-- a file system that takes everything
abbrev pub accepting : ℕ → Ops
accepting a = record {
  read = some (λ n buf size offset s. ok (s, pos size));
  write = some (λ n buf size offset s. ok (s, pos size));
  create = none;
  ioctl = none;
}

write-IsFree_example : Returning (λ p. IsFree 8 p.0) (Vfs.write accepting 100 8 4096 2 0 disk)
write-IsFree_example = write-IsFree accepting 100 8 4096 2 0 disk

-- two bytes of contents in an object of three
abbrev contents : Data
contents = record { bytes = 1 ∷ 2 ∷ 3 ∷ []; size = 2 }

abbrev two_bytes : File
two_bytes = record { kind = NodeType.file; content = some contents; size = 2 }

abbrev zeros : ℕ → Option Chars
zeros n = if leb n 8 then some (replicate 8 0) else none

-- the last day of February in a leap year
abbrev leap_day : Date
leap_day = record { year = 2024; month = 2; day = 29 }

leap_day-IsDate : IsDate leap_day
unfolding month_days extra_day
leap_day-IsDate = record {
  from_1970 = omega arith;
  month_from = omega arith;
  month_to = omega arith;
  day_from = omega arith;
  day_to = omega arith;
}

timestamp_of-next_day_example :
    timestamp_of (next_day leap_day) 12 30 15 ≡ (timestamp_of leap_day 12 30 15 + 86400) % 2 ^ 32
timestamp_of-next_day_example = timestamp_of-next_day leap_day 12 30 15 leap_day-IsDate

-- a directory at address 8 with one child, at 16
abbrev pub folder : Fs
folder = record {
  nodes = λ n.
      if n == 8
      then some (record plain { kind = NodeType.dir; child = 16 })
      else if n == 16
      then some plain
      else none;
  mem = λ a. 0;
}

pub folder-Chain : Chain folder 16 (record { at = 16; text = b'a' ∷ []; behind = [] } ∷ [])
unfolding Chain
folder-Chain = (refl, omega arith, (omega arith, tt), (plain, refl, refl, refl))
