-- ===== src/Vfs/Paths.antt =====
-- vfs_lookup, vfs_lazy_lookup and vfs_lazy_lookup_last of kernel/src/dev/vfs.c. The list of children
-- is followed on fuel, `stuck` where that runs out: a list that runs in a circle is followed for
-- ever. A path is an object that holds a C string.
pub mod Children
use shadow_os.Base.{
  ℕ, zero, suc, Bool, true, false, Option, none, some, List, [], ◌∷◌, ◌++◌, ◌==◌, ◌!=◌, ◌||◌,
  if◌then◌else◌, ℤ, pos, negsuc, length,
}
use mathlib.Core.Option
use shadow_os.Base.Outcome.{Outcome, ok, fault, stuck, ◌>>=◌, deref}
use shadow_os.Memory.Chars.{Chars, strcmp}
use shadow_os.Vfs.{Vnode, Fs, is_dir}

abbrev pub is_zero : ℤ → Bool
is_zero (pos zero) = true
is_zero (pos (suc n)) = false
is_zero (negsuc n) = false

-- the loop of vfs_lookup from a node on; 0 is NULL
unfoldable pub find_child : ℕ → Fs → ℕ → Chars → Outcome (Option ℕ)
find_child zero s current name = stuck
find_child (suc k) s current name = if current == 0 then ok none else (do
  v ← deref (s.nodes current)
  order ← deref (strcmp v.name name)
  let rest = find_child k s v.next name
  (if is_zero order then ok (some current) else rest))

unfoldable pub lookup : ℕ → ℕ → Chars → Fs → Outcome (Option ℕ)
lookup fuel parent name s = do v ← deref (s.nodes parent); find_child fuel s v.child name

-- The next component of a path, with what is left; at most so many bytes fit the buffer.
unfoldable pub split : ℕ → Chars → Option (Chars × Chars)
split zero [] = none
split zero (c ∷ p) = some ([], c ∷ p)
split (suc k) [] = none
split (suc k) (c ∷ p) =
    let rest = split k p in
    if (c == b'/') || (c == 0)
    then some ([], c ∷ p)
    else Option.map (λ (name, q). (c ∷ name, q)) rest

-- `if (*current_path == '/') current_path++;`
unfoldable pub skip_slash : Chars → Chars
skip_slash [] = []
skip_slash (c ∷ p) = if c == b'/' then p else c ∷ p

-- `sizeof(name_buffer) - 1`
abbrev name_room : ℕ
name_room = 255

-- The loop of vfs_lazy_lookup. A round moves on by a byte or more, so that the length of the path
-- is enough for the number of rounds.
unfoldable pub walk : ℕ → ℕ → Fs → ℕ → Chars → Outcome (Option ℕ)
unfolding skip_slash
walk fuel zero s current path = stuck
walk fuel (suc k) s current [] = fault
walk fuel (suc k) s current (c ∷ p) = if c == 0 then ok (some current) else (do
  (name, rest) ← deref (split name_room (c ∷ p))
  found ← lookup fuel current (name ++ 0 ∷ []) s
  elim found [
    | none ↦ ok none
    | some n ↦ do
      v ← deref (s.nodes n)
      let next = walk fuel k s n (skip_slash rest)
      (if is_dir v.kind then next else ok (some n))
  ])

-- A mount list is that of the roots from a mount on, a root 0 for NULL. A path that a mount does
-- not hold is looked up in the next.
unfoldable pub lazy_lookup : ℕ → List ℕ → Chars → Fs → Outcome (Option ℕ)
lazy_lookup fuel [] path s = ok none
lazy_lookup fuel (root ∷ mounts) [] s = fault
lazy_lookup fuel (root ∷ mounts) (c ∷ p) s = if (c != b'/') || (root == 0) then ok none else (do
  found ← walk fuel (suc (length p)) s root p
  elim found [ none ↦ lazy_lookup fuel mounts (c ∷ p) s | some n ↦ ok (some n) ])

-- The loop of vfs_lazy_lookup_last: the result is the node of the last component that was found.
pub walk_last : ℕ → ℕ → Fs → ℕ → Chars → Outcome ℕ
unfolding skip_slash
walk_last fuel zero s current path = stuck
walk_last fuel (suc k) s current [] = fault
walk_last fuel (suc k) s current (c ∷ p) = if c == 0 then ok current else (do
  (name, rest) ← deref (split name_room (c ∷ p))
  found ← lookup fuel current (name ++ 0 ∷ []) s
  elim found [ none ↦ ok current | some n ↦ walk_last fuel k s n (skip_slash rest) ])

-- With one mount, none for NULL.
pub lazy_lookup_last : ℕ → Option ℕ → Chars → Fs → Outcome (Option ℕ)
lazy_lookup_last fuel none path s = ok none
lazy_lookup_last fuel (some root) [] s = fault
lazy_lookup_last fuel (some root) (c ∷ p) s =
    if (c != b'/') || (root == 0)
    then ok none
    else (do n ← walk_last fuel (suc (length p)) s root p; ok (some n))
