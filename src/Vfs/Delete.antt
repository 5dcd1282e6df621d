-- ===== src/Vfs/Delete.antt =====
-- vfs_delete_node of kernel/src/dev/vfs.c. The tree below a node is followed on fuel, `stuck` where
-- that runs out.
use shadow_os.Base.{
  ℕ, zero, suc, ◌≡◌, ◌≢◌, refl, true, false, Option, none, some, ◌==◌, if◌then◌else◌, arith,
}
use shadow_os.Base.Outcome.{Outcome, ok, stuck, ◌>>=◌, deref}
use shadow_os.Memory.Chars.{Chars}
use shadow_os.Vfs.{Vnode, Fs, is_dir, modify, lock}
use shadow_os.Vfs.Paths.{find_child, lookup}

-- `kfree(vnode)`
abbrev pub free_node : ℕ → Fs → Fs
free_node n s = record s { nodes = λ i. if i == n then none else s.nodes i }

-- `if (vnode->parent && vnode->parent->child == vnode) vnode->parent->child = NULL;`
unfoldable pub detach : ℕ → ℕ → Fs → Outcome Fs
unfolding modify
detach n parent s = if parent == 0 then ok s else (do
  p ← deref (s.nodes parent)
  if p.child == n then modify parent (λ p. record p { child = 0 }) s else ok s)

mutual
  -- the loop over the children
  pub delete_children : ℕ → ℕ → Fs → Outcome Fs
  delete_children zero child s = stuck
  delete_children (suc k) child s =
      if child == 0
      then ok s
      else (do v ← deref (s.nodes child); t ← delete_node k child s; delete_children k v.next t)

  pub delete_node : ℕ → ℕ → Fs → Outcome Fs
  delete_node zero n s = stuck
  delete_node (suc k) n s = if n == 0 then ok s else (do
    (t, v) ← lock n s
    let below = delete_children k v.child t
    u ← (if is_dir v.kind then below else ok t)
    w ← detach n v.parent u
    ok (free_node n w))

abbrev with_node : ℕ → Option Vnode → Fs → Fs
with_node n v s = record s { nodes = λ i. if i == n then v else s.nodes i }

lock_lem :
    (n : ℕ) (s : Fs) (v : Vnode)
    → s.nodes n ≡ some v
    → v.locked ≡ false
    → lock n s ≡ ok (with_node n (some (record v { locked = true })) s, v)
unfolding lock modify
lock_lem n s v there free = rw (there, free) refl

detach_lem :
    (n : ℕ) (s : Fs) (parent : ℕ) (p : Vnode)
    → parent ≢ 0
    → s.nodes parent ≡ some p
    → p.child ≡ n
    → detach n parent s ≡ ok (with_node parent (some (record p { child = 0 })) s)
unfolding detach modify
detach_lem n s parent p nonzero there first = ground (arith, nonzero, there, first)

-- Where a file that is not locked is the first child of a directory, its deletion takes it out of
-- memory, and leaves the directory without children: a lookup of any name gives NULL, also of a
-- sibling's.
pub lookup-delete_node :
    (fuel k n : ℕ) (s : Fs) (v p : Vnode) (name : Chars)
    → n ≢ 0
    → s.nodes n ≡ some v
    → v.locked ≡ false
    → is_dir v.kind ≡ false
    → v.parent ≢ 0
    → v.parent ≢ n
    → s.nodes v.parent ≡ some p
    → p.child ≡ n
    → (t : Fs) × (delete_node (suc k) n s ≡ ok t)
      × (t.nodes n ≡ none)
      × (lookup (suc fuel) v.parent name t ≡ ok none)
unfolding delete_node lookup find_child
lookup-delete_node fuel k n s v p name nonzero there free file has_parent apart parent first =
    let locked = with_node n (some (record v { locked = true })) s in
    let childless = with_node v.parent (some (record p { child = 0 })) locked in
    let here : (n == 0) ≡ false = ground (arith, nonzero) in
    (
      free_node n childless,
      rw
          (
            here,
            lock_lem n s v there free,
            file,
            detach_lem n locked v.parent p has_parent (ground (arith, parent, apart)) first,
          )
          refl,
      ground arith,
      ground (arith, apart),
    )
