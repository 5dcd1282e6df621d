-- ===== src/Ramfs/Create/Made.antt =====
-- vfs_create_vnode of kernel/src/dev/vfs.c on a directory of ramfs.
use shadow_os.Base.{
  ℕ, ◌+◌, ◌<◌, ◌≡◌, ◌≢◌, refl, ◌∙◌, ◌==◌, true, false, Option, none, some, List, [], ◌∷◌, ◌++◌,
  length, length-append, ap, arith,
}
use shadow_os.Base.Outcome.{Outcome, ok}
use shadow_os.Memory.Chars.{Chars}
use shadow_os.Memory.Chars.Length.{IsText, cstr}
use shadow_os.Vfs.{
  Vnode, NodeType, Fs, Ops, is_dir, modify, lock, unlock, unlock_with, entry_of, stamp, run_create,
  create_vnode,
}
use shadow_os.Vfs.Paths.{lookup}
use shadow_os.Vfs.Paths.Children.{Child, Chain, first_named, first_named-new, lookup-first_named}
use shadow_os.Ramfs.Create.{Allocated, put_node, new_node, create}
use shadow_os.Ramfs.Create.Append.{Chain-Keeps, put_node-Keeps}
use shadow_os.Ramfs.Create.Children.{Gives, create-Chain}

-- the node with the time of its making
abbrev pub stamped : ℕ → Vnode → Vnode
stamped now v = record v { creation_time = now; modify_time = now; access_time = now }

abbrev locked_at : ℕ → Vnode → Fs → Fs
locked_at n v s = put_node n (some (record v { locked = true })) s

abbrev finished : ℕ → ℕ → ℕ → Vnode → Vnode → Fs → Fs
finished now self a v w t =
    put_node a (some (stamped now w)) (put_node self (some (record v { locked = false })) t)

run_create-finished :
    (ops_at : ℕ → Ops) (now self a : ℕ) (f : Fs → Outcome (Fs × Option ℕ)) (s t : Fs) (v w : Vnode)
    → f s ≡ ok (t, some a)
    → t.nodes self ≡ some v
    → t.nodes a ≡ some w
    → a ≢ self
    → run_create ops_at now self (some f) s ≡ ok (finished now self a v w t, some a)
unfolding run_create unlock_with unlock modify stamp
run_create-finished ops_at now self a f s t v w made there new apart =
    rw (made, there) (ground (arith, new, apart))

create_vnode-run :
    (ops_at : ℕ → Ops) (now self : ℕ) (f : ℕ → Chars → NodeType → Fs → Outcome (Fs × Option ℕ))
    (name : Chars) (kind : NodeType) (s : Fs) (v : Vnode)
    → s.nodes self ≡ some v
    → v.locked ≡ false
    → is_dir v.kind ≡ true
    → v.ops ≢ 0
    → (ops_at v.ops).create ≡ some f
    → create_vnode ops_at now self name kind s
      ≡ run_create ops_at now self (some (f self name kind)) (locked_at self v s)
unfolding create_vnode lock modify entry_of
create_vnode-run ops_at now self f name kind s v there free dir nonzero entry =
    let set : (v.ops == 0) ≡ false = ground (arith, nonzero) in
    rw (there, free) (rw (dir, set, entry) refl)

-- vfs_create_vnode with the entry of ramfs, where the directory is not locked and does not have the
-- name, and `a` and `d` are what is allocated: the new node is there, and is the last child.
pub create_vnode-Chain :
    (ops_at : ℕ → Ops) (now fuel ops self a d : ℕ) (copy : ℕ → Option Chars) (kind : NodeType)
    (s : Fs) (v : Vnode) (xs : List Child) (t q r : Chars)
    → s.nodes self ≡ some v
    → v.locked ≡ false
    → is_dir v.kind ≡ true
    → v.ops ≢ 0
    → (ops_at v.ops).create
      ≡ some (create fuel ops (record { node = some a; data_at = some d; copy = copy }))
    → Chain s v.child xs
    → IsText t
    → Gives copy t r
    → first_named t xs ≡ none
    → s.nodes a ≡ none
    → a ≢ 0
    → 1 + length xs < fuel
    → (u : Fs) × (v' : Vnode) × (create_vnode ops_at now self (cstr t q) kind s ≡ ok (u, some a))
      × (u.nodes self ≡ some v')
      × (u.nodes a ≡ some (stamped now (new_node self v.mount ops (cstr t r) kind d)))
      × Chain u v'.child (xs ++ record { at = a; text = t; behind = r } ∷ [])
unfolding new_node
create_vnode-Chain ops_at now fuel ops self a d copy kind s v xs t q r there free dir nonzero entry
      h ht gives new fresh a_nz lt =
    let memory : Allocated = record { node = some a; data_at = some d; copy = copy } in
    let apart : a ≢ self = ground (arith, there, fresh) in
    let s' = locked_at self v s in
    let chain' =
      Chain-Keeps s s' v.child xs
        (put_node-Keeps s self v (record v { locked = true }) there refl refl) h in
    let (u, v', made, there', node, longer) =
      create-Chain fuel ops self a d copy kind s' (record v { locked = true }) xs t q r
        (ground arith) chain' ht gives new (ground (arith, fresh, apart)) a_nz lt in
    let w = new_node self v.mount ops (cstr t r) kind d in
    let u' = put_node self (some (record v' { locked = false })) u in
    (
      finished now self a v' w u,
      record v' { locked = false },
      create_vnode-run ops_at now self (create fuel ops memory) (cstr t q) kind s v there free dir
            nonzero entry
          ∙ run_create-finished ops_at now self a (create fuel ops memory self (cstr t q) kind) s' u
              v' w made there' node apart,
      ground (arith, apart),
      ground arith,
      Chain-Keeps u' (finished now self a v' w u) v'.child _
          (put_node-Keeps u' a w (stamped now w) (ground (arith, node, apart)) refl refl)
          (Chain-Keeps u u' v'.child _
            (put_node-Keeps u self v' (record v' { locked = false }) there' refl refl) longer),
    )

-- The last child is found by its name after its node has been changed twice.
pub lookup-changed_last :
    (fuel self : ℕ) (s : Fs) (v w w1 w2 : Vnode) (xs : List Child) (x : Child) (q : Chars)
    → s.nodes self ≡ some v
    → s.nodes x.at ≡ some w
    → x.at ≢ self
    → Chain s v.child (xs ++ x ∷ [])
    → IsText x.text
    → first_named x.text xs ≡ none
    → 1 + length xs < fuel
    → w1.name ≡ w.name
    → w1.next ≡ w.next
    → w2.name ≡ w1.name
    → w2.next ≡ w1.next
    → lookup fuel self (cstr x.text q) (put_node x.at (some w2) (put_node x.at (some w1) s))
      ≡ ok (some x.at)
lookup-changed_last fuel self s v w w1 w2 xs x q there node apart h ht new lt name1 next1 name2
      next2 =
    let s1 = put_node x.at (some w1) s in
    let s2 = put_node x.at (some w2) s1 in
    let chain =
      Chain-Keeps s1 s2 v.child _ (put_node-Keeps s1 x.at w1 w2 (ground arith) name2 next2)
        (Chain-Keeps s s1 v.child _ (put_node-Keeps s x.at w w1 node name1 next1) h) in
    lookup-first_named fuel self s2 v (xs ++ x ∷ []) x.text q (ground (arith, there, apart)) chain
      ht (omega (arith, length-append xs (x ∷ [])))
    ∙ ap ok (first_named-new x.text xs x new refl)
