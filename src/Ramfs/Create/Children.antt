-- ===== src/Ramfs/Create/Children.antt =====
-- The children of a directory after ramfs_create.
use shadow_os.Base.{
  suc, ◌∙◌, ap, Option, drop, ℕ, ◌+◌, ◌<◌, ◌≡◌, ◌≢◌, refl, true, false, none, some, List, [], ◌∷◌,
  ◌++◌, length, arith, length-append,
}
use shadow_os.Base.Outcome.{ok}
use shadow_os.Memory.Chars.{Chars}
use shadow_os.Memory.Chars.Length.{IsText, cstr}
use shadow_os.Memory.Dup.{IsRoomy, strdup, strdup-cstr}
use mathlib.Core.Option
use shadow_os.Vfs.{Vnode, NodeType, Fs, modify, lock, unlock}
use shadow_os.Vfs.Paths.{lookup}
use shadow_os.Vfs.Paths.Children.{Child, Chain, first_named, lookup-first_named}
use shadow_os.Ramfs.Create.{Allocated, put_node, new_node, append_child, create_new, create}
use shadow_os.Ramfs.Create.Append.{Chain-Keeps, put_node-Keeps, put_new-Holds, append_child-Chain}

-- the state in which the lock of a directory is given back, and that in which it is taken again
abbrev unlocked : ℕ → Vnode → Fs → Fs
unlocked n v s = put_node n (some (record v { locked = false })) s

abbrev relocked : ℕ → Vnode → Fs → Fs
relocked n v s = put_node n (some (record v { locked = true })) (unlocked n v s)

lookup-unlocked :
    (fuel self : ℕ) (s : Fs) (v : Vnode) (xs : List Child) (t q : Chars)
    → s.nodes self ≡ some v
    → Chain s v.child xs
    → IsText t
    → length xs < fuel
    → (unlock self s ≡ ok (unlocked self v s))
      × (lookup fuel self (cstr t q) (unlocked self v s) ≡ ok (first_named t xs))
unfolding unlock modify
lookup-unlocked fuel self s v xs t q there h ht lt = (
  ground (arith, there),
  lookup-first_named fuel self (unlocked self v s) (record v { locked = false }) xs t q
      (ground arith)
      (Chain-Keeps s (unlocked self v s) v.child xs
        (put_node-Keeps s self v (record v { locked = false }) there refl refl) h)
      ht lt,
)

relocked_lem :
    (self : ℕ) (s : Fs) (v : Vnode)
    → lock self (unlocked self v s) ≡ ok (relocked self v s, record v { locked = false })
unfolding lock modify
relocked_lem self s v = ground arith

relocked-Chain :
    (self : ℕ) (s : Fs) (v : Vnode) (xs : List Child)
    → s.nodes self ≡ some v
    → Chain s v.child xs
    → Chain (relocked self v s) v.child xs
relocked-Chain self s v xs there h =
    Chain-Keeps (unlocked self v s) (relocked self v s) v.child xs
      (put_node-Keeps (unlocked self v s) self (record v { locked = false })
        (record v { locked = true }) (ground arith) refl refl)
      (Chain-Keeps s (unlocked self v s) v.child xs
        (put_node-Keeps s self v (record v { locked = false }) there refl refl) h)

-- A name that the directory has gives NULL, and the lock of the directory is free.
create-taken :
    (fuel ops self : ℕ) (memory : Allocated) (kind : NodeType) (s : Fs) (v : Vnode)
    (xs : List Child) (t q : Chars) (n : ℕ)
    → s.nodes self ≡ some v
    → Chain s v.child xs
    → IsText t
    → length xs < fuel
    → first_named t xs ≡ some n
    → create fuel ops memory self (cstr t q) kind s ≡ ok (unlocked self v s, none)
unfolding create
create-taken fuel ops self memory kind s v xs t q n there h ht lt taken =
    let (first, found) = lookup-unlocked fuel self s v xs t q there h ht lt in
    rw (first, found, taken) refl

-- The allocator, which gives objects as large as it is asked for, has one for the copy of a text, and
-- `r` is what lies in it behind the terminator.
pub record Gives (copy : ℕ → Option Chars) (t r : Chars) : Type 0 where
  pub roomy : IsRoomy copy
  pub object : Chars
  pub given : copy (length t + 1) ≡ some object
  pub behind : drop (suc (length t)) object ≡ r

strdup-Gives :
    (copy : ℕ → Option Chars) (t q r : Chars)
    → IsText t
    → Gives copy t r
    → strdup copy (cstr t q) ≡ some (some (cstr t r))
strdup-Gives copy t q r h g =
    strdup-cstr copy t q h g.roomy
    ∙ ap (λ o. some (Option.map (λ b. cstr t (drop (suc (length t)) b)) o)) g.given
    ∙ ap (λ l. some (some (cstr t l))) g.behind

create_new_lem :
    (fuel ops self a d : ℕ) (copy : ℕ → Option Chars) (t q r : Chars) (kind : NodeType) (s u : Fs)
    (v : Vnode)
    → IsText t
    → Gives copy t r
    → s.nodes self ≡ some v
    → append_child fuel self a (put_node a (some (new_node self v.mount ops (cstr t r) kind d)) s)
      ≡ ok u
    → create_new fuel ops
        (record { node = some a; data_at = some d; copy = copy })
        self
        (cstr t q)
        kind
        s
      ≡ ok (u, some a)
unfolding create_new
create_new_lem fuel ops self a d copy t q r kind s u v h g there made =
    rw (strdup-Gives copy t q r h g, there, made) refl

-- Where the directory does not have the name, and `a` and `d` are what was allocated: the new node is
-- there, and is the last child of the directory.
pub create-Chain :
    (fuel ops self a d : ℕ) (copy : ℕ → Option Chars) (kind : NodeType) (s : Fs) (v : Vnode)
    (xs : List Child) (t q r : Chars)
    → s.nodes self ≡ some v
    → Chain s v.child xs
    → IsText t
    → Gives copy t r
    → first_named t xs ≡ none
    → s.nodes a ≡ none
    → a ≢ 0
    → 1 + length xs < fuel
    → (u : Fs) × (v' : Vnode) × (create fuel ops
          (record { node = some a; data_at = some d; copy = copy })
          self
          (cstr t q)
          kind
          s
        ≡ ok (u, some a))
      × (u.nodes self ≡ some v')
      × (u.nodes a ≡ some (new_node self v.mount ops (cstr t r) kind d))
      × Chain u v'.child (xs ++ record { at = a; text = t; behind = r } ∷ [])
unfolding create new_node
create-Chain fuel ops self a d copy kind s v xs t q r there h ht gives free fresh nonzero lt =
    let (first, found) = lookup-unlocked fuel self s v xs t q there h ht (omega arith) in
    let s' = relocked self v s in
    let w = new_node self v.mount ops (cstr t r) kind d in
    let x : Child = record { at = a; text = t; behind = r } in
    let gone : s'.nodes a ≡ none = ground (arith, fresh, there) in
    let here : s'.nodes self ≡ some (record v { locked = true }) = ground arith in
    let chain' = relocked-Chain self s v xs there h in
    let (u, v', made, there', new, longer) =
      append_child-Chain fuel self a s' (put_node a (some w) s') (record v { locked = true }) w x xs
        refl nonzero ht refl refl here gone (ground arith) (put_new-Holds s' a w gone) chain'
        (omega arith) in
    (
      u,
      v',
      rw (first, found, free, relocked_lem self s v)
          (create_new_lem fuel ops self a d copy t q r kind s' u (record v { locked = true }) ht
            gives here made),
      there',
      new,
      longer,
    )

-- Where the directory does not have the name, the node gets memory that no node uses, and the
-- allocator has an object for the copy of the name: ramfs_create gives the new node, and a lookup of any name finds then what it finds among the old
-- children followed by the new one.
pub lookup-create :
    (fuel ops self a d : ℕ) (copy : ℕ → Option Chars) (kind : NodeType) (s : Fs) (v : Vnode)
    (xs : List Child) (t q r : Chars) (name behind : Chars)
    → s.nodes self ≡ some v
    → Chain s v.child xs
    → IsText t
    → Gives copy t r
    → first_named t xs ≡ none
    → s.nodes a ≡ none
    → a ≢ 0
    → 1 + length xs < fuel
    → IsText name
    → (u : Fs) × (create fuel ops
          (record { node = some a; data_at = some d; copy = copy })
          self
          (cstr t q)
          kind
          s
        ≡ ok (u, some a))
      × (lookup fuel self (cstr name behind) u
          ≡ ok (first_named name (xs ++ record { at = a; text = t; behind = r } ∷ [])))
lookup-create fuel ops self a d copy kind s v xs t q r name behind there h ht gives free fresh
      nonzero lt hn =
    let x : Child = record { at = a; text = t; behind = r } in
    let (u, v', made, there', new, longer) =
      create-Chain fuel ops self a d copy kind s v xs t q r there h ht gives free fresh nonzero
        lt in
    (
      u,
      made,
      lookup-first_named fuel self u v' (xs ++ x ∷ []) name behind there' longer hn
          (omega (arith, length-append xs (x ∷ []))),
    )
