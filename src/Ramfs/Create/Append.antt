-- ===== src/Ramfs/Create/Append.antt =====
-- The list of children where a node is appended to it.
use shadow_os.Base.{
  ℕ, zero, suc, ◌<◌, ◌≡◌, ◌≢◌, refl, sym, ◌∙◌, none, some, List, [], ◌∷◌, ◌++◌, ◌==◌, length, arith,
  Bool-cases, inl, inr,
}
use shadow_os.Base.Outcome.{ok}
use shadow_os.Memory.Chars.Length.{IsText, cstr}
use shadow_os.Vfs.{Vnode, Fs, modify}
use shadow_os.Vfs.Paths.Children.{Child, Chain}
use shadow_os.Ramfs.Create.{put_node, last_child, append_child}

-- Every node is still there, with its name and its successor.
pub Keeps : Fs → Fs → Type 0
Keeps s s' =
    (i : ℕ) (v : Vnode)
    → s.nodes i ≡ some v
    → (w : Vnode) × (s'.nodes i ≡ some w) × (w.name ≡ v.name) × (w.next ≡ v.next)

pub Chain-Keeps : (s s' : Fs) (c : ℕ) (xs : List Child) → Keeps s s' → Chain s c xs → Chain s' c xs
unfolding Chain Keeps
Chain-Keeps s s' c [] keeps h = h
Chain-Keeps s s' c (x ∷ xs) keeps (e, ne, text, (v, found, named, rest)) =
    let (w, found', named', next') = keeps x.at v found in
    (e, ne, text, (w, found', named' ∙ named, rw next' (Chain-Keeps s s' v.next xs keeps rest)))

pub put_node-Keeps :
    (s : Fs) (n : ℕ) (v w : Vnode)
    → s.nodes n ≡ some v
    → w.name ≡ v.name
    → w.next ≡ v.next
    → Keeps s (put_node n (some w) s)
unfolding Keeps
put_node-Keeps s n v w there named next i u found = elim (Bool-cases (i == n)) [
  | inl eq ↦
      (w, ground arith, ground (arith, there, found, named), ground (arith, there, found, next))
  | inr ne ↦ (u, ground (arith, ne, found), refl, refl)
]

-- Every node is still there, as it was.
pub Holds : Fs → Fs → Type 0
Holds s s' = (i : ℕ) (v : Vnode) → s.nodes i ≡ some v → s'.nodes i ≡ some v

pub put_new-Holds :
    (s : Fs) (n : ℕ) (w : Vnode) → s.nodes n ≡ none → Holds s (put_node n (some w) s)
unfolding Holds
put_new-Holds s n w fresh i u found = ground (arith, fresh, found)

Holds-Keeps : (s s' : Fs) → Holds s s' → Keeps s s'
unfolding Holds Keeps
Holds-Keeps s s' holds i v found = (v, holds i v found, refl, refl)

-- The last node of a list of children, which has no successor, in a state that holds all nodes of
-- the one that the list is of.
record Last (fuel : ℕ) (s s' : Fs) (c : ℕ) : Type 0 where
  at : ℕ
  node : Vnode
  reached : last_child fuel s' c ≡ ok at
  there : s.nodes at ≡ some node
  ends : node.next ≡ 0

Chain-Last :
    (fuel : ℕ) (s s' : Fs) (c : ℕ) (x : Child) (xs : List Child)
    → Holds s s'
    → Chain s c (x ∷ xs)
    → length xs < fuel
    → Last fuel s s' c
unfolding Chain last_child Holds
Chain-Last zero s s' c x xs holds h lt = absurd (omega arith)
Chain-Last (suc k) s s' c x [] holds (e, ne, text, (v, found, named, rest)) lt = record {
  at = c;
  node = v;
  reached = ground (arith, e, holds x.at v found, rest);
  there = rw e found;
  ends = rest;
}
Chain-Last (suc k) s s' c x (y ∷ ys) holds (e, ne, text, (v, found, named, rest)) lt =
    let later = Chain-Last k s s' v.next y ys holds rest (omega arith) in
    record {
      at = later.at;
      node = later.node;
      reached = ground (arith, e, holds x.at v found, rest.0, rest.1, later.reached);
      there = later.there;
      ends = later.ends;
    }

abbrev put_last : ℕ → Vnode → ℕ → Fs → Fs
put_last l lv a s = put_node l (some (record lv { next = a })) s

-- A new last child: a node `a` without a successor behind the last one.
module _ (s : Fs) (a : ℕ) (w : Vnode) (x : Child) (at_a : x.at ≡ a) (nonzero : a ≢ 0)
    (text : IsText x.text) (named : w.name ≡ cstr x.text x.behind) (last : w.next ≡ 0) where
  put_last-Chain :
      (fuel : ℕ) (c l : ℕ) (lv : Vnode) (y : Child) (ys : List Child)
      → s.nodes a ≡ some w
      → a ≢ l
      → s.nodes l ≡ some lv
      → lv.next ≡ 0
      → last_child fuel s c ≡ ok l
      → Chain s c (y ∷ ys)
      → Chain (put_last l lv a s) c (y ∷ ys ++ x ∷ [])
  unfolding Chain last_child
  put_last-Chain zero c l lv y ys new other there ends reached h = absurd (cc)
  put_last-Chain (suc k) c l lv y [] new other there ends reached
        (e, ne, ty, (v, found, ny, rest)) =
      let same : c ≡ l = ground (arith, e, found, rest, reached) in
      (
        e,
        ne,
        ty,
        (
          record lv { next = a },
          ground (arith, e, same),
          ground (arith, e, same, found, there, ny),
          (
            sym at_a,
            ground (arith, at_a, nonzero),
            text,
            (w, ground (arith, at_a, new, other), named, last),
          ),
        ),
      )
  put_last-Chain (suc k) c l lv y (z ∷ zs) new other there ends reached
        (e, ne, ty, (v, found, ny, rest)) =
      (
        e,
        ne,
        ty,
        (
          v,
          ground (arith, found, there, ends, rest.0, rest.1),
          ny,
          put_last-Chain k v.next l lv z zs new other there ends
              (ground (arith, e, found, rest.0, rest.1, reached)) rest,
        ),
      )

-- A directory has the same first child, should it be the one that gets a successor.
put_last_parent :
    (s : Fs) (self a l : ℕ) (v lv : Vnode)
    → s.nodes self ≡ some v
    → s.nodes l ≡ some lv
    → (v' : Vnode) × ((put_last l lv a s).nodes self ≡ some v') × (v'.child ≡ v.child)
put_last_parent s self a l v lv there at_l = elim (Bool-cases (self == l)) [
  | inl eq ↦ (record lv { next = a }, ground arith, ground (arith, there, at_l))
  | inr ne ↦ (v, ground (arith, ne, there), refl)
]

append_child_rest :
    (fuel self a l : ℕ) (s : Fs) (v lv : Vnode)
    → s.nodes self ≡ some v
    → v.child ≢ 0
    → last_child fuel s v.child ≡ ok l
    → s.nodes l ≡ some lv
    → append_child fuel self a s ≡ ok (put_last l lv a s)
unfolding append_child modify
append_child_rest fuel self a l s v lv there more reached at_l =
    ground (arith, there, more, reached, at_l)

-- What is appended to a directory is the last of its children. The node `a` is new in `s'`.
pub append_child-Chain :
    (fuel self a : ℕ) (s s' : Fs) (v w : Vnode) (x : Child) (xs : List Child)
    → x.at ≡ a
    → a ≢ 0
    → IsText x.text
    → w.name ≡ cstr x.text x.behind
    → w.next ≡ 0
    → s.nodes self ≡ some v
    → s.nodes a ≡ none
    → s'.nodes a ≡ some w
    → Holds s s'
    → Chain s v.child xs
    → length xs < fuel
    → (u : Fs) × (v' : Vnode) × (append_child fuel self a s' ≡ ok u)
      × (u.nodes self ≡ some v')
      × (u.nodes a ≡ some w)
      × Chain u v'.child (xs ++ x ∷ [])
unfolding append_child modify Chain Holds
append_child-Chain fuel self a s s' v w x [] at_a nonzero text named last there fresh new holds h
      lt =
    let there' = holds self v there in
    (
      put_node self (some (record v { child = a })) s',
      record v { child = a },
      ground (arith, there', h),
      ground (arith),
      ground (arith, new, fresh, there),
      (
        sym at_a,
        ground (arith, at_a, nonzero),
        text,
        (w, ground (arith, at_a, new, fresh, there), named, last),
      ),
    )
append_child-Chain fuel self a s s' v w x (y ∷ ys) at_a nonzero text named last there fresh new
      holds h lt =
    let l = Chain-Last fuel s s' v.child y ys holds h (omega arith) in
    let apart : a ≢ l.at = ground (arith, fresh, l.there) in
    let chain' = Chain-Keeps s s' v.child (y ∷ ys) (Holds-Keeps s s' holds) h in
    let longer =
      put_last-Chain s' a w x at_a nonzero text named last fuel v.child l.at l.node y ys new apart
        (holds l.at l.node l.there) l.ends l.reached chain' in
    let (v', there', same) =
      put_last_parent s' self a l.at v l.node (holds self v there) (holds l.at l.node l.there) in
    (
      put_last l.at l.node a s',
      v',
      append_child_rest fuel self a l.at s' v l.node (holds self v there) (rw h.0 h.1) l.reached
          (holds l.at l.node l.there),
      there',
      ground (arith, new, apart),
      rw same longer,
    )
