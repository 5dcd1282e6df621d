-- ===== src/Vma/Regions.antt =====
-- What vma_alloc does to the list of regions of a context.
use shadow_os.Base.{
  ℕ, zero, suc, ◌+◌, ◌%◌, ◌^◌, ◌<◌, ◌≡◌, ◌≢◌, refl, sym, Option, none, some, List, [], ◌∷◌, ◌==◌,
  ltb, if◌then◌else◌, length, arith, Bool-cases, inl, inr,
}
use shadow_os.Base.Outcome.{ok}
use shadow_os.Vma.{Region, Vma, find_gap}

-- a region: its address, where it starts, and its number of pages
pub record Item : Type 0 where
  pub at : ℕ
  pub start : ℕ
  pub size : ℕ

abbrev pub Away : ℕ → List Item → Type 0
Away a [] = Unit
Away a (x ∷ xs) = (a ≢ x.at) × Away a xs

-- The list of regions that starts at `c` is that of the items, which stand at different addresses.
unfoldable pub Regions : (ℕ → Option Region) → ℕ → List Item → Type 0
Regions h c [] = c ≡ 0
Regions h c (x ∷ xs) =
    (c ≡ x.at)
    × (x.at ≢ 0)
    × Away x.at xs
    × ((r : Region) × (h x.at ≡ some r)
        × (r.start ≡ x.start)
        × (r.size ≡ x.size)
        × Regions h r.next xs)

-- the end of a region, as vma_alloc computes it
abbrev pub end_of : Item → ℕ
end_of x = (x.start + x.size) % 2 ^ 64

-- the first of the regions in front of a gap, or the last of them
abbrev pub room : Item → List Item → Item
room x [] = x
room x (y ∷ ys) = if ltb (end_of x) y.start then x else room y ys

-- the regions with a new one behind that
abbrev pub with_new : Item → List Item → ℕ → ℕ → List Item
with_new x [] a n = x ∷ record { at = a; start = end_of x; size = n } ∷ []
with_new x (y ∷ ys) a n =
    if ltb (end_of x) y.start
    then x ∷ record { at = a; start = end_of x; size = n } ∷ y ∷ ys
    else x ∷ with_new y ys a n

-- a write of the memory of a region
abbrev pub write : ℕ → Region → (ℕ → Option Region) → ℕ → Option Region
write a r h i = if i == a then some r else h i

Regions-write :
    (h : ℕ → Option Region) (c a : ℕ) (r : Region) (xs : List Item)
    → Away a xs
    → Regions h c xs
    → Regions (write a r h) c xs
unfolding Regions
Regions-write h c a r [] away l = l
Regions-write h c a r (x ∷ xs) (ne, away) (e, nonzero, apart, (q, found, start, size, rest)) = (
  e,
  nonzero,
  apart,
  (q, ground (arith, ne, found), start, size, Regions-write h q.next a r xs away rest),
)

Away-fresh :
    (h : ℕ → Option Region) (c a : ℕ) (xs : List Item) → h a ≡ none → Regions h c xs → Away a xs
unfolding Regions
Away-fresh h c a [] fresh l = tt
Away-fresh h c a (x ∷ xs) fresh (e, nonzero, apart, (q, found, start, size, rest)) =
    (ground (arith, fresh, found), Away-fresh h q.next a xs fresh rest)

Away-room : (a : ℕ) (x : Item) (xs : List Item) → Away a (x ∷ xs) → a ≢ (room x xs).at
Away-room a x [] (ne, away) = ne
Away-room a x (y ∷ ys) (ne, away) = elim (Bool-cases (ltb (end_of x) y.start)) [
  | inl gap ↦ rw gap ne
  | inr none_ ↦ rw none_ (Away-room a y ys away)
]

Away-with_new :
    (b a n : ℕ) (x : Item) (xs : List Item) → b ≢ a → Away b (x ∷ xs) → Away b (with_new x xs a n)
Away-with_new b a n x [] ne (other, away) = (other, (ne, tt))
Away-with_new b a n x (y ∷ ys) ne (other, away) = elim (Bool-cases (ltb (end_of x) y.start)) [
  | inl gap ↦ rw gap (other, (ne, away))
  | inr none_ ↦ rw none_ (other, Away-with_new b a n y ys ne away)
]

-- The loop of vma_alloc ends at the region in front of the first gap.
pub find_gap-room :
    (fuel : ℕ) (s : Vma) (c : ℕ) (x : Item) (xs : List Item)
    → Regions s.regions c (x ∷ xs)
    → length xs < fuel
    → find_gap fuel s c ≡ ok (some ((room x xs).at))
unfolding find_gap Regions
find_gap-room zero s c x xs l lt = absurd (omega arith)
find_gap-room (suc k) s c x [] (e, nonzero, apart, (q, found, start, size, rest)) lt =
    ground (arith, e, nonzero, found, rest)
find_gap-room (suc k) s c x (y ∷ ys) (e, nonzero, apart, (q, found, start, size, rest)) lt =
    let (e', nonzero', apart', (q', found', start', size', rest')) = rest in
    let later = find_gap-room k s q.next y ys rest (omega arith) in
    elim (Bool-cases (ltb (end_of x) y.start)) [
      | inl gap ↦
          rw gap (ground (arith, e, e', nonzero, nonzero', found, found', start, start', size, gap))
      | inr none_ ↦ rw none_ (
          ground
            (arith, e, e', nonzero, nonzero', found, found', start, start', size, none_, later))
    ]

pub at_room :
    (h : ℕ → Option Region) (c : ℕ) (x : Item) (xs : List Item)
    → Regions h c (x ∷ xs)
    → (r : Region) × (h (room x xs).at ≡ some r)
      × (r.start ≡ (room x xs).start)
      × (r.size ≡ (room x xs).size)
unfolding Regions
at_room h c x [] (e, nonzero, apart, (q, found, start, size, rest)) = (q, found, start, size)
at_room h c x (y ∷ ys) (e, nonzero, apart, (q, found, start, size, rest)) =
    elim (Bool-cases (ltb (end_of x) y.start)) [
      | inl gap ↦ rw gap (q, found, start, size)
      | inr none_ ↦ rw none_ (at_room h q.next y ys rest)
    ]

-- A new region `a` behind the one at `l`.
module _ (h : ℕ → Option Region) (a l n : ℕ) (r new : Region) (fresh : h a ≡ none) (nonzero : a ≢ 0)
    (at_l : h l ≡ some r) (next : new.next ≡ r.next) (pages : new.size ≡ n) where
  abbrev pub linked : ℕ → Option Region
  linked = write l (record r { next = a }) (write a new h)

  -- the last two of the list, or the two on the sides of the new one
  linked_here :
      (c : ℕ) (x : Item) (xs : List Item)
      → x.at ≡ l
      → new.start ≡ end_of x
      → Regions h c (x ∷ xs)
      → Regions linked c (x ∷ record { at = a; start = end_of x; size = n } ∷ xs)
  unfolding Regions
  linked_here c x xs same start (e, ne, apart, (q, found, first, size, rest)) =
      let clear = Away-fresh h q.next a xs fresh rest in
      let q_r : q.next ≡ r.next = ground (arith, found, at_l, same) in
      let x_a : x.at ≢ a = ground (arith, fresh, found) in
      (
        e,
        ne,
        (x_a, apart),
        (
          record r { next = a },
          ground (arith, same),
          ground (arith, found, at_l, same, first),
          ground (arith, found, at_l, same, size),
          (
            refl,
            nonzero,
            clear,
            (
              new,
              ground (arith, x_a, same),
              start,
              pages,
              rw (next, sym q_r)
                  (Regions-write (write a new h) q.next l (record r { next = a }) xs
                    (rw (sym same) apart) (Regions-write h q.next a new xs clear rest)),
            ),
          ),
        ),
      )

  pub linked-Regions :
      (c : ℕ) (x : Item) (xs : List Item)
      → (room x xs).at ≡ l
      → new.start ≡ end_of (room x xs)
      → Regions h c (x ∷ xs)
      → Regions linked c (with_new x xs a n)
  unfolding Regions
  linked-Regions c x [] same start m = linked_here c x [] same start m
  linked-Regions c x (y ∷ ys) same start m = elim (Bool-cases (ltb (end_of x) y.start)) [
    | inl gap ↦ rw gap (linked_here c x (y ∷ ys) (rw gap at same) (rw gap at start) m)
    | inr none_ ↦
        let (e, ne, apart, (q, found, first, size, rest)) = m in
        let same' = rw none_ at same in
        let x_a : x.at ≢ a = ground (arith, fresh, found) in
        let x_l : x.at ≢ l = rw (sym same') (Away-room x.at y ys apart) in
        rw none_ (
          e,
          ne,
          Away-with_new x.at a n y ys x_a apart,
          (
            q,
            ground (arith, x_a, x_l, found),
            first,
            size,
            linked-Regions q.next y ys same' (rw none_ at start) rest,
          ),
        )
  ]
