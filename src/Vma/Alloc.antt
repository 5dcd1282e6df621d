-- ===== src/Vma/Alloc.antt =====
-- What vma_alloc returns, and where its region stands.
use shadow_os.Base.{
  ℕ, ◌+◌, ◌*◌, ◌%◌, ◌^◌, ◌<◌, ◌≤◌, ◌≡◌, ◌≢◌, refl, sym, ◌⊎◌, false, ◌||◌, none, some, List, ◌∷◌,
  ◌==◌, if◌then◌else◌, length, arith, inl, inr,
}
use shadow_os.Base.Outcome.{ok}
use shadow_os.Pmm.{page_size, Pmm, request_page}
use shadow_os.Vma.{
  Region, Context, Vma, modify_region, higher_half, map_new, insert_after, insert, alloc,
}
use shadow_os.Vma.Regions.{
  Item, Regions, end_of, room, with_new, at_room, find_gap-room, linked-Regions, write,
}

module _ (hhdm pagemap l size flags : ℕ) (s : Vma) (r : Region) (at_l : s.regions l ≡ some r) where
  -- the page for the new region, and its address
  abbrev after : Pmm
  after = (request_page hhdm s.pmm).0

  abbrev place : ℕ
  place = higher_half hhdm (request_page hhdm s.pmm).1

  abbrev added : ℕ → Region
  added next = record {
    start = (r.start + r.size) % 2 ^ 64;
    size = size;
    flags = flags;
    next = next;
    prev = l;
  }

  insert_after_lem :
      (next : ℕ)
      → place ≢ 0
      → s.regions place ≡ none
      → (t : Vma) × (ptr : ℕ) × (insert_after hhdm pagemap l next size flags s ≡ ok (t, ptr))
        × (t.regions ≡ write l (record r { next = place }) (write place (added next) s.regions))
        × ((ptr ≡ 0) ⊎ (ptr ≡ (added next).start))
  unfolding insert_after modify_region
  insert_after_lem next nonzero fresh =
      let made = map_new hhdm pagemap ((r.start + r.size) % 2 ^ 64) flags size 0 after in
      let taken : (place == 0) ≡ false = ground arith in
      let other : (l == place) ≡ false = ground (arith, fresh, at_l) in
      (
        record s {
          pmm = made.0;
          regions = write l (record r { next = place }) (write place (added next) s.regions);
        },
        (if made.1 then (r.start + r.size) % 2 ^ 64 else 0),
        rw (at_l, taken, other) refl,
        refl,
        ground arith,
      )

-- a context with regions, the first of which is its root, and a page for one more
pub record HasRegions (hhdm fuel ctx : ℕ) (s : Vma) (x : Item) (xs : List Item) : Type 0 where
  pub context : Context
  pub there : s.contexts ctx ≡ some context
  pub not_null : ctx ≢ 0
  pub has_table : context.pagemap ≢ 0
  pub listed : Regions s.regions context.root (x ∷ xs)
  pub enough : length xs < fuel
  pub page : higher_half hhdm (request_page hhdm s.pmm).1 ≢ 0
  pub fresh : s.regions (higher_half hhdm (request_page hhdm s.pmm).1) ≡ none

module _ (hhdm fuel ctx size flags : ℕ) (s : Vma) (x : Item) (xs : List Item)
    (m : HasRegions hhdm fuel ctx s x xs) where
  -- Where a context has regions, and there is a page for one more that no region uses, vma_alloc
  -- returns, and the list of regions has a new one behind the first region in front of a gap, or
  -- behind the last. The result is the end of that region, as it is computed, or NULL.
  pub alloc-Regions :
      (t : Vma) × (ptr : ℕ) × (alloc hhdm fuel ctx size flags s ≡ ok (t, ptr))
      × Regions t.regions m.context.root
          (with_new x xs (higher_half hhdm (request_page hhdm s.pmm).1) size)
      × ((ptr ≡ 0) ⊎ (ptr ≡ end_of (room x xs)))
  unfolding alloc insert Regions
  alloc-Regions =
      let (r, found, start, pages) = at_room s.regions m.context.root x xs m.listed in
      let l = (room x xs).at in
      let (t, ptr, done, same, result) =
        insert_after_lem hhdm m.context.pagemap l size flags s r found r.next m.page m.fresh in
      let e1 : (ctx == 0) ≡ false = ground (arith, m.not_null) in
      let e2 : ((m.context.root == 0) || (m.context.pagemap == 0)) ≡ false =
        ground (arith, m.listed.0, m.listed.1, m.has_table) in
      (
        t,
        ptr,
        rw (e1, m.there, e2, find_gap-room fuel s m.context.root x xs m.listed m.enough, found)
            done,
        rw same (
            linked-Regions s.regions (place hhdm m.context.pagemap l size flags s r found) l size r
              (added hhdm m.context.pagemap l size flags s r found r.next) m.fresh m.page found refl
              refl m.context.root x xs refl (rw (start, pages) refl) m.listed),
        rw (sym start, sym pages) result,
      )

  -- Where a context has regions, there is a page for one more that no region uses, and the one that
  -- vma_alloc places it behind has pages and ends below 2^64, the result is NULL or an address inside
  -- of the pages of that one, since its end is computed as if its number of pages were one of bytes.
  pub alloc_overlaps :
      0 < (room x xs).size
      → (room x xs).start + (room x xs).size < 2 ^ 64
      → (t : Vma) × (ptr : ℕ) × (alloc hhdm fuel ctx size flags s ≡ ok (t, ptr))
        × ((ptr ≡ 0)
            ⊎ (((room x xs).start ≤ ptr)
                × (ptr < (room x xs).start + (room x xs).size * page_size)))
  alloc_overlaps some_pages small =
      let (t, ptr, done, listed, result) = alloc-Regions in
      (
        t,
        ptr,
        done,
        elim result [
          | inl null ↦ inl null
          | inr last ↦ inr (omega (arith, last), omega (arith, last))
        ],
      )
