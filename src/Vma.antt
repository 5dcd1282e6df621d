-- ===== src/Vma.antt =====
-- kernel/src/mm/vma.c: the regions of virtual memory of a context, a doubly linked list of records
-- that stand each in a page of its own. A list is followed on fuel, `stuck` where that runs out.
pub mod Regions
pub mod Alloc
use shadow_os.Base.{
  ℕ, zero, suc, ◌+◌, ◌-◌, ◌*◌, ◌%◌, ◌^◌, Bool, true, false, ◌||◌, Option, none, some, ◌==◌, ltb,
  if◌then◌else◌,
}
use shadow_os.Base.Outcome.{Outcome, ok, stuck, ◌>>=◌, deref}
use shadow_os.Pmm.{page_size, Pmm, request_page, release_page}
use shadow_os.Vmm.{virt_to_phys, unmap, vmm_map}

-- `vma_region_t`, its pointers as numbers, 0 for NULL
pub record Region : Type 0 where
  pub start : ℕ
  pub size : ℕ
  pub flags : ℕ
  pub next : ℕ
  pub prev : ℕ

-- `vma_context_t`, with the table as its physical address
pub record Context : Type 0 where
  pub pagemap : ℕ
  pub root : ℕ

-- The page allocator, and what stands in the pages that it gave out. A page that is given back
-- holds none.
pub record Vma : Type 0 where
  pub pmm : Pmm
  pub regions : ℕ → Option Region
  pub contexts : ℕ → Option Context

abbrev pub put_region : ℕ → Option Region → Vma → Vma
put_region a r s = record s { regions = λ i. if i == a then r else s.regions i }

abbrev pub put_context : ℕ → Option Context → Vma → Vma
put_context a c s = record s { contexts = λ i. if i == a then c else s.contexts i }

-- a write through a pointer to a region
unfoldable pub modify_region : ℕ → (Region → Region) → Vma → Outcome Vma
modify_region a f s = do r ← deref (s.regions a); ok (put_region a (some (f r)) s)

-- the loop of vma_alloc: the region behind which there is room, none where the list has an end
-- without one
pub find_gap : ℕ → Vma → ℕ → Outcome (Option ℕ)
find_gap zero s current = stuck
find_gap (suc k) s current = if current == 0 then ok none else (do
  r ← deref (s.regions current)
  let rest = find_gap k s r.next
  (if r.next == 0 then ok (some current) else (do
    n ← deref (s.regions r.next)
    if ltb ((r.start + r.size) % 2 ^ 64) n.start then ok (some current) else rest)))

-- the loop of vma_free: the region that starts at an address, 0 for none
pub find_start : ℕ → Vma → ℕ → ℕ → Outcome ℕ
find_start zero s current start = stuck
find_start (suc k) s current start = if current == 0 then ok 0 else (do
  r ← deref (s.regions current)
  let rest = find_start k s r.next start
  (if r.start == start then ok current else rest))

-- `hhdm_offset`
module _ (hhdm : ℕ) where
  -- HIGHER_HALF and PHYSICAL
  abbrev pub higher_half : ℕ → ℕ
  higher_half a = (a + hhdm) % 2 ^ 64

  abbrev pub physical : ℕ → ℕ
  physical a = (a + (2 ^ 64 - hhdm)) % 2 ^ 64

  -- A page for a record, 0 for NULL. The page of the root is zero but for its start.
  pub create_context : ℕ → Vma → Vma × ℕ
  create_context pagemap s =
      let (p, page) = request_page hhdm s.pmm in
      let ctx = higher_half page in
      if ctx == 0
      then (record s { pmm = p }, 0)
      else let (q, second) = request_page hhdm p in
        let root = higher_half second in
        if root == 0 then (record s { pmm = release_page (physical ctx) q }, 0) else (
          put_region root
              (some (record { start = page_size; size = 0; flags = 0; next = 0; prev = 0 }))
              (put_context ctx (some (record { pagemap = pagemap; root = root }))
                (record s { pmm = q })),
          ctx,
        )

  -- The page of a region is given back.
  release_region : ℕ → Vma → Vma
  release_region a s = put_region a none (record s { pmm = release_page (physical a) s.pmm })

  pub destroy_regions : ℕ → ℕ → Vma → Outcome Vma
  unfolding release_region
  destroy_regions zero current s = stuck
  destroy_regions (suc k) current s =
      if current == 0
      then ok s
      else (do r ← deref (s.regions current); destroy_regions k r.next (release_region current s))

  pub destroy_context : ℕ → ℕ → Vma → Outcome Vma
  unfolding destroy_regions
  destroy_context fuel ctx s = do
    c ← deref (s.contexts ctx)
    (if (c.root == 0) || (c.pagemap == 0) then ok s else (do
      t ← destroy_regions fuel c.root s
      ok (put_context ctx none (record t { pmm = release_page (physical ctx) t.pmm }))))

  -- The pages of a new region, from the `i`th on, so many of them. The loop ends, false, where no
  -- page is left.
  pub map_new : ℕ → ℕ → ℕ → ℕ → ℕ → Pmm → Pmm × Bool
  map_new pagemap start flags zero i p = (p, true)
  map_new pagemap start flags (suc n) i p =
      let (q, page) = request_page hhdm p in
      let rest =
        map_new pagemap start flags n (i + 1)
          (vmm_map hhdm pagemap ((start + i * page_size) % 2 ^ 64) page flags q) in
      if page == 0 then (q, false) else rest

  -- A new region behind `current`, whose successor `next` keeps its `prev`. The result is its start,
  -- or 0.
  pub insert_after : ℕ → ℕ → ℕ → ℕ → ℕ → Vma → Outcome (Vma × ℕ)
  unfolding modify_region map_new
  insert_after pagemap current next size flags s = do
    r ← deref (s.regions current)
    let (p, page) = request_page hhdm s.pmm
    let a = higher_half page
    let start = (r.start + r.size) % 2 ^ 64
    (if a == 0 then ok (record s { pmm = p }, 0) else (do
      t ←
          modify_region current (λ r. record r { next = a })
            (put_region a
              (some
                (record { start = start; size = size; flags = flags; next = next; prev = current }))
              (record s { pmm = p }))
      let (q, all) = map_new pagemap start flags size 0 p
      ok (record t { pmm = q }, if all then start else 0)))

  -- What follows the loop inserts behind the root, and gives up what stood there.
  pub insert : Context → ℕ → ℕ → Vma → Option ℕ → Outcome (Vma × ℕ)
  insert c size flags s none = insert_after c.pagemap c.root 0 size flags s
  insert c size flags s (some current) = do
    r ← deref (s.regions current)
    insert_after c.pagemap current r.next size flags s

  pub alloc : ℕ → ℕ → ℕ → ℕ → Vma → Outcome (Vma × ℕ)
  alloc fuel ctx size flags s = if ctx == 0 then ok (s, 0) else (do
    c ← deref (s.contexts ctx)
    (if (c.root == 0) || (c.pagemap == 0)
        then ok (s, 0)
        else (do gap ← find_gap fuel s c.root; insert c size flags s gap)))

  -- The pages of a region, from the `i`th on, are those that the kernel's own table translates to.
  pub release_pages : ℕ → ℕ → ℕ → ℕ → ℕ → Pmm → Pmm
  release_pages kernel pagemap start zero i p = p
  release_pages kernel pagemap start (suc n) i p =
      let virt = (start + i * page_size) % 2 ^ 64 in
      let phys = virt_to_phys p kernel virt in
      release_pages kernel pagemap start n (i + 1)
        (if phys == 0 then p else unmap pagemap virt (release_page phys p))

  -- `if (a != NULL)`, and a write to that region
  modify_some : ℕ → (Region → Region) → Vma → Outcome Vma
  unfolding modify_region
  modify_some a f s = if a == 0 then ok s else modify_region a f s

  pub unlink : ℕ → ℕ → Vma → Outcome Vma
  unfolding modify_some release_region
  unlink ctx region s = do
    r ← deref (s.regions region)
    t ← modify_some r.prev (λ p. record p { next = r.next }) s
    u ← modify_some r.next (λ n. record n { prev = r.prev }) t
    c ← deref (u.contexts ctx)
    let v = if region == c.root then put_context ctx (some (record c { root = r.next })) u else u
    ok (release_region region v)

  pub free : ℕ → ℕ → ℕ → ℕ → Vma → Outcome Vma
  unfolding release_pages unlink
  free fuel kernel ctx ptr s = if ctx == 0 then ok s else (do
    c ← deref (s.contexts ctx)
    region ← find_start fuel s c.root ptr
    (if region == 0 then ok s else (do
      r ← deref (s.regions region)
      unlink ctx region
          (record s { pmm = release_pages kernel c.pagemap r.start r.size 0 s.pmm }))))
