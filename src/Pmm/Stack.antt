-- ===== src/Pmm/Stack.antt =====
-- The stack of free pages: what goes in comes out, once for each time that it went in.
use shadow_os.Base.{
  ℕ, ◌+◌, ◌-◌, ◌%◌, ◌^◌, ◌≤◌, ◌<◌, ◌≡◌, ◌≢◌, true, ◌||◌, arith, Bool-cases, inl, inr, ap, sym, ◌∙◌,
}
use mathlib.Core.Path.{subst}
use shadow_os.Memory.Block.Laws.{memset_lem}
use shadow_os.Pmm.Caches.{Cache, update_cache_access, remember, read_primary}
use shadow_os.Pmm.{
  page_size, align_up, Pmm, push, is_page_valid, cached, in_memmap, request_page, release_page,
}

-- The allocator takes the address for a page of memory.
abbrev pub Accepts : Pmm → ℕ → Type 0
Accepts s addr = (cached s.cache addr || in_memmap s.reclaimed addr s.memmap) ≡ true

-- an address that stands for a page: aligned, not NULL here nor in the higher half
pub record IsPage (hhdm addr : ℕ) : Type 0 where
  pub aligned : addr % page_size ≡ 0
  pub not_null : addr ≢ 0
  pub mapped : (addr + hhdm) % 2 ^ 64 ≢ 0
  pub in_range : addr < 2 ^ 64

-- no page is on the stack twice
pub record IsDistinct (s : Pmm) : Type 0 where
  pub once : (i j : ℕ) → i < s.idx → j < s.idx → s.pages i ≡ s.pages j → i ≡ j

-- what the release of a page leaves where it is taken
pub record Released (s : Pmm) (page : ℕ) (t : Pmm) : Type 0 where
  pub pushed : t.idx ≡ s.idx + 1
  pub top : t.pages s.idx ≡ page
  pub below : (i : ℕ) → i < s.idx → t.pages i ≡ s.pages i
  pub same_max : t.max ≡ s.max
  pub accepts : Accepts t page

-- A valid page is pushed where the stack is not full.
pub release_page-Released :
    (s : Pmm) (page : ℕ)
    → page ≢ 0
    → Accepts s page
    → s.idx < s.max
    → Released s page (release_page page s)
unfolding release_page is_page_valid push cached remember read_primary
release_page-Released s page ne acc room = record {
  pushed = ground arith;
  top = ground arith;
  below = λ i h. ground arith;
  same_max = ground arith;
  accepts = ground arith;
}

align_up-page : (hhdm addr : ℕ) → IsPage hhdm addr → align_up addr page_size ≡ addr
align_up-page hhdm addr p = omega (arith, p.aligned, p.in_range)

-- An address that is taken for a page stays so when the caches count the access.
cached-update :
    (c : Cache) (addr : ℕ) → cached c addr ≡ true → cached (update_cache_access c addr) addr ≡ true
unfolding cached update_cache_access read_primary
cached-update c addr h = ground arith

Accepts-update :
    (s : Pmm) (addr : ℕ)
    → Accepts s addr
    → (cached (update_cache_access s.cache addr) addr || in_memmap s.reclaimed addr s.memmap) ≡ true
Accepts-update s addr acc = elim (Bool-cases (cached s.cache addr)) [
  | inl hit ↦ rw (cached-update s.cache addr hit)
  | inr miss ↦ ground arith
]

-- what a request gives when the top of the stack is a page that the allocator takes for one
pub record Gives (hhdm addr : ℕ) (s : Pmm) (out : Pmm × ℕ) : Type 0 where
  pub result : out.1 ≡ addr
  pub popped : out.0.idx ≡ s.idx - 1
  pub kept : (i : ℕ) → out.0.pages i ≡ s.pages i
  pub same_max : out.0.max ≡ s.max
  pub still : Accepts out.0 addr
  pub zeroed : (j : ℕ) → j < page_size → out.0.mem (addr + j) ≡ 0
  pub elsewhere : (a : ℕ) → a < addr → out.0.mem a ≡ s.mem a
  pub beyond : (a : ℕ) → addr + page_size ≤ a → out.0.mem a ≡ s.mem a

-- A request pops the page on top of the stack and clears it, and touches no other memory.
pub request_page-Gives :
    (hhdm : ℕ) (s : Pmm)
    → 0 < s.idx
    → IsPage hhdm (s.pages (s.idx - 1))
    → Accepts s (s.pages (s.idx - 1))
    → Gives hhdm (s.pages (s.idx - 1)) s (request_page hhdm s)
unfolding request_page is_page_valid
request_page-Gives hhdm s some_page p acc = record {
  result = ground (arith, align_up-page hhdm addr p, p.mapped);
  popped = ground (arith, p.mapped);
  kept = λ i. ground (arith, p.mapped);
  same_max = ground (arith, p.mapped);
  still = ground (arith, p.mapped, Accepts-update s addr acc);
  zeroed = λ j h. ground (arith, p.mapped, memset_lem addr 0 page_size s.mem (addr + j));
  elsewhere = λ a h. ground (arith, p.mapped, memset_lem addr 0 page_size s.mem a);
  beyond = λ a h. ground (arith, p.mapped, memset_lem addr 0 page_size s.mem a);
}
  where
    addr : ℕ
    addr = s.pages (s.idx - 1)

-- Where the stack is not full, a page that is released, being aligned and taken for valid, is the
-- next one that is handed out, cleared, and the stack below it is as before.
pub request-release :
    (hhdm page : ℕ) (s : Pmm)
    → IsPage hhdm page
    → Accepts s page
    → s.idx < s.max
    → let out = request_page hhdm (release_page page s) in
      (out.1 ≡ page)
      × (out.0.idx ≡ s.idx)
      × ((i : ℕ) → i < s.idx → out.0.pages i ≡ s.pages i)
      × ((j : ℕ) → j < page_size → out.0.mem (page + j) ≡ 0)
request-release hhdm page s p acc room =
    let r = release_page-Released s page p.not_null acc room in
    let t = release_page page s in
    let here : t.pages (t.idx - 1) ≡ page = ap t.pages (omega (arith, r.pushed)) ∙ r.top in
    let g =
      request_page-Gives hhdm t (omega (arith, r.pushed)) (subst (IsPage hhdm) (sym here) p)
        (subst (Accepts t) (sym here) r.accepts) in
    (
      g.result ∙ here,
      g.popped ∙ omega (arith, r.pushed),
      λ i h. g.kept i ∙ r.below i h,
      λ j h. subst (λ a. (request_page hhdm t).0.mem (a + j) ≡ 0) here (g.zeroed j h),
    )

-- Where no page is on the stack twice, and the one on top is aligned and taken for valid, a
-- request hands out a page that is not on the stack any more, and leaves no page on it twice.
pub request_page-IsDistinct :
    (hhdm : ℕ) (s : Pmm)
    → 0 < s.idx
    → IsPage hhdm (s.pages (s.idx - 1))
    → Accepts s (s.pages (s.idx - 1))
    → IsDistinct s
    → let (t, page) = request_page hhdm s in ((i : ℕ) → i < t.idx → t.pages i ≢ page) × IsDistinct t
request_page-IsDistinct hhdm s some_page p acc d =
    let g = request_page-Gives hhdm s some_page p acc in
    (
      λ i h e. absurd (
          omega (
            arith,
            d.once i (s.idx - 1) (omega (arith, g.popped)) (omega arith)
                (sym (g.kept i) ∙ e ∙ g.result),
            g.popped,
          )),
      record {
        once = λ i j hi hj e.
            d.once i j (omega (arith, g.popped)) (omega (arith, g.popped))
              (sym (g.kept i) ∙ e ∙ g.kept j);
      },
    )

-- Where the stack is not full, the release of a page that is taken for valid and is not on the
-- stack keeps every page on it once.
pub release_page-IsDistinct :
    (s : Pmm) (page : ℕ)
    → page ≢ 0
    → Accepts s page
    → s.idx < s.max
    → ((i : ℕ) → i < s.idx → s.pages i ≢ page)
    → IsDistinct s
    → IsDistinct (release_page page s)
release_page-IsDistinct s page ne acc room new d =
    let r = release_page-Released s page ne acc room in
    record {
      once = λ i j hi hj e.
          ground (arith, r.pushed, r.top, r.below i, r.below j, d.once i j, new i, new j, e);
    }

-- Where the stack has room for two pages, a valid page that is released twice is taken twice, and
-- the next two requests both hand it out.
pub request-release_twice :
    (hhdm page : ℕ) (s : Pmm)
    → IsPage hhdm page
    → Accepts s page
    → s.idx + 1 < s.max
    → let (t, first) = request_page hhdm (release_page page (release_page page s)) in
      (first ≡ page) × ((request_page hhdm t).1 ≡ page)
request-release_twice hhdm page s p acc room =
    let r = release_page-Released s page p.not_null acc (omega arith) in
    let a = release_page page s in
    let q =
      release_page-Released a page p.not_null r.accepts (omega (arith, r.pushed, r.same_max)) in
    let b = release_page page a in
    let top : b.pages (b.idx - 1) ≡ page = ap b.pages (omega (arith, q.pushed)) ∙ q.top in
    let g =
      request_page-Gives hhdm b (omega (arith, q.pushed)) (subst (IsPage hhdm) (sym top) p)
        (subst (Accepts b) (sym top) q.accepts) in
    let t = (request_page hhdm b).0 in
    let next : t.pages (t.idx - 1) ≡ page =
      g.kept (t.idx - 1)
      ∙ ap b.pages (omega (arith, g.popped, q.pushed, r.pushed))
      ∙ q.below s.idx (omega (arith, r.pushed))
      ∙ r.top in
    let g' =
      request_page-Gives hhdm t (omega (arith, g.popped, q.pushed, r.pushed))
        (subst (IsPage hhdm) (sym next) p)
        (subst (Accepts t) (sym next) (subst (Accepts t) top g.still)) in
    (g.result ∙ top, g'.result ∙ next)
