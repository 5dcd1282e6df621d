-- ===== src/Tests/Pages.antt =====
-- The theorems on the page allocator at a small machine.
use shadow_os.Base.{ℕ, zero, suc, ◌+◌, ◌*◌, ◌<◌, ◌≡◌, ◌≢◌, refl, false, [], ◌∷◌, arith}
use shadow_os.Pmm.Caches.{CacheEntry, read_primary}
use shadow_os.Pmm.{
  page_size, Kind, Entry, Pmm, cached, in_memmap, covers, request_page, release_page,
}
use shadow_os.Pmm.Stack.{Accepts, IsPage, IsDistinct, request-release}
use shadow_os.Pmm.Boot.Reclaim.{Covered}

abbrev no_entry : CacheEntry
no_entry = record { page_addr = 0; is_valid = false; access_count = 0 }

-- sixteen pages of memory from 0x100000
abbrev region : Entry
region = record { base = 1048576; len = 65536; kind = Kind.usable }

-- two free pages, on a stack that has room for eight
abbrev pub small : Pmm
small = record {
  pages = λ i. 1048576 + i * 4096;
  idx = 2;
  max = 8;
  memmap = region ∷ [];
  cache = record { primary = λ i. no_entry; secondary = λ i. no_entry; head = 0 };
  reclaimed = false;
  mem = λ a. 255;
}

fresh-IsPage : IsPage 4294967296 1069056
fresh-IsPage = record {
  aligned = omega arith;
  not_null = omega arith;
  mapped = omega arith;
  in_range = omega arith;
}

top-IsPage : IsPage 4294967296 1052672
top-IsPage = record {
  aligned = omega arith;
  not_null = omega arith;
  mapped = omega arith;
  in_range = omega arith;
}

Accepts-fresh : Accepts small 1069056
unfolding cached read_primary in_memmap covers
Accepts-fresh = refl

Accepts-top : Accepts small 1052672
unfolding cached read_primary in_memmap covers
Accepts-top = refl

small-IsDistinct : IsDistinct small
small-IsDistinct = record { once = λ i j hi hj e. omega arith }

request-release_example :
    let out = request_page 4294967296 (release_page 1069056 small) in
    (out.1 ≡ 1069056)
    × (out.0.idx ≡ 2)
    × ((i : ℕ) → i < 2 → out.0.pages i ≡ small.pages i)
    × ((j : ℕ) → j < page_size → out.0.mem (1069056 + j) ≡ 0)
request-release_example =
    request-release 4294967296 1069056 small fresh-IsPage Accepts-fresh (omega arith)

not_on_stack : (i : ℕ) → i < 2 → small.pages i ≢ 1069056
not_on_stack i h e = omega arith

covered : Covered small 1048576 2
unfolding in_memmap covers
covered zero h = (omega arith, refl)
covered (suc zero) h = (omega arith, refl)
covered (suc (suc k)) h = absurd (omega arith)

-- the state of the zeroed globals
abbrev empty : Pmm
empty = record small { idx = 0; max = 0; memmap = [] }
