-- ===== src/Pmm/Caches.antt =====
-- The two caches of kernel/src/mm/pmm.c. An address has its place by its hash below 128; the
-- secondary cache has 64 entries, so that a read at the place of an address may lie behind it.
use shadow_os.Base.{
  ℕ, suc, zero, ◌+◌, ◌*◌, ◌/◌, ◌%◌, ◌^◌, bit_xor, Bool, true, false, ◌&&◌, ◌==◌, if◌then◌else◌,
}

-- `page_cache_entry_t`
pub record CacheEntry : Type 0 where
  pub page_addr : ℕ
  pub is_valid : Bool
  pub access_count : ℕ

-- `valid_page_cache`, `secondary_cache`, `cache_head`. From index 64 on, `secondary` is the memory
-- behind the array, which the code reads and never writes.
pub record Cache : Type 0 where
  pub primary : ℕ → CacheEntry
  pub secondary : ℕ → CacheEntry
  pub head : ℕ

abbrev pub cache_size : ℕ
cache_size = 128

abbrev pub secondary_cache_size : ℕ
secondary_cache_size = 64

-- `hash ^ (hash >> k)` and a product in uint64_t
mix : ℕ → ℕ → ℕ
mix h k = bit_xor h (h / 2 ^ k)

pub hash_page : ℕ → ℕ
unfolding mix
hash_page addr =
    let a = mix addr 30 * 0x9e3779b97f4a7c15 % 2 ^ 64 in
    let b = mix a 27 * 0x7f4a7c159e3779b9 % 2 ^ 64 in mix b 31 % cache_size

unfoldable pub read_primary : Cache → ℕ → CacheEntry
read_primary c i = c.primary i

abbrev put : (ℕ → CacheEntry) → ℕ → CacheEntry → ℕ → CacheEntry
put f i e j = if i == j then e else f j

is_in_secondary_cache : Cache → ℕ → Bool
is_in_secondary_cache c addr =
    let e = c.secondary (hash_page addr) in e.is_valid && (e.page_addr == addr)

-- The loop that moves an entry to the primary cache, over the rounds left, at `i`.
promote : ℕ → ℕ → ℕ → Cache → Cache
promote addr zero i c = c
promote addr (suc n) i c =
    let rest = promote addr n (i + 1) c in
    let e = c.secondary i in
    if e.page_addr == addr
    then record c {
      primary = put c.primary (hash_page addr) (record e { access_count = 1 });
      secondary = put c.secondary i (record e { is_valid = false });
    }
    else rest

unfoldable pub update_cache_access : Cache → ℕ → Cache
unfolding is_in_secondary_cache promote
update_cache_access c addr =
    let i = hash_page addr in
    let e = c.primary i in
    if e.is_valid && (e.page_addr == addr)
    then record c {
      primary = put c.primary i (record e { access_count = (e.access_count + 1) % 2 ^ 64 });
    }
    else if is_in_secondary_cache c addr
    then promote addr secondary_cache_size 0 c
    else c

-- the end of pmm_release_page: the address is entered, and `cache_head` moves
unfoldable pub remember : Cache → ℕ → Cache
remember c addr = record c {
  primary =
      put c.primary (hash_page addr)
        (record { page_addr = addr; is_valid = true; access_count = 0 });
  head = (c.head + 1) % cache_size;
}
