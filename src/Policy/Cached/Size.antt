-- ===== src/Policy/Cached/Size.antt =====
-- Interleavings of the locked regions of `CachedApprovalProvider`, and the size of the cache.
use tesera.Common.{ℕ, ◌+◌, ◌≤◌, ◌<◌, ◌≡◌, refl, List, [], ◌∷◌, arith, length}
use tesera.Policy.Cached.{
  CacheKey, CachedApprovalProvider, Entries, evict, sweep, delete, put, make_room, look_up,
  look_up_entry, store,
}

-- A locked region that some thread runs.
pub data Region : Type 0 where
  look_up_at : ℕ → CacheKey → Region
  store_at : ℕ → ℕ → CacheKey → Region

unfoldable pub run_region : Region → CachedApprovalProvider → CachedApprovalProvider
run_region (look_up_at now key) c = (look_up now key c).1
run_region (store_at now expired_now key) c = store now expired_now key c

-- The regions of any number of threads, in the order in which they get the lock.
unfoldable pub run_regions : List Region → CachedApprovalProvider → CachedApprovalProvider
unfolding run_region
run_regions [] c = c
run_regions (r ∷ rs) c = run_regions rs (run_region r c)

pub length-evict : (size : ℕ) (es : Entries) → 0 < size → length (evict size es) < size
unfolding evict
length-evict size [] h = h
length-evict size (e ∷ es) h = ground (arith, length-evict size es h)

max_entries-region :
    (r : Region) (c : CachedApprovalProvider) → (run_region r c).max_entries ≡ c.max_entries
unfolding run_region look_up look_up_entry store
max_entries-region (look_up_at now key) c = ground arith
max_entries-region (store_at now expired_now key) c = refl

region_size :
    (r : Region) (c : CachedApprovalProvider)
    → 0 < c.max_entries
    → length c.cache ≤ c.max_entries
    → length (run_region r c).cache ≤ c.max_entries
unfolding run_region look_up look_up_entry store make_room
region_size (look_up_at now key) c pos h = ground (
  arith,
  length-evict c.max_entries c.cache,
  length-evict c.max_entries (sweep now c.cache),
  length-evict c.max_entries (delete key c.cache),
  length-evict c.max_entries (sweep now (delete key c.cache)),
)
region_size (store_at now expired_now key) c pos h =
    ground
      (arith, length-evict (c.max_entries + 1) (sweep expired_now (put key (now + c.ttl) c.cache)))

-- However the threads interleave, the cache never holds more than `max_entries` entries.
pub size_bound :
    (rs : List Region) (c : CachedApprovalProvider)
    → 0 < c.max_entries
    → length c.cache ≤ c.max_entries
    → length (run_regions rs c).cache ≤ c.max_entries
unfolding run_regions
size_bound [] c pos h = h
size_bound (r ∷ rs) c pos h =
    let e = max_entries-region r c in
    omega (arith, e, region_size r c pos h, size_bound rs (run_region r c))
