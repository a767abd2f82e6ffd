-- ===== src/Policy/Cached.antt =====
-- `CachedApprovalProvider` of src/tesera/policy.py. `decide` takes the lock twice, to look the
-- key up and to store an allowance, and asks the inner provider between them: each locked region
-- is one function. The cache is a list of keys with expiry times, oldest first.
pub mod Size
pub mod Justified
pub mod Calls
mod Tests
use tesera.Common.{
  ℕ, zero, suc, ◌+◌, Bool, true, false, Option, none, some, List, [], ◌∷◌, String, ◌&&◌, leb, ltb,
  length, filter_if, not, str_eq, ◌==◌, if◌then◌else◌,
}
use tesera.Common.Int.{ℤ, pos, negsuc}
use tesera.Policy.{
  ApprovalRequest, ApprovalDecision, allow, is_allowed, cached_approval, Outcome, returned, raised,
  Provider,
}

pub record CacheKey : Type 0 where
  pub contract_hash : String
  pub input_hash : String
  pub risk : String
  pub approval_mode : String
  pub spend_cents : Option ℤ

-- The tuple that `decide` builds.
abbrev pub key_of : ApprovalRequest → CacheKey
key_of request = record {
  contract_hash = request.contract_hash;
  input_hash = request.input_hash;
  risk = request.risk;
  approval_mode = request.approval_mode;
  spend_cents = request.spend_cents;
}

abbrev pub int_eq : ℤ → ℤ → Bool
int_eq (pos a) (pos b) = a == b
int_eq (negsuc a) (negsuc b) = a == b
int_eq _ _ = false

abbrev pub spend_eq : Option ℤ → Option ℤ → Bool
spend_eq none none = true
spend_eq (some a) (some b) = int_eq a b
spend_eq _ _ = false

-- Equality of the tuples.
abbrev pub key_eq : CacheKey → CacheKey → Bool
key_eq a b =
    str_eq a.contract_hash b.contract_hash
    && (str_eq a.input_hash b.input_hash
        && (str_eq a.risk b.risk
            && (str_eq a.approval_mode b.approval_mode && spend_eq a.spend_cents b.spend_cents)))

abbrev pub Entries : Type 0
Entries = List (CacheKey × ℕ)

pub record CachedApprovalProvider : Type 0 where
  pub ttl : ℕ
  pub max_entries : ℕ
  pub cache : Entries

-- `__init__`; none is the ValueError.
pub init : ℕ → ℕ → Option CachedApprovalProvider
init zero max_entries = none
init (suc t) zero = none
init (suc t) (suc m) = some (record { ttl = suc t; max_entries = suc m; cache = [] })

unfoldable pub get : CacheKey → Entries → Option ℕ
get k [] = none
get k ((j, e) ∷ es) = if key_eq j k then some e else get k es

-- `del self._cache[key]`
unfoldable pub delete : CacheKey → Entries → Entries
delete k [] = []
delete k ((j, e) ∷ es) = if key_eq j k then es else (j, e) ∷ delete k es

-- `self._cache[key] = expires`: a key that is there keeps its place.
unfoldable pub put : CacheKey → ℕ → Entries → Entries
put k x [] = (k, x) ∷ []
put k x ((j, e) ∷ es) = if key_eq j k then (j, x) ∷ es else (j, e) ∷ put k x es

-- Deleting the entries with `exp <= now`.
abbrev pub sweep : ℕ → Entries → Entries
sweep now = filter_if (λ entry. ltb now entry.1)

-- The loop that pops the oldest entry while `size <= len(cache)`.
unfoldable pub evict : ℕ → Entries → Entries
evict size [] = []
evict size (e ∷ es) = if leb size (length (e ∷ es)) then evict size es else e ∷ es

-- The opportunistic sweep and the eviction, which leave room for one entry.
unfoldable pub make_room : ℕ → ℕ → Entries → Entries
unfolding evict
make_room now max_entries es =
    evict max_entries (if leb max_entries (length es) then sweep now es else es)

-- The first locked region, by what is cached for the key.
unfoldable pub look_up_entry :
    ℕ → CacheKey → CachedApprovalProvider → Option ℕ → Bool × CachedApprovalProvider
unfolding delete make_room
look_up_entry now key c none = (false, record c { cache = make_room now c.max_entries c.cache })
look_up_entry now key c (some expires) =
    if ltb now expires
    then (true, c)
    else (false, record c { cache = make_room now c.max_entries (delete key c.cache) })

-- The first locked region: whether the key is cached at `now`.
unfoldable pub look_up : ℕ → CacheKey → CachedApprovalProvider → Bool × CachedApprovalProvider
unfolding get look_up_entry
look_up now key c = look_up_entry now key c (get key c.cache)

-- The second locked region: an allowance by the inner provider is stored. It reads the clock once
-- for the expiry time and once for the sweep.
unfoldable pub store : ℕ → ℕ → CacheKey → CachedApprovalProvider → CachedApprovalProvider
unfolding put evict
store now expired_now key c =
    let es = put key (now + c.ttl) c.cache in
    record c {
      cache =
          if ltb c.max_entries (length es)
          then evict (c.max_entries + 1) (sweep expired_now es)
          else es;
    }

-- The clock readings of one call.
pub record Readings : Type 0 where
  pub at_look_up : ℕ
  pub at_store : ℕ
  pub at_sweep : ℕ

module _ {ℓ} {S : Type ℓ} (inner : Provider S) where
  -- The rest of `decide` after the inner provider has answered.
  unfoldable pub after_inner :
      Readings
      → ApprovalRequest
      → CachedApprovalProvider
      → Outcome × S
      → Outcome × CachedApprovalProvider × S
  unfolding store
  after_inner now request c (raised e, s) = (raised e, c, s)
  after_inner now request c (returned d, s) = (
    returned d,
    if is_allowed d.decision then store now.at_store now.at_sweep (key_of request) c else c,
    s,
  )

  unfoldable pub decide :
      Readings → ApprovalRequest → CachedApprovalProvider → S → Outcome × CachedApprovalProvider × S
  unfolding look_up after_inner
  decide now request c s =
      let (hit, c') = look_up now.at_look_up (key_of request) c in
      if hit
      then (returned (allow cached_approval), c', s)
      else after_inner now request c' (inner request s)
