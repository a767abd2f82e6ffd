-- ===== src/Policy/Cached/Justified.antt =====
-- Where an entry of the cache of `CachedApprovalProvider` of src/tesera/policy.py comes from, by the
-- locked regions; Policy/Cached/Calls says which answers run them.
use tesera.Common.{
  ℕ, ◌+◌, ◌<◌, ◌≡◌, refl, sym, subst, true, Option, none, some, List, [], ◌∷◌, ◌++◌, arith, ◌⊎◌,
  inl, inr, leb, ltb, length, eq_iff, filter_if-All, All-map, Bool-cases, Option-cases, All,
}
use mathlib.Core.List.{append-nil, append_assoc}
use tesera.Common.Int.{ℤ, pos, negsuc}
use tesera.Policy.Cached.{
  CacheKey, CachedApprovalProvider, Entries, key_eq, int_eq, spend_eq, evict, delete, put, get,
  make_room, look_up_entry, look_up, store,
}
use tesera.Policy.Cached.Size.{Region, look_up_at, store_at, run_region, run_regions}

int_eq→eq : (a b : ℤ) → int_eq a b ≡ true → a ≡ b
int_eq→eq (pos a) (pos b) h = ground arith
int_eq→eq (negsuc a) (negsuc b) h = ground arith
int_eq→eq (pos a) (negsuc b) h = cc
int_eq→eq (negsuc a) (pos b) h = cc

spend_eq→eq : (a b : Option ℤ) → spend_eq a b ≡ true → a ≡ b
spend_eq→eq none none h = refl
spend_eq→eq (some a) (some b) h = cc (int_eq→eq a b h)
spend_eq→eq none (some b) h = cc
spend_eq→eq (some a) none h = cc

key_eq→eq : (a b : CacheKey) → key_eq a b ≡ true → a ≡ b
key_eq→eq a b h = ground (
  arith,
  eq_iff a.contract_hash b.contract_hash,
  eq_iff a.input_hash b.input_hash,
  eq_iff a.risk b.risk,
  eq_iff a.approval_mode b.approval_mode,
  spend_eq→eq a.spend_cents b.spend_cents,
)

-- Among the regions run, one stored the key, with an expiry time after `now`.
abbrev pub Granted : ℕ → ℕ → CacheKey → List Region → Type 0
Granted ttl now key [] = ⊥
Granted ttl now key (look_up_at _ _ ∷ past) = Granted ttl now key past
Granted ttl now key (store_at t _ k ∷ past) =
    ((k ≡ key) × (now < t + ttl)) ⊎ Granted ttl now key past

-- An entry that is live at some time was granted then.
abbrev IsJustified : ℕ → List Region → CacheKey × ℕ → Type 0
IsJustified ttl past (key, expires) = (now : ℕ) → now < expires → Granted ttl now key past

evict-All : (P : CacheKey × ℕ → Type 0) (size : ℕ) (es : Entries) → All P es → All P (evict size es)
unfolding evict
evict-All P size [] h = tt
evict-All P size (e ∷ es) h = elim (Bool-cases (leb size (length (e ∷ es)))) [
  | inl y ↦ rw y (evict-All P size es h.1)
  | inr n ↦ rw n h
]

delete-All :
    (P : CacheKey × ℕ → Type 0) (key : CacheKey) (es : Entries) → All P es → All P (delete key es)
unfolding delete
delete-All P key [] h = tt
delete-All P key ((j, x) ∷ es) h = elim (Bool-cases (key_eq j key)) [
  | inl y ↦ rw y h.1
  | inr n ↦ rw n (h.0, delete-All P key es h.1)
]

put-All :
    (P : CacheKey × ℕ → Type 0) (key : CacheKey) (x : ℕ) (es : Entries)
    → P (key, x)
    → All P es
    → All P (put key x es)
unfolding put
put-All P key x [] g h = (g, tt)
put-All P key x ((j, y) ∷ es) g h = elim (Bool-cases (key_eq j key)) [
  | inl e ↦ rw e (subst (λ k. P (k, x)) (sym (key_eq→eq j key e)) g, h.1)
  | inr n ↦ rw n (h.0, put-All P key x es g h.1)
]

make_room-All :
    (P : CacheKey × ℕ → Type 0) (now size : ℕ) (es : Entries)
    → All P es
    → All P (make_room now size es)
unfolding make_room
make_room-All P now size es h = elim (Bool-cases (leb size (length es))) [
  | inl y ↦ rw y (evict-All P size _ (filter_if-All P _ es h))
  | inr n ↦ rw n (evict-All P size es h)
]

look_up_entry-All :
    (P : CacheKey × ℕ → Type 0) (now : ℕ) (key : CacheKey) (c : CachedApprovalProvider)
    (o : Option ℕ)
    → All P c.cache
    → All P (look_up_entry now key c o).1.cache
unfolding look_up_entry
look_up_entry-All P now key c none h = make_room-All P now c.max_entries c.cache h
look_up_entry-All P now key c (some x) h = elim (Bool-cases (ltb now x)) [
  | inl y ↦ rw y h
  | inr n ↦ rw n (make_room-All P now c.max_entries _ (delete-All P key c.cache h))
]

store-All :
    (P : CacheKey × ℕ → Type 0) (now expired_now : ℕ) (key : CacheKey) (c : CachedApprovalProvider)
    → P (key, now + c.ttl)
    → All P c.cache
    → All P (store now expired_now key c).cache
unfolding store
store-All P now expired_now key c g h =
    let es = put key (now + c.ttl) c.cache in
    let h' = put-All P key (now + c.ttl) c.cache g h in
    elim (Bool-cases (ltb c.max_entries (length es))) [
      | inl y ↦ rw y (evict-All P (c.max_entries + 1) _ (filter_if-All P _ es h'))
      | inr n ↦ rw n h'
    ]

Granted-append :
    (ttl now : ℕ) (key : CacheKey) (past rs : List Region)
    → Granted ttl now key past
    → Granted ttl now key (past ++ rs)
Granted-append ttl now key [] rs g = elim g [ ]
Granted-append ttl now key (look_up_at _ _ ∷ past) rs g = Granted-append ttl now key past rs g
Granted-append ttl now key (store_at t _ k ∷ past) rs (inl h) = inl h
Granted-append ttl now key (store_at t _ k ∷ past) rs (inr g) =
    inr (Granted-append ttl now key past rs g)

Granted-store :
    (ttl now t expired_now : ℕ) (key : CacheKey) (past : List Region)
    → now < t + ttl
    → Granted ttl now key (past ++ store_at t expired_now key ∷ [])
Granted-store ttl now t e key [] h = inl (refl, h)
Granted-store ttl now t e key (look_up_at _ _ ∷ past) h = Granted-store ttl now t e key past h
Granted-store ttl now t e key (store_at _ _ k ∷ past) h = inr (Granted-store ttl now t e key past h)

-- One region more keeps every entry justified, and leaves the time to live alone.
region-IsJustified :
    (past : List Region) (r : Region) (c : CachedApprovalProvider)
    → All (IsJustified c.ttl past) c.cache
    → All (IsJustified c.ttl (past ++ r ∷ [])) (run_region r c).cache
unfolding run_region look_up
region-IsJustified past (look_up_at now key) c h =
    look_up_entry-All _ now key c (get key c.cache)
      (All-map _ _ c.cache (λ x j t lt. Granted-append c.ttl t x.0 past _ (j t lt)) h)
region-IsJustified past (store_at now e key) c h =
    store-All _ now e key c (λ t lt. Granted-store c.ttl t now e key past lt)
      (All-map _ _ c.cache (λ x j t lt. Granted-append c.ttl t x.0 past _ (j t lt)) h)

ttl-region : (r : Region) (c : CachedApprovalProvider) → (run_region r c).ttl ≡ c.ttl
unfolding run_region look_up look_up_entry store
ttl-region (look_up_at now key) c = ground arith
ttl-region (store_at now e key) c = refl

run-IsJustified :
    (past rs : List Region) (c : CachedApprovalProvider)
    → All (IsJustified c.ttl past) c.cache
    → All (IsJustified c.ttl (past ++ rs)) (run_regions rs c).cache
unfolding run_regions
run-IsJustified past [] c h = rw append-nil h
run-IsJustified past (r ∷ rs) c h =
    let c' = run_region r c in
    let e = ttl-region r c in
    let h' =
      subst (λ t. All (IsJustified t (past ++ r ∷ [])) c'.cache) (sym e)
        (region-IsJustified past r c h) in
    subst (λ t. All (IsJustified t (past ++ r ∷ rs)) (run_regions rs c').cache) e
      (subst (λ l. All (IsJustified c'.ttl l) (run_regions rs c').cache)
        (append_assoc past (r ∷ []) rs) (run-IsJustified (past ++ r ∷ []) rs c' h'))

get-All :
    (P : CacheKey × ℕ → Type 0) (key : CacheKey) (es : Entries) (x : ℕ)
    → All P es
    → get key es ≡ some x
    → P (key, x)
unfolding get
get-All P key [] x h e = absurd (cc e)
get-All P key ((j, y) ∷ es) x h e = elim (Bool-cases (key_eq j key)) [
  | inl k ↦ subst (λ z. P (key, z)) (cc (rw k at e)) (subst (λ q. P (q, y)) (key_eq→eq j key k) h.0)
  | inr n ↦ get-All P key es x h.1 (rw n at e)
]

look_up_hit :
    (now : ℕ) (key : CacheKey) (c : CachedApprovalProvider)
    → (look_up now key c).0 ≡ true
    → (x : ℕ) × (get key c.cache ≡ some x) × (now < x)
unfolding look_up look_up_entry
look_up_hit now key c hit = elim (Option-cases (get key c.cache)) [
  | inl e ↦ absurd (cc (rw (e, look_up_entry) at hit))
  | inr (x, e) ↦ (x, e, ground arith)
]

-- After any interleaving of the locked regions from an empty cache, a key hits only if some region
-- stored exactly that key, less than `ttl` before.
pub hit_is_Granted :
    (now : ℕ) (key : CacheKey) (rs : List Region) (c : CachedApprovalProvider)
    → c.cache ≡ []
    → (look_up now key (run_regions rs c)).0 ≡ true
    → Granted c.ttl now key rs
hit_is_Granted now key rs c e hit =
    let (x, found, live) = look_up_hit now key (run_regions rs c) hit in
    get-All (IsJustified c.ttl rs) key (run_regions rs c).cache x
      (run-IsJustified [] rs c (rw e tt)) found now live
