-- ===== src/Policy/RateLimit/Memory.antt =====
-- What `RateLimitProvider` promises over a history of calls, each with its clock reading.
use tesera.Common.{
  All, true, false, ◌∙◌, ℕ, ◌+◌, ◌≤◌, ◌<◌, ◌≡◌, refl, ap, List, [], ◌∷◌, arith, leb, ltb, length,
  count_if, if◌then◌else◌, Bool-cases, inl, inr,
}
use tesera.Policy.{ApprovalRequest, is_allowed}
use tesera.Policy.RateLimit.{RateLimitProvider, decide, drop_expired, admit}
use tesera.Policy.RateLimit.Window.{is_alive, Ascending}

abbrev pub Call : Type 0
Call = ℕ × ApprovalRequest

abbrev pub call_time : Call → ℕ
call_time (now, _) = now

-- The clock readings of the calls that `decide` allows, oldest first.
unfoldable pub allowed_at : List Call → RateLimitProvider → List ℕ
allowed_at [] p = []
allowed_at ((now, request) ∷ calls) p =
    let (d, p') = decide now request p in
    let rest = allowed_at calls p' in if is_allowed d.decision then now ∷ rest else rest

-- Behind an attempt that is alive all are, when the times ascend.
all_alive :
    (window now last : ℕ) (ts : List ℕ)
    → Ascending last ts
    → now < last + window
    → count_if (is_alive window now) ts ≡ length ts
all_alive window now last [] up h = refl
all_alive window now last (t ∷ ts) up h = ground (arith, all_alive window now t ts up.1)

-- In a deque whose times ascend, the loop leaves exactly the attempts that are alive.
length-drop_expired :
    (window now last : ℕ) (ts : List ℕ)
    → Ascending last ts
    → length (drop_expired window now ts) ≡ count_if (is_alive window now) ts
unfolding drop_expired
length-drop_expired window now last [] up = refl
length-drop_expired window now last (t ∷ ts) up =
    ground (arith, length-drop_expired window now t ts up.1, all_alive window now t ts up.1)

-- One call, with attempts in ascending order.
alone_exact :
    (now last : ℕ) (r : ApprovalRequest) (p : RateLimitProvider)
    → Ascending last p.attempts
    → is_allowed (decide now r p).0.decision
      ≡ ltb (count_if (is_alive p.window now) p.attempts) p.max_calls
unfolding decide
alone_exact now last r p up = ground (arith, length-drop_expired p.window now last p.attempts up)

-- What is dropped at one time would be dropped at any later one.
drop_expired-twice :
    (window now later : ℕ) (ts : List ℕ)
    → now ≤ later
    → drop_expired window later (drop_expired window now ts) ≡ drop_expired window later ts
unfolding drop_expired
drop_expired-twice window now later [] h = refl
drop_expired-twice window now later (t ∷ ts) h = elim (Bool-cases (leb (t + window) now)) [
  | inr n ↦ rw n refl
  | inl y ↦
      let gone : leb (t + window) later ≡ true = ground (arith, y) in
      rw (y, gone) (drop_expired-twice window now later ts h)
]

-- A call that is denied leaves no trace for a later one.
denied_leaves :
    (now later : ℕ) (r next : ApprovalRequest) (p : RateLimitProvider)
    → now ≤ later
    → is_allowed (decide now r p).0.decision ≡ false
    → decide later next (decide now r p).1 ≡ decide later next p
unfolding decide
denied_leaves now later r next p h d =
    elim (Bool-cases (leb p.max_calls (length (drop_expired p.window now p.attempts)))) [
      | inr room ↦ absurd (cc (rw room at d))
      | inl full ↦ rw full (
          ap
            (λ kept.
              let (d, attempts) = admit p.max_calls p.window later kept in
              (d, record p { attempts = attempts }))
            (drop_expired-twice p.window now later p.attempts h))
    ]

-- The provider after a history of calls.
unfoldable pub after : List Call → RateLimitProvider → RateLimitProvider
after [] p = p
after ((now, request) ∷ calls) p = after calls (decide now request p).1

burst_leaves :
    (now : ℕ) (r : ApprovalRequest) (burst : List Call) (p : RateLimitProvider)
    → All (λ call. call_time call ≤ now) burst
    → allowed_at burst p ≡ []
    → decide now r (after burst p) ≡ decide now r p
unfolding after allowed_at
burst_leaves now r [] p h none_allowed = refl
burst_leaves now r ((t, q) ∷ burst) p h none_allowed =
    elim (Bool-cases (is_allowed (decide t q p).0.decision)) [
      | inl y ↦ absurd (cc (rw y at none_allowed))
      | inr n ↦
          burst_leaves now r burst (decide t q p).1 h.1 (rw n at none_allowed)
          ∙ denied_leaves t now q r p h.0 n
    ]

-- A denied burst costs no quota. Let the attempts of a provider be in ascending order, let all calls
-- of a burst be denied, and let a call follow at `now`, not before any of them. It is decided as if
-- the burst had not been, and leaves the same provider; and it is allowed exactly if fewer than
-- `max_calls` of the attempts before the burst are younger than the window.
pub decide_exact :
    (now last : ℕ) (r : ApprovalRequest) (burst : List Call) (p : RateLimitProvider)
    → All (λ call. call_time call ≤ now) burst
    → allowed_at burst p ≡ []
    → Ascending last p.attempts
    → (decide now r (after burst p) ≡ decide now r p)
      × (is_allowed (decide now r (after burst p)).0.decision
          ≡ ltb (count_if (is_alive p.window now) p.attempts) p.max_calls)
decide_exact now last r burst p h none_allowed up =
    let same = burst_leaves now r burst p h none_allowed in
    (same, ap (λ x. is_allowed x.0.decision) same ∙ alone_exact now last r p up)
