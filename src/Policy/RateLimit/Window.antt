-- ===== src/Policy/RateLimit/Window.antt =====
-- The sliding window, for any way to forget expired attempts: the store of attempts covers every
-- allowance that is still alive, so no window holds more than `max_calls` of them.
use tesera.Common.{
  ℕ, ◌+◌, ◌≤◌, ◌<◌, Bool, List, [], ◌∷◌, ◌++◌, ◌&&◌, Bool-cases, leb-false, inl, inr, arith, leb,
  ltb, length, count_if, count_if-append, count_if-le-length, if◌then◌else◌,
}
use tesera.Policy.{is_allowed}
use tesera.Policy.RateLimit.{admit}

-- An allowance at `t` counts at the time `now` and later until `t + window`.
abbrev pub is_alive : ℕ → ℕ → ℕ → Bool
is_alive window now t = ltb now (t + window)

-- The allowance at `t` lies in the window that ends at `now`.
abbrev pub in_window : ℕ → ℕ → ℕ → Bool
in_window window now t = leb t now && is_alive window now t

-- The clock readings never go back.
abbrev pub Ascending : ℕ → List ℕ → Type 0
Ascending last [] = Unit
Ascending last (t ∷ ts) = (last ≤ t) × Ascending t ts

module _ (max_calls window : ℕ) (purge : ℕ → List ℕ → List ℕ) where
  -- The clock readings of the calls that are allowed, oldest first.
  unfoldable pub allowed_times : List ℕ → List ℕ → List ℕ
  allowed_times [] attempts = []
  allowed_times (now ∷ calls) attempts =
      let (d, attempts') = admit max_calls window now (purge now attempts) in
      let rest = allowed_times calls attempts' in if is_allowed d.decision then now ∷ rest else rest

in_window-le-alive :
    (window now : ℕ) (ts : List ℕ)
    → count_if (in_window window now) ts ≤ count_if (is_alive window now) ts
in_window-le-alive window now [] = omega arith
in_window-le-alive window now (t ∷ ts) = ground (arith, in_window-le-alive window now ts)

-- What the purge forgets is dead now, and stays dead.
abbrev pub KeepsAlive : ℕ → (ℕ → List ℕ → List ℕ) → Type 0
KeepsAlive window purge =
    (now later : ℕ) (ts : List ℕ)
    → now ≤ later
    → count_if (is_alive window later) ts ≤ count_if (is_alive window later) (purge now ts)

-- The attempts cover the past allowances `past` from the time `last` on.
abbrev Covers : ℕ → ℕ → List ℕ → List ℕ → Type 0
Covers window last past attempts =
    (now : ℕ)
    → last ≤ now
    → count_if (is_alive window now) past ≤ count_if (is_alive window now) attempts

-- After the purge at `now` the attempts that are kept still cover the past.
Covers-purge :
    (window last now : ℕ) (purge : ℕ → List ℕ → List ℕ) (past attempts : List ℕ)
    → KeepsAlive window purge
    → last ≤ now
    → Covers window last past attempts
    → Covers window now past (purge now attempts)
Covers-purge window last now purge past attempts keeps up cov later h =
    omega (arith, cov later (omega arith), keeps now later attempts h)

-- So they do when the allowance at `now` joins both.
Covers-add :
    (window now : ℕ) (past kept : List ℕ)
    → Covers window now past kept
    → Covers window now (now ∷ past) (kept ++ now ∷ [])
Covers-add window now past kept cov later h = rw count_if-append (omega (arith, cov later h))

-- A window that is not full takes one more allowance.
in_window-add :
    (max_calls window end now : ℕ) (past kept : List ℕ)
    → Covers window now past kept
    → length kept < max_calls
    → count_if (in_window window end) past ≤ max_calls
    → count_if (in_window window end) (now ∷ past) ≤ max_calls
in_window-add max_calls window end now past kept cov room h = ground (
  arith,
  in_window-le-alive window end past,
  cov end,
  count_if-le-length (is_alive window end) kept,
)

module _ (max_calls window : ℕ) (purge : ℕ → List ℕ → List ℕ)
    (keeps : KeepsAlive window purge) where
  pub window_bound_from :
      (end last : ℕ) (past calls attempts : List ℕ)
      → Ascending last calls
      → Covers window last past attempts
      → count_if (in_window window end) past ≤ max_calls
      → count_if (in_window window end) past
          + count_if (in_window window end) (allowed_times max_calls window purge calls attempts)
        ≤ max_calls
  unfolding allowed_times
  window_bound_from end last past [] attempts up cov h = omega arith
  window_bound_from end last past (now ∷ calls) attempts up cov h =
      let kept = purge now attempts in
      let cov' = Covers-purge window last now purge past attempts keeps up.0 cov in
      elim (Bool-cases (leb max_calls (length kept))) [
        | inl full ↦ rw full (window_bound_from end now past calls kept up.1 cov' h)
        | inr room ↦
            let h' =
              in_window-add max_calls window end now past kept cov' (leb-false max_calls _ room)
                h in
            let ih =
              window_bound_from end now (now ∷ past) calls (kept ++ now ∷ []) up.1
                (Covers-add window now past kept cov') h' in
            rw room (omega (arith, ih))
      ]

  -- From an empty store of attempts.
  pub window_bound :
      (end : ℕ) (calls : List ℕ)
      → Ascending 0 calls
      → count_if (in_window window end) (allowed_times max_calls window purge calls []) ≤ max_calls
  window_bound end calls up =
      omega (arith, window_bound_from end 0 [] calls [] up (λ now h. omega arith) (omega arith))
