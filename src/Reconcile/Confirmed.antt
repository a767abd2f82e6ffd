-- ===== src/Reconcile/Confirmed.antt =====
-- What a complete report of src/tesera/reconcile.py says of the receipts and of the provider.
use tesera.Common.{
  ◌<◌, Bool, true, Option, none, some, Bool-cases, inl, inr, List, [], ◌∷◌, String, ◌≡◌, refl, ap,
  sym, subst, All, arith, length, map, str_eq, eq_iff, all_of,
}
use tesera.Json.{Json, Fields, Event, end, field, find}
use tesera.Verification.Journal.{VerificationResult}
use tesera.Reconcile.{
  Mismatch, ReceiptReconciliation, ReconcileReport, Answer, failed, unknown, provider_state,
  is_matched, is_complete, receipt_of, compare_field, first_mismatch, status_of, judge, item_of,
  reconcile_event, reconcile_events, reconcile_verified_snapshot,
}

-- The receipts that the outcomes claim, in the order of the journal.
abbrev pub receipt_cons : Option Fields → List Fields → List Fields
receipt_cons none rest = rest
receipt_cons (some r) rest = r ∷ rest

abbrev pub receipts : List Event → List Fields
unfolding receipt_of
receipts [] = []
receipts (event ∷ events) = receipt_cons (receipt_of event) (receipts events)

module _ (python_str : Json → String) where
  -- Every field of the receipt is in the record with a value of the same text.
  abbrev pub Agrees : Fields → Fields → Type 0
  unfolding find
  Agrees end record_of = Unit
  Agrees (field k claimed rest) record_of =
      ((actual : Json) × (find k record_of ≡ some actual)
        × (python_str actual ≡ python_str claimed))
      × Agrees rest record_of

  compare_field-none :
      (k : String) (claimed : Json) (o : Option Json) (rest : Option Mismatch)
      → compare_field python_str k claimed o rest ≡ none
      → ((actual : Json) × (o ≡ some actual) × (python_str actual ≡ python_str claimed))
        × (rest ≡ none)
  compare_field-none k claimed none rest h = absurd (cc h)
  compare_field-none k claimed (some actual) rest h =
      elim (Bool-cases (str_eq (python_str actual) (python_str claimed))) [
        | inl y ↦ ((actual, refl, (eq_iff (python_str actual) (python_str claimed)).0 y), rw y at h)
        | inr n ↦ absurd (cc (rw n at h))
      ]

  first_mismatch-none :
      (receipt record_of : Fields)
      → first_mismatch python_str receipt record_of ≡ none
      → Agrees receipt record_of
  unfolding first_mismatch Agrees
  first_mismatch-none end record_of h = tt
  first_mismatch-none (field k claimed rest) record_of h =
      let (here, more) =
        compare_field-none k claimed (find k record_of) (first_mismatch python_str rest record_of)
          h in
      (here, first_mismatch-none rest record_of more)

  status_of-matched : (o : Option Mismatch) → is_matched (status_of python_str o) ≡ true → o ≡ none
  status_of-matched none h = refl
  status_of-matched (some m) h = absurd (cc h)

  module _ (first_500 : String → String) where
    judge-matched :
        (receipt : Fields) (answer : Answer)
        → is_matched (judge python_str first_500 receipt answer) ≡ true
        → (s : Fields) × (answer ≡ provider_state s) × Agrees receipt s
    unfolding judge
    judge-matched receipt (failed e) h = absurd (cc h)
    judge-matched receipt unknown h = absurd (cc h)
    judge-matched receipt (provider_state s) h =
        (s, refl, first_mismatch-none receipt s (status_of-matched _ h))

    module _ {ℓ} {S : Type ℓ} (fetch : Fields → S → Answer × S) where
      -- At some state the provider answered with a record that agrees with the receipt.
      abbrev pub IsConfirmed : Fields → Type ℓ
      unfolding Agrees
      IsConfirmed receipt =
          (s : S) × (record_of : Fields) × ((fetch receipt s).0 ≡ provider_state record_of)
          × Agrees receipt record_of

      abbrev all_matched : List ReceiptReconciliation → Bool
      all_matched items = all_of (λ item. is_matched item.status) items

      -- The items have these receipts, and each of them is confirmed.
      abbrev Confirms : List ReceiptReconciliation → List Fields → Type ℓ
      Confirms items rs = (map (λ item. item.receipt) items ≡ rs) × All IsConfirmed rs

      event_confirmed :
          (event : Event) (o : Option Fields) (rest : S → List ReceiptReconciliation × S)
          (rs : List Fields) (s : S)
          → ((t : S) → all_matched (rest t).0 ≡ true → Confirms (rest t).0 rs)
          → all_matched (reconcile_event python_str first_500 fetch event o rest s).0 ≡ true
          → Confirms
              (reconcile_event python_str first_500 fetch event o rest s).0
              (receipt_cons o rs)
      unfolding reconcile_event item_of
      event_confirmed event none rest rs s ih h = ih s h
      event_confirmed event (some receipt) rest rs s ih h =
          let answered = fetch receipt s in
          let here : is_matched (judge python_str first_500 receipt answered.0) ≡ true =
            ground (arith, h) in
          let more : all_matched (rest answered.1).0 ≡ true = ground (arith, h) in
          let (same, all) = ih answered.1 more in
          let (record_of, e, agrees) = judge-matched receipt answered.0 here in
          (ap (λ l. receipt ∷ l) same, ((s, record_of, e, agrees), all))

      events_confirmed :
          (events : List Event) (s : S)
          → all_matched (reconcile_events python_str first_500 fetch events s).0 ≡ true
          → Confirms (reconcile_events python_str first_500 fetch events s).0 (receipts events)
      unfolding reconcile_events receipts
      events_confirmed [] s h = (refl, tt)
      events_confirmed (event ∷ events) s h =
          event_confirmed event (receipt_of event) _ (receipts events) s
            (λ t g. events_confirmed events t g) h

      report_confirmed :
          (items : List ReceiptReconciliation) (rs : List Fields)
          → (all_matched items ≡ true → Confirms items rs)
          → is_complete (record { reconciliations = items }) ≡ true
          → (0 < length rs) × Confirms items rs
      report_confirmed [] rs f h = absurd (cc h)
      report_confirmed (item ∷ items) rs f h =
          let c = f h in (omega (arith, sym (ap length c.0)), c)

      -- If the report on a snapshot is complete, then the journal claims at least one receipt, the
      -- items of the report are the receipts that its succeeded outcomes claim, in their order, and
      -- for each of them the provider answered with a record in which every field of the receipt
      -- stands with a value of the same text.
      pub complete-IsConfirmed :
          (verification : VerificationResult) (events : List Event) (s t : S)
          (report : ReconcileReport)
          → reconcile_verified_snapshot python_str first_500 fetch verification events s
            ≡ (some report, t)
          → is_complete report ≡ true
          → (0 < length (receipts events))
            × (map (λ item. item.receipt) report.reconciliations ≡ receipts events)
            × All IsConfirmed (receipts events)
      unfolding reconcile_verified_snapshot
      complete-IsConfirmed verification events s t report h c =
          elim (Bool-cases verification.valid) [
            | inr n ↦ absurd (cc (ap (λ r. r.0) (rw (n, reconcile_verified_snapshot) at h)))
            | inl y ↦
                let done = reconcile_events python_str first_500 fetch events s in
                let made : ReconcileReport = record { reconciliations = done.0 } in
                let same : made ≡ report =
                  cc (ap (λ r. r.0) (rw (y, reconcile_verified_snapshot) at h)) in
                let (some_claimed, confirms) =
                  (report_confirmed done.0 (receipts events) (events_confirmed events s)
                    (subst (λ r. is_complete r ≡ true) (sym same) c)) in
                let moved =
                  subst (λ r. Confirms r.reconciliations (receipts events)) same confirms in
                (some_claimed, moved.0, moved.1)
          ]
