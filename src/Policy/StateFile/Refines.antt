-- ===== src/Policy/StateFile/Refines.antt =====
-- A provider with a state file against a provider in memory, for any relation between the two
-- states: over a history, with and without faults of the file system.
use tesera.Common.{
  ◌≡◌, refl, Bool, true, false, List, [], ◌∷◌, ◌⊎◌, inl, inr, Bool-cases, Option, none, some,
  if◌then◌else◌,
}
use tesera.Policy.{ApprovalRequest, ApprovalDecision, is_allowed, decide_all}
use tesera.Policy.StateFile.{
  StateFile, FileSystem, Action, raise_corrupt, answer, write, holds, finish, locked, after_read,
  read_json_state,
}
use tesera.Policy.StateFile.Counts.{as_read}
use tesera.Json.{Fields, obj}

abbrev pub Decided : Type 0
Decided = ApprovalRequest × ApprovalDecision

-- A file system on which every call succeeds.
abbrev pub working : FileSystem
working = record { opens = true; writes = true }

-- A run of the provider in memory, in which a call may also be refused without effect.
pub data FaultyRun {ℓ} {S : Type ℓ} (spec : ApprovalRequest → S → ApprovalDecision × S)
    : S → List Decided → S → Type ℓ where
  done : {s : S} → FaultyRun spec s [] s
  served :
      {s s' : S} {ds : List Decided} (r : ApprovalRequest)
      → FaultyRun spec (spec r s).1 ds s'
      → FaultyRun spec s ((r, (spec r s).0) ∷ ds) s'
  refused :
      {s s' : S} {ds : List Decided} (r : ApprovalRequest) (d : ApprovalDecision)
      → is_allowed d.decision ≡ false
      → FaultyRun spec s ds s'
      → FaultyRun spec s ((r, d) ∷ ds) s'

-- A history of calls, each with the faults that it meets.
unfoldable pub run :
    (FileSystem → ApprovalRequest → StateFile → ApprovalDecision × StateFile)
    → List (FileSystem × ApprovalRequest)
    → StateFile
    → List Decided × StateFile
run impl [] file = ([], file)
run impl ((fs, r) ∷ calls) file =
    let (d, file') = impl fs r file in
    let (ds, file'') = run impl calls file' in ((r, d) ∷ ds, file'')

module _ {ℓ} {S : Type ℓ} (Represents : StateFile → S → Type 0) where
  -- What one call does: the call in memory, or a refusal that leaves the file as it was.
  abbrev pub Follows : StateFile → S → ApprovalDecision × S → ApprovalDecision × StateFile → Type 0
  Follows file s (d, s') (e, file') = (e ≡ d) × Represents file' s'

  abbrev pub Refuses : StateFile → ApprovalDecision × StateFile → Type 0
  Refuses file (e, file') = (is_allowed e.decision ≡ false) × (file' ≡ file)

  -- What the locked region does to follow the call in memory.
  abbrev pub Plans : StateFile → S → ApprovalDecision × S → Action → Type 0
  Plans file s d raise_corrupt = ⊥
  Plans file s d (answer e) = Follows file s d (e, file)
  Plans file s d (write w e) = Follows file s d (e, holds (obj w))

  -- Two tests on the same Boolean.
  pub Plans-if :
      (c : Bool) (file : StateFile) (s : S) (d e : ApprovalDecision × S) (a b : Action)
      → Plans file s d a
      → Plans file s e b
      → Plans file s (if c then d else e) (if c then a else b)
  Plans-if true file s d e a b h k = h
  Plans-if false file s d e a b h k = k

  -- The region with working calls follows; with any calls it follows or refuses.
  pub finish-works :
      (file : StateFile) (s : S) (d : ApprovalDecision × S) (a : Action)
      → Plans file s d a
      → Follows file s d (finish working file a)
  unfolding finish
  finish-works file s d raise_corrupt h = absurd h
  finish-works file s d (answer e) h = h
  finish-works file s d (write w e) h = h

  pub finish-Follows :
      (fs : FileSystem) (file : StateFile) (s : S) (d : ApprovalDecision × S) (a : Action)
      → Plans file s d a
      → Refuses file (finish fs file a) ⊎ Follows file s d (finish fs file a)
  unfolding finish
  finish-Follows fs file s d raise_corrupt h = absurd h
  finish-Follows fs file s d (answer e) h = inr h
  finish-Follows fs file s d (write w e) h = elim (Bool-cases fs.writes) [
    | inl y ↦ rw y (inr h)
    | inr n ↦ rw n (inl (refl, refl))
  ]

  -- The same for the whole region, on a file that can be read.
  pub locked-works :
      (file : StateFile) (s : S) (d : ApprovalDecision × S) (region : Option Fields → Action)
      (o : Option Fields)
      → read_json_state file ≡ as_read o
      → Plans file s d (region o)
      → Follows file s d (locked working file region)
  unfolding locked after_read
  locked-works file s d region none e h = rw e (finish-works file s d (region none) h)
  locked-works file s d region (some w) e h = rw e (finish-works file s d (region (some w)) h)

  pub locked-Follows :
      (fs : FileSystem) (file : StateFile) (s : S) (d : ApprovalDecision × S)
      (region : Option Fields → Action) (o : Option Fields)
      → read_json_state file ≡ as_read o
      → Plans file s d (region o)
      → Refuses file (locked fs file region) ⊎ Follows file s d (locked fs file region)
  unfolding locked after_read
  locked-Follows fs file s d region o e h = elim (Bool-cases fs.opens) [
    | inr n ↦ rw n (inl (refl, refl))
    | inl y ↦ rw (y, e) (opened o h)
  ]
    where
      opened :
          (o : Option Fields)
          → Plans file s d (region o)
          → Refuses file (after_read fs file region (as_read o))
            ⊎ Follows file s d (after_read fs file region (as_read o))
      opened none h = finish-Follows fs file s d (region none) h
      opened (some w) h = finish-Follows fs file s d (region (some w)) h

  module _ (spec : ApprovalRequest → S → ApprovalDecision × S)
      (impl : FileSystem → ApprovalRequest → StateFile → ApprovalDecision × StateFile) where
    -- Without faults every decision of a history is the one in memory.
    pub history_refines :
        ((r : ApprovalRequest) (file : StateFile) (s : S)
          → Represents file s
          → Follows file s (spec r s) (impl working r file))
        → (reqs : List ApprovalRequest) (file : StateFile) (s : S) → Represents file s
        → let (ds, file') = decide_all (impl working) reqs file in
          let (es, s') = decide_all spec reqs s in (ds ≡ es) × Represents file' s'
    unfolding decide_all
    history_refines step [] file s h = (refl, h)
    history_refines step (r ∷ reqs) file s h =
        let (e, h') = step r file s h in
        let (es, h'') = history_refines step reqs (impl working r file).1 (spec r s).1 h' in
        (rw (e, es) refl, h'')

    -- With faults a history is one in memory in which some calls are refused.
    pub history_is_faulty :
        ((fs : FileSystem) (r : ApprovalRequest) (file : StateFile) (s : S)
          → Represents file s
          → Refuses file (impl fs r file) ⊎ Follows file s (spec r s) (impl fs r file))
        → (calls : List (FileSystem × ApprovalRequest)) (file : StateFile) (s : S)
        → Represents file s
        → (s' : S) × (let (ds, file') = run impl calls file in
            FaultyRun spec s ds s' × Represents file' s')
    unfolding run
    history_is_faulty step [] file s h = (s, (FaultyRun.done, h))
    history_is_faulty step ((fs, r) ∷ calls) file s h = elim (step fs r file s h) [
      | inl (d, e) ↦
          let (s', go) = history_is_faulty step calls file s h in
          (s', rw e (FaultyRun.refused r _ d go.0, go.1))
      | inr (e, h') ↦
          let (s', go) = history_is_faulty step calls (impl fs r file).1 (spec r s).1 h' in
          (s', rw e (FaultyRun.served r go.0, go.1))
    ]
