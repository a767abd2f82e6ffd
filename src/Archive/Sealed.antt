-- ===== src/Archive/Sealed.antt =====
-- Tamper evidence across archived files: the head of the live journal fixes every file behind it.
use tesera.Common.{
  ℕ, true, false, Option, none, some, List, [], ◌∷◌, String, ◌≡◌, refl, sym, ap, ◌∙◌, subst, All,
  map,
}
use tesera.Json.{Event, null, get, is_str, find}
use tesera.Json.Payload.{unsigned_payload, find-unsigned_payload, is_seal}
use tesera.Verification.{value, Crypto, Python}
use tesera.Verification.Event.{is_previous}
use tesera.Verification.Tamper.{head_from, NoCollision, chains_agree, is_previous-determines}
use tesera.Archive.{Directory, ArchiveChainReport, is_valid, verify_archive_chain}
use tesera.Archive.Custody.{IsFile, Custody, contents}
use tesera.Archive.Walk.{archive_chain-Custody}

-- Two events with the same payload have the same value under each name that is no seal.
payload-determines :
    (k : String) (x y : Event)
    → is_seal k ≡ false
    → unsigned_payload x ≡ unsigned_payload y
    → get k x ≡ get k y
unfolding get
payload-determines k x y n e =
    let same : find k x ≡ find k y =
      sym (find-unsigned_payload k x ∙ rw n refl)
      ∙ ap (find k) e
      ∙ find-unsigned_payload k y
      ∙ rw n refl in
    ap (λ o. elim o [ none ↦ null | some v ↦ v ]) same

-- No payload of the one histories has the digest of a different payload of the others.
abbrev pub NoCollisions : Crypto → List (List Event) → List (List Event) → Type 0
NoCollisions c hs gs = All (λ xs. All (NoCollision c xs) gs) hs

-- The payloads of a history.
abbrev pub payloads : List Event → List Event
payloads = map unsigned_payload

-- The last hash of the newest file.
abbrev pub live_head : List (List Event) → Option String
live_head [] = none
live_head (events ∷ _) = head_from none events

NoCollisions-tail :
    (c : Crypto) (hs : List (List Event)) (ys : List Event) (gs : List (List Event))
    → NoCollisions c hs (ys ∷ gs)
    → NoCollisions c hs gs
NoCollisions-tail c [] ys gs n = tt
NoCollisions-tail c (xs ∷ hs) ys gs n = (n.0.1, NoCollisions-tail c hs ys gs n.1)

same_first :
    (x y : Event) (xs ys : List Event)
    → payloads (x ∷ xs) ≡ payloads (y ∷ ys)
    → unsigned_payload x ≡ unsigned_payload y
same_first x y xs ys e = cc e

nonempty : (y : Event) (ys : List Event) → payloads [] ≡ payloads (y ∷ ys) → ⊥
nonempty y ys e = cc e

-- An archive event and an event that is none have different payloads.
not_archive :
    (x y : Event)
    → is_str "archive" (get "event_type" x) ≡ true
    → is_str "archive" (get "event_type" y) ≡ false
    → unsigned_payload x ≡ unsigned_payload y
    → ⊥
not_archive x y a n e =
    cc (sym a, ap (is_str "archive") (payload-determines "event_type" x y refl e), n)

module _ (directory directory' : Directory) (c : Crypto)
    (trusted trusted' : String → Option c.PublicKey) where
  files_agree :
      (name name' : String) (xs ys : List Event)
      → IsFile directory c trusted name xs
      → IsFile directory' c trusted' name' ys
      → NoCollision c xs ys
      → head_from none xs ≡ head_from none ys
      → payloads xs ≡ payloads ys
  files_agree name name' xs ys f g n e =
      chains_agree c trusted trusted' xs ys f.is_chain g.is_chain n e

  custodies_agree :
      {name name' : String} {hs gs : List (List Event)}
      → Custody directory c trusted name hs
      → Custody directory' c trusted' name' gs
      → NoCollisions c hs gs
      → live_head hs ≡ live_head gs
      → map payloads hs ≡ map payloads gs
  custodies_agree (Custody.empty_file f) (Custody.empty_file g) n e = refl
  custodies_agree (Custody.empty_file f) (Custody.genesis y {events = ys} g k) n e =
      absurd (nonempty y ys (files_agree _ _ [] (y ∷ ys) f g n.0.0 e))
  custodies_agree (Custody.empty_file f) (Custody.linked _ y {events = ys} g k _ _ _ _) n e =
      absurd (nonempty y ys (files_agree _ _ [] (y ∷ ys) f g n.0.0 e))
  custodies_agree (Custody.genesis x {events = xs} f k) (Custody.empty_file g) n e =
      absurd (nonempty x xs (sym (files_agree _ _ (x ∷ xs) [] f g n.0.0 e)))
  custodies_agree (Custody.genesis x {events = xs} f k) (Custody.genesis y {events = ys} g l) n e =
      ap (λ h. h ∷ []) (files_agree _ _ (x ∷ xs) (y ∷ ys) f g n.0.0 e)
  custodies_agree (Custody.genesis x {events = xs} f k)
        (Custody.linked _ y {events = ys} g l _ _ _ _) n e =
      let same = same_first x y xs ys (files_agree _ _ (x ∷ xs) (y ∷ ys) f g n.0.0 e) in
      absurd (not_archive y x l k (sym same))
  custodies_agree (Custody.linked _ x {events = xs} f k _ _ _ _) (Custody.empty_file g) n e =
      absurd (nonempty x xs (sym (files_agree _ _ (x ∷ xs) [] f g n.0.0 e)))
  custodies_agree (Custody.linked _ x {events = xs} f k _ _ _ _)
        (Custody.genesis y {events = ys} g l) n e =
      let same = same_first x y xs ys (files_agree _ _ (x ∷ xs) (y ∷ ys) f g n.0.0 e) in
      absurd (not_archive x y k l same)
  custodies_agree (Custody.linked _ x {events = xs} {prior = prior} {older = hs} f k _ _ head older)
        (Custody.linked _ y {events = ys} {prior = prior'} {older = gs} g l _ _ head' older') n e =
      let files = files_agree _ _ (x ∷ xs) (y ∷ ys) f g n.0.0 e in
      let link = payload-determines "prior_head" x y refl (same_first x y xs ys files) in
      let heads =
        is_previous-determines (head_from none prior) (head_from none prior') (get "prior_head" y)
          (subst (λ v. is_previous (head_from none prior) v ≡ true) link head) head' in
      let rest =
        custodies_agree older older' (NoCollisions-tail c (prior ∷ hs) (y ∷ ys) (prior' ∷ gs) n.1)
          heads in
      cc (files, rest)

  -- Tamper evidence across archives. If the reports on two chains of archives are valid, the live
  -- journals end with the same stored hash, and no payload of the one chain has the digest of a
  -- different payload of the other, then the chains have the same number of files and each file of
  -- the one has the payloads of the file at its place in the other: nothing that was archived was
  -- changed, removed or replaced. The two may be verified under different trusted keys.
  pub same_live_head_same_archives :
      (resolve resolve' : String → String) (py : Python) (max_links max_links' : ℕ)
      (live live' : String) (r r' : ArchiveChainReport)
      → verify_archive_chain directory resolve c trusted py max_links live ≡ value r
      → verify_archive_chain directory' resolve' c trusted' py max_links' live' ≡ value r'
      → is_valid r ≡ true
      → is_valid r' ≡ true
      → NoCollisions c (contents directory r.files_checked) (contents directory' r'.files_checked)
      → live_head (contents directory r.files_checked)
        ≡ live_head (contents directory' r'.files_checked)
      → map payloads (contents directory r.files_checked)
        ≡ map payloads (contents directory' r'.files_checked)
  same_live_head_same_archives resolve resolve' py m m' live live' r r' h h' v v' n e =
      custodies_agree (archive_chain-Custody directory resolve c trusted py m live r h v)
        (archive_chain-Custody directory' resolve' c trusted' py m' live' r' h' v') n e
