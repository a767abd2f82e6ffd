-- ===== src/Journal/Tail/Window.antt =====
-- The windowed read of `_read_last_event_hash` of src/tesera/journal.py finds the last line.
use tesera.Common.{
  ℕ, zero, suc, ◌-◌, ◌*◌, ◌^◌, ◌≤◌, ◌<◌, ◌≡◌, refl, ap, sym, subst, ◌∙◌, ◌≢◌, true, false, [], ◌∷◌,
  ◌++◌, length, arith, Bool-cases, inl, inr, Option,
}
use native.Mathlib.Nat.{pow-succ', mul_assoc}
use tesera.Json.{Json}
use tesera.Journal.Tail.{
  Bytes, Pass, genesis, line, widen, rstrip, after_newline, has_newline, drop, inspect, look, next,
  find_line, hash_from, read_last_event_hash, is_empty,
}

-- The last line of the whole file: everything after the last newline, once the line ends at the
-- end of the file are taken off.
unfoldable pub last_line : Bytes → Pass
last_line content = inspect 0 (rstrip content)

take : ℕ → Bytes → Bytes
take zero bs = []
take (suc n) [] = []
take (suc n) (b ∷ bs) = b ∷ take n bs

take-drop : (n : ℕ) (bs : Bytes) → take n bs ++ drop n bs ≡ bs
unfolding take drop
take-drop zero bs = refl
take-drop (suc n) [] = refl
take-drop (suc n) (b ∷ bs) = ap (λ l. b ∷ l) (take-drop n bs)

is_empty-append : (xs ys : Bytes) → is_empty ys ≡ false → is_empty (xs ++ ys) ≡ false
is_empty-append [] ys h = h
is_empty-append (x ∷ xs) ys h = refl

rstrip-append : (xs ys : Bytes) → is_empty (rstrip ys) ≡ false → rstrip (xs ++ ys) ≡ xs ++ rstrip ys
unfolding rstrip
rstrip-append [] ys h = refl
rstrip-append (x ∷ xs) ys h =
    let ih = rstrip-append xs ys h in rw (ih, is_empty-append xs (rstrip ys) h) refl

has_newline-append : (xs ys : Bytes) → has_newline ys ≡ true → has_newline (xs ++ ys) ≡ true
has_newline-append [] ys h = h
has_newline-append (x ∷ xs) ys h = ground (arith, has_newline-append xs ys h)

after_newline-append :
    (xs ys : Bytes) → has_newline ys ≡ true → after_newline (xs ++ ys) ≡ after_newline ys
unfolding after_newline
after_newline-append [] ys h = refl
after_newline-append (x ∷ xs) ys h = rw (has_newline-append xs ys h) (after_newline-append xs ys h)

inspect-zero : (bs : Bytes) → is_empty bs ≡ false → inspect 0 bs ≡ line (after_newline bs)
unfolding inspect
inspect-zero [] h = absurd (cc h)
inspect-zero (b ∷ bs) h = refl

-- A chunk that holds a newline, once it is stripped, shows the last line of the file.
last_line-chunk :
    (start : ℕ) (content : Bytes)
    → has_newline (rstrip (drop start content)) ≡ true
    → is_empty (rstrip (drop start content)) ≡ false
    → last_line content ≡ line (after_newline (rstrip (drop start content)))
unfolding last_line
last_line-chunk start content y filled =
    let front = take start content in
    let chunk = rstrip (drop start content) in
    let whole : rstrip content ≡ front ++ chunk =
      ap rstrip (sym (take-drop start content)) ∙ rstrip-append front (drop start content) filled in
    ap (inspect 0) whole
    ∙ inspect-zero (front ++ chunk) (is_empty-append front chunk filled)
    ∙ ap line (after_newline-append front chunk y)

-- A pass that finds a line or the start of the file finds what the whole file shows.
inspect-found :
    (start : ℕ) (content chunk : Bytes)
    → rstrip (drop start content) ≡ chunk
    → inspect start chunk ≢ widen
    → inspect start chunk ≡ last_line content
unfolding last_line inspect drop
inspect-found zero content chunk e h = ap (inspect 0) (sym e)
inspect-found (suc start) content [] e h = absurd (h refl)
inspect-found (suc start) content (b ∷ bs) e h = elim (Bool-cases (has_newline (b ∷ bs))) [
  | inr n ↦ absurd (h (rw n refl))
  | inl y ↦ rw y (
      sym (
        last_line-chunk (suc start) content (ap has_newline e ∙ y) (ap is_empty e)
        ∙ ap (λ c. line (after_newline c)) e))
]

last_line-ends : (content : Bytes) → last_line content ≢ widen
unfolding last_line inspect
last_line-ends content = go (rstrip content)
  where
    go : (bs : Bytes) → inspect 0 bs ≢ widen
    go [] h = cc h
    go (b ∷ bs) h = cc h

next-found :
    (again : Pass → Pass) (p q : Pass)
    → q ≢ widen
    → (p ≢ widen → p ≡ q)
    → again p ≡ q
    → next again p ≡ q
unfolding next
next-found again genesis q ends found h = found (λ e. cc e)
next-found again (line l) q ends found h = found (λ e. cc e)
next-found again widen q ends found h = h

next-found_last : (again : Pass → Pass) (p : Pass) → p ≢ widen → next again p ≡ p
unfolding next
next-found_last again genesis h = refl
next-found_last again (line l) h = refl
next-found_last again widen h = absurd (h refl)

look-found :
    (window : ℕ) (content : Bytes)
    → look window content ≢ widen
    → look window content ≡ last_line content
unfolding look
look-found window content h = inspect-found (length content - window) content _ refl h

-- A window that is as long as the file shows it all.
look-whole :
    (window : ℕ) (content : Bytes)
    → length content ≤ window
    → look window content ≡ last_line content
unfolding look last_line drop
look-whole window content h = let e : length content - window ≡ 0 = omega arith in rw e refl

widened : (window fuel : ℕ) → window * 2 ^ suc fuel ≡ window * 2 * 2 ^ fuel
widened window fuel = ap (λ n. window * n) (pow-succ' 2 fuel) ∙ sym (mul_assoc window 2 (2 ^ fuel))

wider : (w p : ℕ) → 0 < w → p ≤ w * p
wider zero p h = absurd (omega (arith, h))
wider (suc w) p h = omega arith

find_line-last :
    (fuel window : ℕ) (content : Bytes)
    → 0 < window
    → length content ≤ window * 2 ^ fuel
    → find_line (suc fuel) window content ≡ last_line content
unfolding find_line
find_line-last zero window content pos h =
    rw (look-whole window content (omega (arith, h)))
      (next-found_last (λ _. widen) (last_line content) (last_line-ends content))
find_line-last (suc fuel) window content pos h =
    next-found (λ _. find_line (suc fuel) (window * 2) content) (look window content)
      (last_line content) (last_line-ends content) (look-found window content)
      (find_line-last fuel (window * 2) content (omega arith)
        (subst (λ n. length content ≤ n) (widened window fuel) h))

-- The hash that the next event links to is the `event_hash` of the last line of the journal, the
-- line that is left once the line ends at the end of the file are taken off, or the genesis hash if
-- there is none: whatever the width of the first window, and however long the last line is, the
-- loop ends, after at most `fuel + 1` windows if the file has at most `2 ^ fuel` bytes.
pub read_last_event_hash-last :
    (fuel window : ℕ) (loads : Bytes → Option Json) (content : Bytes)
    → 0 < window
    → length content ≤ 2 ^ fuel
    → (read_last_event_hash (suc fuel) window loads content ≡ hash_from loads (last_line content))
      × (last_line content ≢ widen)
unfolding read_last_event_hash
read_last_event_hash-last fuel window loads [] pos h =
    (unfold last_line hash_from in refl, last_line-ends [])
read_last_event_hash-last fuel window loads (b ∷ bs) pos h = (
  ap (hash_from loads)
      (find_line-last fuel window (b ∷ bs) pos (omega (arith, h, wider window (2 ^ fuel) pos))),
  last_line-ends (b ∷ bs),
)
