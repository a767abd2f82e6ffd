-- ===== src/Journal/Tail.antt =====
-- `_read_last_event_hash` and `_event_hash_from_line` of src/tesera/journal.py, on the bytes of the
-- journal: the hash that the next event links to is read from the end, in windows that double.
pub mod Window
mod Tests
use tesera.Common.{
  ℕ, zero, suc, ◌-◌, ◌*◌, Bool, true, false, Option, none, some, List, [], ◌∷◌, ◌||◌, ◌&&◌, ◌==◌,
  any_of, length, if◌then◌else◌, String,
}
use tesera.Json.{Json, Fields, str, obj, find, as_str}

abbrev pub Bytes : Type 0
Bytes = List ℕ

abbrev pub is_newline : ℕ → Bool
is_newline b = b == 10

abbrev pub is_end : ℕ → Bool
is_end b = b == 13 || b == 10

abbrev pub is_empty : Bytes → Bool
is_empty [] = true
is_empty (_ ∷ _) = false

-- `chunk.rstrip(b"\r\n")`
unfoldable pub rstrip : Bytes → Bytes
rstrip [] = []
rstrip (b ∷ bs) = let rest = rstrip bs in if is_empty rest && is_end b then [] else b ∷ rest

abbrev pub has_newline : Bytes → Bool
has_newline bs = any_of is_newline bs

-- `stripped[stripped.rfind(b"\n") + 1 :]`, which is all of it if there is no newline.
unfoldable pub after_newline : Bytes → Bytes
after_newline [] = []
after_newline (b ∷ bs) =
    let rest = after_newline bs in
    if has_newline bs then rest else if is_newline b then bs else b ∷ bs

-- `bs[n:]`
unfoldable pub drop : ℕ → Bytes → Bytes
drop zero bs = bs
drop (suc n) [] = []
drop (suc n) (b ∷ bs) = drop n bs

-- What one pass of the loop does: it finds no line in the file, finds the last line, or has to
-- widen the window.
pub data Pass : Type 0 where
  genesis : Pass
  line : Bytes → Pass
  widen : Pass

-- The body of the loop after the read, on the start of the window and the stripped chunk.
unfoldable pub inspect : ℕ → Bytes → Pass
unfolding after_newline
inspect zero [] = genesis
inspect (suc start) [] = widen
inspect zero (b ∷ bs) = line (after_newline (b ∷ bs))
inspect (suc start) (b ∷ bs) = if has_newline (b ∷ bs) then line (after_newline (b ∷ bs)) else widen

-- One pass, with the window in bytes.
unfoldable pub look : ℕ → Bytes → Pass
unfolding rstrip drop inspect
look window content =
    let start = length content - window in inspect start (rstrip (drop start content))

unfoldable pub next : (Pass → Pass) → Pass → Pass
next again genesis = genesis
next again (line l) = line l
next again widen = again widen

-- The loop: `widen` is the answer only when the fuel runs out.
unfoldable pub find_line : ℕ → ℕ → Bytes → Pass
unfolding look next
find_line zero window content = widen
find_line (suc fuel) window content =
    let rest = find_line fuel (window * 2) content in next (λ _. rest) (look window content)

-- What the caller gets: `none` in `hash` is the genesis hash, a JournalError says that the tail is
-- corrupt or that its hash is no text, and JSON that is no object raises a TypeError.
pub data Tail : Type 0 where
  hash : Option String → Tail
  corrupt non_string no_object : Tail

-- The `event_hash` of a JSON value.
unfoldable pub hash_of : Option Json → Tail
unfolding find as_str
hash_of none = corrupt
hash_of (some (obj fs)) = elim (find "event_hash" fs) [
  | none ↦ corrupt
  | some v ↦ elim (as_str v) [ none ↦ non_string | some s ↦ hash (some s) ]
]
hash_of (some v) = no_object

-- The hash that the last line gives, with the bytes of a line parsed by `loads`; the loop always
-- ends with a line or at the start of the file.
unfoldable pub hash_from : (Bytes → Option Json) → Pass → Tail
unfolding hash_of
hash_from loads genesis = hash none
hash_from loads (line l) = hash_of (loads l)
hash_from loads widen = corrupt

-- `_read_last_event_hash`, with the fuel of the loop and the width of its first window.
unfoldable pub read_last_event_hash : ℕ → ℕ → (Bytes → Option Json) → Bytes → Tail
unfolding find_line hash_from
read_last_event_hash fuel window loads [] = hash none
read_last_event_hash fuel window loads (b ∷ bs) = hash_from loads (find_line fuel window (b ∷ bs))
