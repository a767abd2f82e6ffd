-- ===== src/Journal/Tail/Tests.antt =====
-- Runs of the windowed read of the tail of a journal.
use tesera.Common.{◌≡◌, ◌≢◌, refl, some, none, Option, [], ◌∷◌, arith}
use tesera.Json.{Json, str, field, end, obj}
use tesera.Journal.Tail.{Bytes, genesis, line, widen, find_line, hash_from, read_last_event_hash}
use tesera.Journal.Tail.Window.{last_line, read_last_event_hash-last}

-- Two lines, the second longer than two bytes, with line ends after it.
abbrev content : Bytes
content = 1 ∷ 2 ∷ 10 ∷ 3 ∷ 4 ∷ 5 ∷ 6 ∷ 13 ∷ 10 ∷ []

abbrev loads : Bytes → Option Json
loads [] = none
loads (b ∷ bs) = some (obj (field "event_hash" (str "h") end))

second_line : find_line 4 1 content ≡ line (3 ∷ 4 ∷ 5 ∷ 6 ∷ [])
unfolding find_line
second_line = refl

too_few_windows : find_line 2 1 content ≡ widen
unfolding find_line
too_few_windows = refl

only_line_ends : find_line 3 1 (10 ∷ 10 ∷ []) ≡ genesis
unfolding find_line
only_line_ends = refl

read_last_event_hash-last_example :
    (read_last_event_hash 5 1 loads content ≡ hash_from loads (last_line content))
    × (last_line content ≢ widen)
read_last_event_hash-last_example =
    read_last_event_hash-last 4 1 loads content (omega arith) (omega arith)
