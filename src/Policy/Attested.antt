-- ===== src/Policy/Attested.antt =====
-- `AttestedApprovalProvider` of src/tesera/policy.py: what an inner provider allows is stamped with
-- an operator identity, from the constructor or from the environment.
pub mod Stamp
pub mod Attests
mod Tests
use tesera.Common.{
  ℕ, Bool, true, false, not, Option, none, some, List, [], ◌∷◌, String, ◌||◌, ◌&&◌, any_of, length,
  leb, ltb, ◌==◌, str_eq, if◌then◌else◌,
}
use Prim.Native.Char.{Char, code}
use tesera.Verification.Shape.{codes}
use tesera.Policy.{
  ApprovalRequest, ApprovalDecision, is_allowed, deny, text, Outcome, returned, raised, Provider,
}

-- `str.isspace` of Python, by the code point.
abbrev pub is_space : ℕ → Bool
is_space c =
    (leb 9 c && leb c 13)
    || ((leb 28 c && leb c 32)
        || ((leb 0x2000 c && leb c 0x200a)
            || any_of (λ d. d == c)
                (0x85 ∷ 0xa0 ∷ 0x1680 ∷ 0x2028 ∷ 0x2029 ∷ 0x202f ∷ 0x205f ∷ 0x3000 ∷ [])))

-- A word in front of the others, unless it is empty.
abbrev pub push : String → List String → List String
push String.[] words = words
push (String.◌∷◌ c w) words = String.◌∷◌ c w ∷ words

-- The word that a text starts with, which may be empty, and the words behind it.
unfoldable pub split_head : String → String × List String
split_head String.[] = (String.[], [])
split_head (String.◌∷◌ c s) =
    let rest = split_head s in
    if is_space (code c) then (String.[], push rest.0 rest.1) else (String.◌∷◌ c rest.0, rest.1)

-- `s.split()`
abbrev pub split : String → List String
unfolding split_head
split s = let (w, words) = split_head s in push w words

abbrev pub append : String → String → String
append String.[] t = t
append (String.◌∷◌ c s) t = String.◌∷◌ c (append s t)

-- `" ".join(words)`
abbrev pub join_after : String → List String → String
join_after w [] = w
join_after w (v ∷ words) = append w (append " " (join_after v words))

abbrev pub join : List String → String
join [] = String.[]
join (w ∷ words) = join_after w words

abbrev pub is_control : ℕ → Bool
is_control c = ltb c 32 || c == 127

-- The tests on a stamp.
abbrev pub is_malformed : String → Bool
is_malformed s = str_eq s "" || (ltb 120 (length (codes s)) || any_of is_control (codes s))

-- `_resolve_identity`, on the value of the environment variable.
abbrev pub non_empty : Option String → Option String
non_empty none = none
non_empty (some s) = if str_eq s "" then none else some s

abbrev pub resolve_identity : Option String → Option String → Option String
resolve_identity none environ = non_empty environ
resolve_identity (some s) environ = some s

abbrev pub stamp_of : String → String
unfolding split
stamp_of identity = join (split identity)

unfoldable pub stamp : ApprovalDecision → Option String → ApprovalDecision
unfolding stamp_of
stamp d none = deny (text "no approver identity configured; failing closed")
stamp d (some identity) =
    if is_malformed (stamp_of identity)
    then deny (text "approver identity is malformed; failing closed")
    else record { decision = d.decision; reason = d.reason; approved_by = some (stamp_of identity) }

module _ {ℓ} {S : Type ℓ} (inner : Provider S) (approved_by environ : Option String) where
  unfoldable pub after_inner : Outcome → Outcome
  unfolding stamp
  after_inner (raised e) = raised e
  after_inner (returned d) =
      if is_allowed d.decision
      then returned (stamp d (resolve_identity approved_by environ))
      else returned d

  unfoldable pub decide : Provider S
  unfolding after_inner
  decide request s = let (o, s') = inner request s in (after_inner o, s')
