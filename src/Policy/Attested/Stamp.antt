-- ===== src/Policy/Attested/Stamp.antt =====
-- The white space of a stamp of src/tesera/policy.py: words with one blank between two of them.
use tesera.Common.{
  Bool, true, false, not, List, [], ◌∷◌, String, ◌&&◌, all_of, ◌≡◌, refl, ap, sym, ◌∙◌, Bool-cases,
  inl, inr, arith,
}
use Prim.Native.Char.{code}
use tesera.Policy.Attested.{is_space, push, split_head, split, append, join_after, join, stamp_of}

abbrev no_space : String → Bool
no_space String.[] = true
no_space (String.◌∷◌ c s) = not (is_space (code c)) && no_space s

abbrev is_word : String → Bool
is_word String.[] = false
is_word (String.◌∷◌ c s) = no_space (String.◌∷◌ c s)

push-words :
    (w : String) (ws : List String)
    → no_space w ≡ true
    → all_of is_word ws ≡ true
    → all_of is_word (push w ws) ≡ true
push-words String.[] ws h k = k
push-words (String.◌∷◌ c w) ws h k = ground (arith, h, k)

split_head-words :
    (s : String) → (no_space (split_head s).0 ≡ true) × (all_of is_word (split_head s).1 ≡ true)
unfolding split_head
split_head-words String.[] = (refl, refl)
split_head-words (String.◌∷◌ c s) =
    let (h, k) = split_head-words s in
    elim (Bool-cases (is_space (code c))) [
      | inl y ↦ rw y (refl, push-words (split_head s).0 (split_head s).1 h k)
      | inr n ↦ rw n (rw n h, k)
    ]

split_words : (s : String) → all_of is_word (split s) ≡ true
unfolding split
split_words s = let (h, k) = split_head-words s in push-words (split_head s).0 (split_head s).1 h k

append-nil : (w : String) → append w String.[] ≡ w
append-nil String.[] = refl
append-nil (String.◌∷◌ c w) = ap (λ t. String.◌∷◌ c t) (append-nil w)

-- A word in front is part of the first word.
split_head-append :
    (w s : String)
    → no_space w ≡ true
    → split_head (append w s) ≡ (append w (split_head s).0, (split_head s).1)
unfolding split_head
split_head-append String.[] s h = refl
split_head-append (String.◌∷◌ c w) s h =
    let here : is_space (code c) ≡ false = ground (arith, h) in
    let rest : no_space w ≡ true = ground (arith, h) in rw (here, split_head-append w s rest) refl

push-word : (w : String) (ws : List String) → is_word w ≡ true → push w ws ≡ w ∷ ws
push-word String.[] ws h = absurd (cc h)
push-word (String.◌∷◌ c w) ws h = refl

no_space-word : (w : String) → is_word w ≡ true → no_space w ≡ true
no_space-word String.[] h = absurd (cc h)
no_space-word (String.◌∷◌ c w) h = h

split_head-join_after :
    (w : String) (ws : List String)
    → all_of is_word (w ∷ ws) ≡ true
    → split_head (join_after w ws) ≡ (w, ws)
unfolding split_head
split_head-join_after w [] h =
    let word : is_word w ≡ true = ground (arith, h) in
    ap split_head (sym (append-nil w))
    ∙ split_head-append w String.[] (no_space-word w word)
    ∙ ap (λ t. (t, [])) (append-nil w)
split_head-join_after w (v ∷ ws) h =
    let word : is_word w ≡ true = ground (arith, h) in
    let next : is_word v ≡ true = ground (arith, h) in
    let words : all_of is_word (v ∷ ws) ≡ true = ground (arith, h) in
    split_head-append w (append " " (join_after v ws)) (no_space-word w word)
    ∙ ap (λ p. (append w String.[], push p.0 p.1)) (split_head-join_after v ws words)
    ∙ rw (push-word v ws next, append-nil w) refl

split-join : (ws : List String) → all_of is_word ws ≡ true → split (join ws) ≡ ws
unfolding split split_head
split-join [] h = refl
split-join (w ∷ ws) h =
    let word : is_word w ≡ true = ground (arith, h) in
    ap (λ p. push p.0 p.1) (split_head-join_after w ws h) ∙ push-word w ws word

-- A stamp has no white space to take out.
pub stamp_of_twice : (s : String) → stamp_of (stamp_of s) ≡ stamp_of s
unfolding stamp_of
stamp_of_twice s = ap join (split-join (split s) (split_words s))
