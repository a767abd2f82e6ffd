-- ===== src/Verification/Facts.antt =====
-- Inversion of the computations of src/tesera/verification.py that end without an issue.
use tesera.Common.{ℕ, Bool, true, false, List, [], ◌∷◌, ◌++◌, ◌≡◌, refl}
use tesera.Verification.{IssueCode, Checked, value, raises, ◌>>=◌, issue_if}
use tesera.Verification.Journal.{at_line, is_empty}

pub bind-value {ℓ κ} :
    {A : Type ℓ} {B : Type κ} (m : Checked A) (f : A → Checked B) (b : B)
    → (m >>= f) ≡ value b
    → (a : A) × (m ≡ value a) × (f a ≡ value b)
bind-value (value a) f b h = (a, refl, h)
bind-value (raises e) f b h = absurd (cc h)

pub value-inj {ℓ} : {A : Type ℓ} (a b : A) → value a ≡ value b → a ≡ b
value-inj a b h = cc h

pub append-empty {ℓ} : {A : Type ℓ} (xs ys : List A) → xs ++ ys ≡ [] → (xs ≡ []) × (ys ≡ [])
append-empty [] ys h = (refl, h)
append-empty (x ∷ xs) ys h = absurd (cc h)

pub issue_if-none : (b : Bool) (code : IssueCode) → issue_if b code ≡ [] → b ≡ false
issue_if-none true code h = absurd (cc h)
issue_if-none false code h = refl

pub at_line-empty : (n : ℕ) (codes : List IssueCode) → at_line n codes ≡ [] → codes ≡ []
at_line-empty n [] h = refl
at_line-empty n (x ∷ xs) h = absurd (cc h)

pub is_empty-true {ℓ} : {A : Type ℓ} (xs : List A) → is_empty xs ≡ true → xs ≡ []
is_empty-true [] h = refl
is_empty-true (x ∷ xs) h = absurd (cc h)

pub append-nonempty {ℓ} : {A : Type ℓ} (xs : List A) (x : A) → xs ++ (x ∷ []) ≡ [] → ⊥
append-nonempty [] x h = cc h
append-nonempty (y ∷ ys) x h = cc h
