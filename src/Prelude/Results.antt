-- ===== src/Prelude/Results.antt =====
-- Exceptions as values: an operation returns, or it raises one of its component's errors.
use mathlib.Core.Path.{◌≡◌, refl, subst}
use mathlib.Core.Logic.{◌↔◌, ◌⊎◌, inl, inr}
use native.Mathlib.Omega.{arith}
use mathlib.Core.Bool.{Bool, true, false}

pub data Result {ℓ} (E : Type 0) (A : Type ℓ) : Type ℓ where
  ok : A → Result E A
  raise : E → Result E A

module _ {ℓ κ} {E : Type 0} {A : Type ℓ} {B : Type κ} where
  infixl 5 ◌>>=◌ ◌>>◌
  abbrev pub ◌>>=◌ : Result E A → (A → Result E B) → Result E B
  m >>= next = elim m [ raise e ↦ raise e | ok value ↦ next value ]

  abbrev pub ◌>>◌ : Result E A → Result E B → Result E B
  m >> after = elim m [ raise e ↦ raise e | ok _ ↦ after ]

-- `if bad: raise e`
abbrev pub raise_if : {E : Type 0} → Bool → E → Result E (Unit {0})
raise_if true e = raise e
raise_if false e = ok tt

-- `except`: the error of one component seen as the error of another.
abbrev pub map_error {ℓ} : {E F : Type 0} {A : Type ℓ} → (E → F) → Result E A → Result F A
map_error f (ok a) = ok a
map_error f (raise e) = raise (f e)

pub raise_if-eq-ok : {E : Type 0} (b : Bool) (e : E) → raise_if b e ≡ ok tt → b ≡ false
raise_if-eq-ok b e h = ground arith

-- Either a check passes and its fact holds, or it raises and its fact fails.
abbrev pub Decides {ℓ} : {E : Type 0} {A : Type ℓ} → Result E A → A → Type 0 → Type ℓ
Decides {E} m a P = ((m ≡ ok a) × P) ⊎ ((e : E) × (m ≡ raise e) × (¬ P))

pub Decides→iff {ℓ} :
    {E : Type 0} {A : Type ℓ} (m : Result E A) (a : A) (P : Type 0) → Decides m a P → (m ≡ ok a) ↔ P
Decides→iff m a P (inl (e, p)) = (λ _. p, λ _. e)
Decides→iff m a P (inr (e, raised, fails)) = (λ h. cc, λ p. absurd (fails p))

pub Result-cases {ℓ} :
    {E : Type 0} {A : Type ℓ} (r : Result E A) → ((a : A) × (r ≡ ok a)) ⊎ ((e : E) × (r ≡ raise e))
Result-cases (ok a) = inl (a, refl)
Result-cases (raise e) = inr (e, refl)

-- What ran before a value was returned returned as well.
module _ {ℓ κ} {E : Type 0} {A : Type ℓ} {B : Type κ} (m : Result E A) where
  pub returns_before :
      (next : A → Result E B) (b : B) → m >>= next ≡ ok b → (a : A) × (m ≡ ok a) × (next a ≡ ok b)
  returns_before next b h = elim (Result-cases m) [
    | inl (a, ran) ↦ (a, ran, subst (λ m. m >>= next ≡ ok b) ran h)
    | inr (e, raised) ↦ (let no : raise e ≡ ok b = subst (λ m. m >>= next ≡ ok b) raised h in cc)
  ]
