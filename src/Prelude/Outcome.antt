-- ===== src/Prelude/Outcome.antt =====
-- Results of code that may throw, for an error type of the component's own.
use mathlib.Core.Path.{◌≡◌, refl}
use mathlib.Core.Logic.{◌⊎◌, inl, inr}
use mathlib.Core.Bool.{Bool, true, false}
use mathlib.Core.List.{List, [], ◌∷◌}

pub data Outcome {ℓ} (E : Type ℓ) (A : Type ℓ) : Type ℓ where
  ok : A → Outcome E A
  err : E → Outcome E A

module _ {ℓ} {E A B : Type ℓ} where
  infixl 5 ◌>>=◌
  abbrev pub ◌>>=◌ : Outcome E A → (A → Outcome E B) → Outcome E B
  err thrown >>= next = err thrown
  ok value >>= next = next value

  -- What a bind that does not throw was made of.
  pub >>=-eq-ok :
      (first : Outcome E A) (next : A → Outcome E B) {result : B}
      → (first >>= next) ≡ ok result
      → (value : A) × (first ≡ ok value) × (next value ≡ ok result)
  >>=-eq-ok (err thrown) next returned = cc
  >>=-eq-ok (ok value) next returned = (value, refl, returned)

module _ {ℓ} {E A : Type ℓ} where
  pub Outcome-cases : (m : Outcome E A) → ((e : E) × (m ≡ err e)) ⊎ ((a : A) × (m ≡ ok a))
  Outcome-cases (ok a) = inr (a, refl)
  Outcome-cases (err e) = inl (e, refl)

-- `for` loops with an early return: the first element on which the test passes, a throw ending
-- the search.
module _ {E A : Type 0} where
  unfoldable pub find_ok : (A → Outcome E Bool) → List A → Outcome E (List A)
  find_ok p [] = ok []
  find_ok p (x ∷ xs) = p x >>= λ b. elim b [ true ↦ ok (x ∷ []) | false ↦ find_ok p xs ]
