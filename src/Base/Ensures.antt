-- ===== src/Base/Ensures.antt =====
-- Postconditions of code with effects: what holds of the value and the state if it returns one.
use mathlib.Core.Path.{◌≡◌, refl, ap, subst}
use garden_docker.Base.Effects.{Outcome, ok, fail, panic, Go, continue, ◌>>=◌}

module _ {ℓ} {A : Type ℓ} where
  value_of : A → Outcome A → A
  value_of a (ok b) = b
  value_of a _ = a

  pub ok-injective : (a b : A) → ok a ≡ ok b → a ≡ b
  unfolding value_of
  ok-injective a b p = ap (value_of a) p

pub record Ensures {ℓ} {S A : Type ℓ} (P : A → S → Type ℓ) (r : Outcome A × S) : Type ℓ where
  pub holds : (a : A) → r.0 ≡ ok a → P a r.1

module _ {ℓ} {S A : Type ℓ} where
  -- What holds of the state on every outcome.
  pub Ensures-always : (P : S → Type ℓ) (r : Outcome A × S) → P r.1 → Ensures (λ a. P) r
  Ensures-always P r h = record { holds = λ a e. h }

  pub Ensures-pure : (P : A → S → Type ℓ) (a : A) (s : S) → P a s → Ensures P (ok a, s)
  Ensures-pure P a s h = record { holds = λ b e. subst (λ x. P x s) (ok-injective a b e) h }

module _ {ℓ} {S A B : Type ℓ} where
  bind-cases :
      (P : A → S → Type ℓ) (Q : B → S → Type ℓ) (o : Outcome A) (s : S) (f : A → Go S B)
      → Ensures P (o, s)
      → ((a : A) (t : S) → P a t → Ensures Q (f a t))
      → Ensures Q (continue o f s)
  bind-cases P Q (ok a) s f h k = k a s (h.holds a refl)
  bind-cases P Q (fail e) s f h k = record { holds = λ a p. cc }
  bind-cases P Q (panic m) s f h k = record { holds = λ a p. cc }

  -- A step of a `do` block: the rest may use what the step ensures.
  pub Ensures-bind :
      (P : A → S → Type ℓ) (Q : B → S → Type ℓ) (m : Go S A) (f : A → Go S B) (s : S)
      → Ensures P (m s)
      → ((a : A) (t : S) → P a t → Ensures Q (f a t))
      → Ensures Q ((m >>= f) s)
  unfolding ◌>>=◌
  Ensures-bind P Q m f s h k = bind-cases P Q (m s).0 (m s).1 f h k
