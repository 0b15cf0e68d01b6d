-- ===== src/Base/Binds.antt =====
-- How a step of a `do` block goes on, or ends the block.
use mathlib.Core.Path.{◌≡◌, refl, ap, ◌∙◌, sym}
use mathlib.Core.Option.{Option, none, some}
use mathlib.Core.Logic.{◌⊎◌, inl, inr}
use native.Mathlib.Omega.{arith}
use garden_docker.Base.Effects.{
  Error, Outcome, ok, fail, panic, Go, ◌>>=◌, wrapping, wrap_outcome, continue, must_outcome,
}

-- The outcome of a block that ends at a step with this outcome, whose errors are wrapped by `f`:
-- none for a step that returns.
abbrev pub ended {ℓ κ} :
    {A : Type ℓ} {B : Type κ} → (Error → Error) → Outcome A → Option (Outcome B)
ended f (ok a) = none
ended f (fail e) = some (fail (f e))
ended f (panic m) = some (panic m)

module _ {S A B : Type 0} (m : Go S A) (k : A → Go S B) (s t : S) where
  pub bind_ok : (a : A) → m s ≡ (ok a, t) → (m >>= k) s ≡ k a t
  unfolding ◌>>=◌
  bind_ok a e = ap (λ (r : Outcome A × S). continue r.0 k r.1) e

  pub bind_fail : (x : Error) → m s ≡ (fail x, t) → (m >>= k) s ≡ (fail x, t)
  unfolding ◌>>=◌
  bind_fail x e = ap (λ (r : Outcome A × S). continue r.0 k r.1) e

  pub bind_panic :
      (p : garden_docker.Base.Text.Str) → m s ≡ (panic p, t) → (m >>= k) s ≡ (panic p, t)
  unfolding ◌>>=◌
  bind_panic p e = ap (λ (r : Outcome A × S). continue r.0 k r.1) e

module _ {S A B : Type 0} (f : Error → Error) (m : Go S A) (k : A → Go S B) (s t : S) where
  pub wrapped_ok : (a : A) → m s ≡ (ok a, t) → (wrapping f m >>= k) s ≡ k a t
  wrapped_ok a e =
      bind_ok (wrapping f m) k s t a (ap (λ (r : Outcome A × S). (wrap_outcome f r.0, r.1)) e)

  continue-ended :
      (o : Outcome A) (b : Outcome B)
      → ended f o ≡ some b
      → continue (wrap_outcome f o) k t ≡ (b, t)
  continue-ended o b h = ground arith

  pub wrapped_ended :
      (o : Outcome A) (b : Outcome B)
      → m s ≡ (o, t)
      → ended f o ≡ some b
      → (wrapping f m >>= k) s ≡ (b, t)
  unfolding ◌>>=◌
  wrapped_ended o b e h =
      ap (λ (r : Outcome A × S). continue (wrap_outcome f r.0) k r.1) e ∙ continue-ended o b h

-- A block that returns has its first step return.
pub bind_returns :
    {S A B : Type 0} (m : Go S A) (f : A → Go S B) (s : S) (b : B)
    → ((m >>= f) s).0 ≡ ok b
    → (a : A) × ((m s).0 ≡ ok a) × ((m >>= f) s ≡ f a (m s).1)
unfolding ◌>>=◌
bind_returns {A = A} m f s b = go (m s).0
  where
    go :
        (o : Outcome A)
        → (continue o f (m s).1).0 ≡ ok b
        → (a : A) × (o ≡ ok a) × (continue o f (m s).1 ≡ f a (m s).1)
    go (ok a) e = (a, refl, refl)
    go (fail x) e = cc
    go (panic x) e = cc

-- And the rest returns the same.
pub bind_next :
    {S A B : Type 0} (m : Go S A) (f : A → Go S B) (s : S) (b : B)
    → ((m >>= f) s).0 ≡ ok b
    → (a : A) × ((m s).0 ≡ ok a) × ((f a (m s).1).0 ≡ ok b)
bind_next {S = S} {B = B} m f s b h =
    let (a, e, same) = bind_returns m f s b h in
    (a, e, sym (ap (λ (r : Outcome B × S). r.0) same) ∙ h)

pub must_ok : {A : Type 0} (o : Outcome A) (a : A) → must_outcome o ≡ ok a → o ≡ ok a
must_ok (ok b) a h = h
must_ok (fail e) a h = cc
must_ok (panic m) a h = cc

error_of : {A : Type 0} → Error → Outcome A → Error
error_of d (fail e) = e
error_of d _ = d

pub fail-injective : {A : Type 0} (x e : Error) → ◌≡◌ {A = Outcome A} (fail x) (fail e) → x ≡ e
unfolding error_of
fail-injective {A = A} x e h = ap (error_of {A = A} x) h

-- A block that fails has its first step fail with the same error, or return and the rest fail.
pub bind_fails :
    {S A B : Type 0} (m : Go S A) (f : A → Go S B) (s : S) (e : Error)
    → ((m >>= f) s).0 ≡ fail e
    → ((m s).0 ≡ fail e) ⊎ ((a : A) × ((f a (m s).1).0 ≡ fail e))
unfolding ◌>>=◌
bind_fails {A = A} m f s e = go (m s).0
  where
    go :
        (o : Outcome A)
        → (continue o f (m s).1).0 ≡ fail e
        → (o ≡ fail e) ⊎ ((a : A) × ((f a (m s).1).0 ≡ fail e))
    go (ok a) h = inr (a, h)
    go (fail x) h = inl (ap fail (fail-injective x e h))
    go (panic x) h = cc

-- What a step that ends its block has, and has not, come to.
module _ {A B : Type 0} (f : Error → Error) where
  pub ended-made_nothing :
      (o : Outcome A) (b : Outcome B) (x : B) → ended f o ≡ some b → ¬ (b ≡ ok x)
  ended-made_nothing (ok a) b x h p = cc
  ended-made_nothing (fail e) b x h p = cc
  ended-made_nothing (panic e) b x h p = cc

  pub ended-fail :
      (o : Outcome A) (b : Outcome B) (e : Error) → o ≡ fail e → ended f o ≡ some b → b ≡ fail (f e)
  ended-fail (ok a) b e p h = cc
  ended-fail (fail x) b e p h = cc
  ended-fail (panic x) b e p h = cc

  pub ended-ok : (o : Outcome A) (b : Outcome B) (a : A) → o ≡ ok a → ¬ (ended f o ≡ some b)
  ended-ok (ok x) b a p h = cc
  ended-ok (fail x) b a p h = cc
  ended-ok (panic x) b a p h = cc
