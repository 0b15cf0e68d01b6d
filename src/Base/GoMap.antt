-- ===== src/Base/GoMap.antt =====
-- Go's `map[string]V`: its entries, in an order that the program cannot rely on.
pub mod Same
use mathlib.Core.Path.{◌≡◌, refl, ◌∙◌}
use mathlib.Core.Logic.{◌↔◌, ◌⊎◌, inl, inr}
use mathlib.Core.Option.{Option, none, some}
use mathlib.Core.List.{List, [], ◌∷◌, ◌++◌, Permᴰ}
use mathlib.Core.List.Permᴰ
use native.Mathlib.Omega.{arith}
use garden_docker.Base.Text.{Str, if◌then◌else◌, ◌==◌}

-- `e` occurs in the list.
abbrev pub In : {A : Type 0} → A → List A → Type 0
In e [] = ⊥
In e (x ∷ xs) = (e ≡ x) ⊎ In e xs

pub In-Permᴰ : {A : Type 0} {xs ys : List A} → Permᴰ xs ys → (e : A) → In e xs → In e ys
In-Permᴰ Permᴰ.nil e h = h
In-Permᴰ (Permᴰ.cons p q) e h = elim h [ inl d ↦ inl (d ∙ p) | inr r ↦ inr (In-Permᴰ q e r) ]
In-Permᴰ (Permᴰ.swap p q) e h = elim h [
  | inl d ↦ inr (inl (d ∙ p))
  | inr (inl d) ↦ inl (d ∙ q)
  | inr (inr r) ↦ inr (inr r)
]
In-Permᴰ (Permᴰ.trans p q) e h = In-Permᴰ q e (In-Permᴰ p e h)

pub In-around : {A : Type 0} (a b : A) (xs ys : List A) → In a (xs ++ ys) → In a (xs ++ (b ∷ ys))
In-around a b [] ys i = inr i
In-around a b (x ∷ xs) ys i = elim i [ inl e ↦ inl e | inr j ↦ inr (In-around a b xs ys j) ]

pub In-middle : {A : Type 0} (a : A) (xs ys : List A) → In a (xs ++ (a ∷ ys))
In-middle a [] ys = inl refl
In-middle a (x ∷ xs) ys = inr (In-middle a xs ys)

abbrev pub GoMap {ℓ} : Type ℓ → Type ℓ
GoMap V = List (Str × V)

module _ {ℓ} {V : Type ℓ} where
  -- `v, ok := m[k]`
  unfoldable pub get : Str → GoMap V → Option V
  get k [] = none
  get k ((j, v) ∷ m) = if j == k then some v else get k m

  -- `m[k] = v`
  unfoldable pub put : Str → V → GoMap V → GoMap V
  put k v [] = (k, v) ∷ []
  put k v ((j, w) ∷ m) = if j == k then (k, v) ∷ m else (j, w) ∷ put k v m

  -- `delete(m, k)`
  unfoldable pub delete : Str → GoMap V → GoMap V
  delete k [] = []
  delete k ((j, w) ∷ m) = let rest = delete k m in if j == k then rest else (j, w) ∷ rest

  -- No key stands twice.
  abbrev pub HasNodupKeys : GoMap V → Type ℓ
  HasNodupKeys [] = Unit
  HasNodupKeys ((k, _) ∷ m) = (get k m ≡ none) × HasNodupKeys m

  pub get-put :
      (k j : Str) (v : V) (m : GoMap V) → get j (put k v m) ≡ (if k == j then some v else get j m)
  unfolding get put
  get-put k j v [] = refl
  get-put k j v (_ ∷ m) = ground (arith, get-put k j v m)

  pub get-delete :
      (k j : Str) (m : GoMap V) → get j (delete k m) ≡ (if k == j then none else get j m)
  unfolding get delete
  get-delete k j [] = ground arith
  get-delete k j (_ ∷ m) = ground (arith, get-delete k j m)

  pub put-HasNodupKeys : (k : Str) (v : V) (m : GoMap V) → HasNodupKeys m → HasNodupKeys (put k v m)
  unfolding get put
  put-HasNodupKeys k v [] h = (refl, tt)
  put-HasNodupKeys k v ((j, w) ∷ m) h = ground (arith, put-HasNodupKeys k v m h.1, get-put k j v m)

  pub delete-HasNodupKeys : (k : Str) (m : GoMap V) → HasNodupKeys m → HasNodupKeys (delete k m)
  unfolding get delete
  delete-HasNodupKeys k [] h = tt
  delete-HasNodupKeys k ((j, w) ∷ m) h =
      ground (arith, delete-HasNodupKeys k m h.1, get-delete k j m)

module _ {V : Type 0} where
  pub In-of_get : (k : Str) (v : V) (m : GoMap V) → get k m ≡ some v → In (k, v) m
  unfolding get
  In-of_get k v [] h = cc
  In-of_get k v ((j, w) ∷ m) h = ground (arith, In-of_get k v m)

  pub get_of_In_ne_none : (k : Str) (v : V) (m : GoMap V) → In (k, v) m → get k m ≡ none → ⊥
  unfolding get
  get_of_In_ne_none k v [] i h = i
  get_of_In_ne_none k v ((j, w) ∷ m) i h = ground (arith, get_of_In_ne_none k v m)

  pub get_of_In : (k : Str) (v : V) (m : GoMap V) → HasNodupKeys m → In (k, v) m → get k m ≡ some v
  unfolding get
  get_of_In k v [] n i = absurd i
  get_of_In k v ((j, w) ∷ m) n i = ground (arith, get_of_In k v m n.1, get_of_In_ne_none k v m)

-- The order in which the runtime visits a map in a `range` loop: any.
pub record RangeOrder {ℓ} (V : Type ℓ) : Type ℓ where
  pub order : GoMap V → GoMap V
  pub visits_all : (m : GoMap V) → Permᴰ (order m) m

module _ {V : Type 0} (o : RangeOrder V) where
  pub In-order : (e : Str × V) (m : GoMap V) → In e (o.order m) ↔ In e m
  In-order e m = (In-Permᴰ (o.visits_all m) e, In-Permᴰ (Permᴰ.symm (o.visits_all m)) e)

-- One order: the latest entry first.
abbrev pub backwards {ℓ} : {V : Type ℓ} → RangeOrder V
backwards = record { order = mathlib.Core.List.reverse; visits_all = Permᴰ.reverse }
