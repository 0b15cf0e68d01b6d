-- ===== src/Base/GoMap/Same.antt =====
-- Maps that hold the same are the same entries in another order.
use mathlib.Core.List.{[], ◌∷◌, Permᴰ}
use mathlib.Core.List.Permᴰ
use mathlib.Core.Option.{Option, none, some}
use mathlib.Core.Path.{◌≡◌, refl, subst}
use mathlib.Core.Logic.{inl, inr}
use native.Mathlib.Omega.{arith}
use garden_docker.Base.Text.{Str, Bool-cases, ◌==◌, ==_iff, ==_refl}
use garden_docker.Base.GoMap.{
  GoMap, get, delete, HasNodupKeys, get-delete, delete-HasNodupKeys, In-Permᴰ, In-of_get,
  get_of_In_ne_none,
}

module _ {V : Type 0} where
  delete-absent : (k : Str) (m : GoMap V) → get k m ≡ none → delete k m ≡ m
  unfolding get delete
  delete-absent k [] h = refl
  delete-absent k ((j, w) ∷ m) h = ground (arith, delete-absent k m)

  -- An entry can be taken to the front.
  to_front :
      (k : Str) (v : V) (m : GoMap V)
      → HasNodupKeys m
      → get k m ≡ some v
      → Permᴰ m ((k, v) ∷ delete k m)
  unfolding get delete
  to_front k v [] n h = cc
  to_front k v ((j, w) ∷ m) n h = elim (Bool-cases (j == k)) [
    | inl e ↦
        let same_key = (==_iff j k).0 e in
        let same_value : w ≡ v = ground arith in
        let absent = subst (λ x. get x m ≡ none) same_key n.0 in
        rw (e, delete-absent k m absent)
          (Permᴰ.cons (λ i. (same_key i, same_value i)) (Permᴰ.refl m))
    | inr e ↦
        let held : get k m ≡ some v = ground arith in
        rw e (Permᴰ.trans (Permᴰ.cons refl (to_front k v m n.1 held)) (Permᴰ.swap refl refl))
  ]

  -- What is left under a key when another entry is taken away on both sides.
  get_behind :
      (k : Str) (v : V) (m n : GoMap V) (j : Str)
      → get k m ≡ none
      → get j ((k, v) ∷ m) ≡ get j n
      → get j m ≡ get j (delete k n)
  unfolding get
  get_behind k v m n j a h = elim (Bool-cases (k == j)) [
    | inl e ↦
        let absent = subst (λ x. get x m ≡ none) ((==_iff k j).0 e) a in
        rw (get-delete k j n, e) absent
    | inr e ↦ ground (arith, get-delete k j n)
  ]

  -- Two maps without double keys that hold the same under every key.
  pub get-Permᴰ :
      (m n : GoMap V)
      → HasNodupKeys m
      → HasNodupKeys n
      → ((k : Str) → get k m ≡ get k n)
      → Permᴰ m n
  unfolding get
  get-Permᴰ [] [] a b h = Permᴰ.nil
  get-Permᴰ [] ((j, w) ∷ n) a b h = absurd (ground (arith, h j, ==_refl j))
  get-Permᴰ ((k, v) ∷ m) n a b h =
      let held : get k n ≡ some v = ground (arith, h k, ==_refl k) in
      Permᴰ.trans
        (Permᴰ.cons refl (
          get-Permᴰ m (delete k n) a.1 (delete-HasNodupKeys k n b)
            (λ j. get_behind k v m n j a.0 (h j))))
        (Permᴰ.symm (to_front k v n b held))

  -- A key that stands nowhere in one stands nowhere in the other.
  get-none-Permᴰ : (k : Str) (m n : GoMap V) → Permᴰ m n → get k m ≡ none → get k n ≡ none
  get-none-Permᴰ k m n p h = by_get (get k n) refl
    where
      by_get : (o : Option V) → get k n ≡ o → o ≡ none
      by_get none e = refl
      by_get (some v) e =
          absurd (get_of_In_ne_none k v m (In-Permᴰ (Permᴰ.symm p) (k, v) (In-of_get k v n e)) h)

  HasNodupKeys-swap :
      (k j : Str) (v w : V) (m : GoMap V)
      → HasNodupKeys ((k, v) ∷ (j, w) ∷ m)
      → HasNodupKeys ((j, w) ∷ (k, v) ∷ m)
  unfolding get
  HasNodupKeys-swap k j v w m h = ground (arith, ==_iff k j, ==_iff j k)

  pub HasNodupKeys-Permᴰ : {m n : GoMap V} → Permᴰ m n → HasNodupKeys m → HasNodupKeys n
  HasNodupKeys-Permᴰ Permᴰ.nil h = h
  HasNodupKeys-Permᴰ (Permᴰ.cons {a = (k, v)} {b = (j, w)} {l₁ = m} {l₂ = n} p q) h = (
    subst (λ (x : Str × V). get x.0 n ≡ none) p (get-none-Permᴰ k m n q h.0),
    HasNodupKeys-Permᴰ q h.1,
  )
  HasNodupKeys-Permᴰ (Permᴰ.swap {a = (k, v)} {b = (j, w)} {a' = b} {l = m} p q) h =
      subst (λ (x : Str × V). HasNodupKeys (b ∷ x ∷ m)) p
        (subst (λ (x : Str × V). HasNodupKeys (x ∷ (k, v) ∷ m)) q (HasNodupKeys-swap k j v w m h))
  HasNodupKeys-Permᴰ (Permᴰ.trans p q) h = HasNodupKeys-Permᴰ q (HasNodupKeys-Permᴰ p h)
