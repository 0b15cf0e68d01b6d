-- ===== src/Backend/Bulk/Asked.antt =====
-- Which handles backend.go's withHandles lets through, and what a map of a bulk operation then has.
use garden_docker.Base.{
  Str, Bool, Bool-cases, Option, none, some, List, [], ◌∷◌, ◌≡◌, ◌↔◌, inl, inr, refl, sym, ◌∙◌,
  arith, Outcome, ok, fail, panic, true, false, ◌==◌, ==_iff, ==_refl,
}
use garden_docker.Base.GoMap.{In}
use garden_docker.Backend.{is_one_of}

-- What a bulk operation has under a handle: the value of the container that Lookup finds, if the
-- handle is one of those asked for.
abbrev pub expected : {C E : Type 0} → (C → E) → Bool → Outcome C → Option E
expected f true (ok c) = some (f c)
expected f true _ = none
expected f false _ = none

is_one_of-In : (handles : List Str) (h : Str) → (is_one_of handles h ≡ true) ↔ In h handles
unfolding is_one_of
is_one_of-In [] h = (λ e. cc, λ i. absurd i)
is_one_of-In (k ∷ handles) h =
    let (to, from) = is_one_of-In handles h in
    elim (Bool-cases (k == h)) [
      | inl p ↦ (λ e. inl (sym ((==_iff k h).0 p)), λ i. ground (arith, p))
      | inr p ↦ (
        λ e. inr (to (ground (arith, p))),
        λ i. elim i [ inl q ↦ cc (==_refl k, p, q) | inr j ↦ ground (arith, from j) ],
      )
    ]

-- What a bulk operation gives under a handle: the handle is one of those asked for, Lookup has found
-- a container, and the value is that of the container.
abbrev pub Gives : {C E : Type 0} → (C → E) → List Str → Str → Outcome C → E → Type 0
Gives {C = C} f handles h found e = In h handles × (c : C) × (found ≡ ok c) × (e ≡ f c)

expected-Gives :
    {C E : Type 0} (f : C → E) (handles : List Str) (h : Str) (o : Outcome C) (e : E)
    → (expected f (is_one_of handles h) o ≡ some e) ↔ Gives f handles h o e
expected-Gives {C = C} f handles h o e = by_both (is_one_of handles h) o refl refl
  where
    by_both :
        (b : Bool) (r : Outcome C)
        → is_one_of handles h ≡ b
        → o ≡ r
        → (expected f b r ≡ some e) ↔ Gives f handles h r e
    by_both true (ok c) p q =
        (λ x. ((is_one_of-In handles h).0 p, c, refl, sym (cc x)), λ (i, d, y, z). cc (y, z))
    by_both true (fail x) p q = (λ x. cc, λ (i, d, y, z). cc y)
    by_both true (panic x) p q = (λ x. cc, λ (i, d, y, z). cc y)
    by_both false r p q = (λ x. cc, λ (i, d, y, z). cc ((is_one_of-In handles h).1 i, p))

pub equal-Gives :
    {C E : Type 0} (f : C → E) (handles : List Str) (h : Str) (o : Outcome C) (held : Option E)
    → held ≡ expected f (is_one_of handles h) o
    → (e : E) → (held ≡ some e) ↔ Gives f handles h o e
equal-Gives f handles h o held p e =
    let (to, from) = expected-Gives f handles h o e in (λ q. to (sym p ∙ q), λ g. p ∙ from g)
