-- ===== src/Repo/Abstract/Scans.antt =====
-- repo.go's loop of Query against the abstract map.
use garden_docker.Base.{
  Str, Bool, true, false, none, some, List, [], ◌∷◌, ◌≡◌, ◌↔◌, inl, inr, refl, sym, ap, ◌∙◌,
  Outcome, ok, fail, panic,
}
use mathlib.Core.Path.{subst}
use garden_docker.Base.Binds.{ended, ended-made_nothing}
use garden_docker.Base.Ensures.{ok-injective}
use garden_docker.Base.GoMap
use garden_docker.Base.GoMap.{GoMap, In, In-Permᴰ, HasNodupKeys, get_of_In_ne_none}
use garden_docker.Repo.{next, matching}
use garden_docker.Repo.Abstract.{AreDistinct}

module _ {C : Type 0} (handle : C → Str) (filter : C → Outcome Bool) where
  -- Every entry stands under the handle of its container.
  abbrev pub UnderOwn : GoMap C → Type 0
  UnderOwn es = (k : Str) (c : C) → In (k, c) es → k ≡ handle c

  -- What the loop over the entries may come to.
  pub data Met (es : GoMap C) (o : Outcome (List C)) : Type 0 where
    met_all :
        (cs : List C)
        → o ≡ ok cs
        → AreDistinct cs
        → ((c : C) → In c cs ↔ ((filter c ≡ ok true) × In (handle c, c) es))
        → Met es o
    met_failing : (c : C) → In (handle c, c) es → ended (λ e. e) (filter c) ≡ some o → Met es o

  module _ (k : Str) (d : C) (es : GoMap C) (own : k ≡ handle d) where
    kept :
        (cs : List C)
        → filter d ≡ ok true
        → GoMap.get k es ≡ none
        → AreDistinct cs
        → ((c : C) → In c cs ↔ ((filter c ≡ ok true) × In (handle c, c) es))
        → Met ((k, d) ∷ es) (ok (d ∷ cs))
    kept cs e absent distinct exact =
        met_all (d ∷ cs) refl
          (
            λ i.
                get_of_In_ne_none k d es (subst (λ x. In (x, d) es) (sym own) ((exact d).0 i).1)
                  absent,
            distinct,
          )
          (λ c. (
            λ i. elim i [
              | inl p ↦ (ap filter p ∙ e, inl (λ j. ((ap handle p ∙ sym own) j, p j)))
              | inr q ↦ let (passes, there) = (exact c).0 q in (passes, inr there)
            ],
            λ (passes, there). elim there [
              | inl p ↦ inl (ap (λ (x : Str × C). x.1) p)
              | inr q ↦ inr ((exact c).1 (passes, q))
            ],
          ))

    left_out :
        (cs : List C)
        → filter d ≡ ok false
        → AreDistinct cs
        → ((c : C) → In c cs ↔ ((filter c ≡ ok true) × In (handle c, c) es))
        → Met ((k, d) ∷ es) (ok cs)
    left_out cs e distinct exact = met_all cs refl distinct (λ c. (
      λ i. let (passes, there) = (exact c).0 i in (passes, inr there),
      λ (passes, there). elim there [
        | inl p ↦ cc (ap filter (ap (λ (x : Str × C). x.1) p))
        | inr q ↦ (exact c).1 (passes, q)
      ],
    ))

    next-Met :
        (b : Outcome Bool) (o : Outcome (List C))
        → filter d ≡ b
        → GoMap.get k es ≡ none
        → Met es o
        → Met ((k, d) ∷ es) (next d b o)
    next-Met (fail x) o e absent met =
        met_failing d (inl (λ j. (sym own j, d)))
          (ap (λ (p : Outcome Bool). ended {B = List C} (λ x. x) p) e)
    next-Met (panic x) o e absent met =
        met_failing d (inl (λ j. (sym own j, d)))
          (ap (λ (p : Outcome Bool). ended {B = List C} (λ x. x) p) e)
    next-Met (ok b) (fail x) e absent met = elim met [
      | met_all cs p _ _ ↦ cc
      | met_failing c i h ↦ met_failing c (inr i) h
    ]
    next-Met (ok b) (panic x) e absent met = elim met [
      | met_all cs p _ _ ↦ cc
      | met_failing c i h ↦ met_failing c (inr i) h
    ]
    next-Met (ok true) (ok cs) e absent met = elim met [
      | met_all ds p distinct exact ↦
          subst (λ xs. Met ((k, d) ∷ es) (ok (d ∷ xs))) (sym (ok-injective cs ds p))
            (kept ds e absent distinct exact)
      | met_failing c i h ↦ absurd (ended-made_nothing (λ x. x) (filter c) (ok cs) cs h refl)
    ]
    next-Met (ok false) (ok cs) e absent met = elim met [
      | met_all ds p distinct exact ↦
          subst (λ xs. Met ((k, d) ∷ es) (ok xs)) (sym (ok-injective cs ds p))
            (left_out ds e distinct exact)
      | met_failing c i h ↦ absurd (ended-made_nothing (λ x. x) (filter c) (ok cs) cs h refl)
    ]

  pub matching-Met : (es : GoMap C) → HasNodupKeys es → UnderOwn es → Met es (matching filter es)
  unfolding matching
  matching-Met [] n own = met_all [] refl tt (λ c. (λ i. absurd i, λ (passes, there). absurd there))
  matching-Met ((k, d) ∷ es) n own =
      next-Met k d es (own k d (inl refl)) (filter d) (matching filter es) refl n.0
        (matching-Met es n.1 (λ j c i. own j c (inr i)))
