-- ===== src/Base/FilePath/Kept.antt =====
-- What `path.Clean` keeps of a path, and that keeping it once more changes nothing.
use mathlib.Core.List.{reverse, reverse-append, List, [], ◌∷◌}
use mathlib.Core.Path.{◌≡◌, refl, ◌∙◌}
use mathlib.Core.Bool.{Bool, true, false}
use mathlib.Core.Logic.{inl, inr}
use native.Mathlib.Omega.{arith}
use garden_docker.Base.Text.{Bool-cases, Str, txt, str_dec, ◌==◌}
use garden_docker.Base.FilePath.{split, rooted, push, push_all, back}
use garden_docker.Base.FilePath.Laws.{IsElement, split-cons, push_all-append, push-IsElement}

-- What stands between two slashes, and is not empty.
pub record IsWhole (e : Str) : Type 0 where
  pub not_empty : (e == []) ≡ false
  pub not_split : split e ≡ e ∷ []

abbrev pub IsUnsplit : Str → Type 0
IsUnsplit e = split e ≡ e ∷ []

pub data Each (P : Str → Type 0) : List Str → Type 0 where
  none_left : Each P []
  one_more : {e : Str} {es : List Str} → P e → Each P es → Each P (e ∷ es)

pub data AllDots : List Str → Type 0 where
  no_dots : AllDots []
  more_dots : {es : List Str} → AllDots es → AllDots (txt ".." ∷ es)

-- What cleaning can keep, the last first: names, and below them, where the path is not rooted, `..`.
pub data IsKept : Bool → List Str → Type 0 where
  nothing : {r : Bool} → IsKept r []
  name : {r : Bool} {e : Str} {es : List Str} → IsElement e → IsKept r es → IsKept r (e ∷ es)
  dots : {es : List Str} → AllDots es → IsKept false (txt ".." ∷ es)

pub dots-IsWhole : IsWhole (txt "..")
unfolding txt str_dec split
dots-IsWhole = record { not_empty = refl; not_split = refl }

pub rooted-IsWhole : {e : Str} → IsWhole e → rooted e ≡ false
unfolding rooted split
rooted-IsWhole {e = []} h = refl
rooted-IsWhole {e = c ∷ s} h = ground (arith, h.not_split, h.not_empty, split-cons s)

back-dots : {es : List Str} → AllDots es → back false es ≡ txt ".." ∷ es
unfolding txt str_dec
back-dots no_dots = refl
back-dots (more_dots h) = refl

push-dots : (r : Bool) (es : List Str) → push r es (txt "..") ≡ back r es
unfolding push txt str_dec
push-dots r es = refl

-- Taking the last element back leaves what can be kept.
back-IsKept : {r : Bool} {es : List Str} → IsKept r es → IsKept r (back r es)
unfolding txt str_dec
back-IsKept {r = true} nothing = nothing
back-IsKept {r = false} nothing = dots no_dots
back-IsKept (name h k) = rw h.not_dots k
back-IsKept (dots h) = dots (more_dots h)

pub push-IsKept :
    {r : Bool} {es : List Str} (e : Str) → split e ≡ e ∷ [] → IsKept r es → IsKept r (push r es e)
unfolding push
push-IsKept {r = r} {es = es} e w k = elim (Bool-cases (e == [])) [
  | inl h ↦ rw h k
  | inr h ↦ elim (Bool-cases (e == txt ".")) [
    | inl h₁ ↦ rw (h, h₁) k
    | inr h₁ ↦ elim (Bool-cases (e == txt "..")) [
      | inl h₂ ↦ rw (h, h₁, h₂) (back-IsKept k)
      | inr h₂ ↦
          rw (h, h₁, h₂)
            (name
              (record {
                not_empty = h;
                not_dot = h₁;
                not_dots = h₂;
                not_split = w;
                not_rooted = rooted-IsWhole (record { not_empty = h; not_split = w });
              })
              k)
    ]
  ]
]

push_all-AllDots : {es : List Str} → AllDots es → push_all false [] (reverse es) ≡ es
unfolding push_all
push_all-AllDots no_dots = refl
push_all-AllDots (more_dots {es = es} h) =
    rw (reverse-append (txt ".." ∷ []) es, push_all-append, push_all-AllDots h)
      (push-dots false es ∙ back-dots h)

-- Keeping once more what can be kept.
pub push_all-IsKept : {r : Bool} {es : List Str} → IsKept r es → push_all r [] (reverse es) ≡ es
unfolding push_all
push_all-IsKept nothing = refl
push_all-IsKept {r = r} (name {e = e} {es = es} h k) =
    rw (reverse-append (e ∷ []) es, push_all-append, push_all-IsKept k) (push-IsElement _ _ h)
push_all-IsKept (dots {es = es} h) = push_all-AllDots (more_dots h)
