-- ===== src/Base/Flags/Keeps.antt =====
-- What Go's flag parser keeps of the flags' values.
use mathlib.Core.Path.{◌≡◌, refl, ap, subst}
use mathlib.Core.Bool.{Bool, true, false}
use mathlib.Core.Option.{Option, none, some}
use mathlib.Core.List.{List, [], ◌∷◌}
use garden_docker.Base.Text.{Str}
use garden_docker.Base.GoMap
use garden_docker.Base.GoMap.{GoMap}
use garden_docker.Base.Flags.{
  Shape, plain, terminator, malformed, flag, shape, Parsed, parsed, refused, parse_waiting,
}

values_of : GoMap Str → Parsed → GoMap Str
values_of f (parsed g rest) = g
values_of f refused = f

parsed-injective : (f g : GoMap Str) (xs ys : List Str) → parsed f xs ≡ parsed g ys → f ≡ g
unfolding values_of
parsed-injective f g xs ys e = ap (values_of f) e

module _ (accepts : Str → Str → Bool) (P : GoMap Str → Type 0)
    (keeps : (name v : Str) (f : GoMap Str)
      → accepts name v ≡ true
      → P f
      → P (GoMap.put name v f)) where
  -- The rest of the arguments, from any values that have the property.
  abbrev Rest : List Str → Type 0
  Rest args =
      (waiting : Option Str) (f g : GoMap Str) (rest : List Str)
      → P f
      → parse_waiting accepts args waiting f ≡ parsed g rest
      → P g

  taken :
      (args : List Str) (name v : Str) (b : Bool) (f g : GoMap Str) (rest : List Str)
      → Rest args
      → accepts name v ≡ b
      → P f
      → elim b as (λ _. Parsed) [
        | true ↦ parse_waiting accepts args none (GoMap.put name v f)
        | false ↦ refused
      ]
        ≡ parsed g rest
      → P g
  taken args name v true f g rest ih a p e =
      ih none (GoMap.put name v f) g rest (keeps name v f a p) e
  taken args name v false f g rest ih a p e = cc

  after_flag :
      (args : List Str) (name : Str) (value : Option Str) (old : Option Str) (f g : GoMap Str)
      (rest : List Str)
      → Rest args
      → P f
      → elim old as (λ _. Parsed) [
        | none ↦ refused
        | some _ ↦ elim value [
          | none ↦ parse_waiting accepts args (some name) f
          | some v ↦ elim (accepts name v) [
            | true ↦ parse_waiting accepts args none (GoMap.put name v f)
            | false ↦ refused
          ]
        ]
      ]
        ≡ parsed g rest
      → P g
  after_flag args name value none f g rest ih p e = cc
  after_flag args name none (some o) f g rest ih p e = ih (some name) f g rest p e
  after_flag args name (some v) (some o) f g rest ih p e =
      taken args name v (accepts name v) f g rest ih refl p e

  -- Whatever the arguments, a property of the values that every accepted value keeps is kept.
  pub parse_waiting-keeps : (args : List Str) → Rest args
  unfolding parse_waiting
  parse_waiting-keeps [] none f g rest p e = subst P (parsed-injective f g [] rest e) p
  parse_waiting-keeps [] (some name) f g rest p e = cc
  parse_waiting-keeps (s ∷ args) (some name) f g rest p e =
      taken args name s (accepts name s) f g rest (parse_waiting-keeps args) refl p e
  parse_waiting-keeps (s ∷ args) none f g rest p e = go (shape s) (parse_waiting-keeps args) e
    where
      go :
          (x : Shape)
          → Rest args
          → elim x as (λ _. Parsed) [
            | plain ↦ parsed f (s ∷ args)
            | terminator ↦ parsed f args
            | malformed ↦ refused
            | flag name value ↦ elim (GoMap.get name f) [
              | none ↦ refused
              | some _ ↦ elim value [
                | none ↦ parse_waiting accepts args (some name) f
                | some v ↦ elim (accepts name v) [
                  | true ↦ parse_waiting accepts args none (GoMap.put name v f)
                  | false ↦ refused
                ]
              ]
            ]
          ]
            ≡ parsed g rest
          → P g
      go plain ih e' = subst P (parsed-injective f g (s ∷ args) rest e') p
      go terminator ih e' = subst P (parsed-injective f g args rest e') p
      go malformed ih e' = cc
      go (flag name value) ih e' = after_flag args name value (GoMap.get name f) f g rest ih p e'
