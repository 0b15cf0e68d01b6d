-- ===== src/Props.antt =====
-- props.go: the properties of a container. The lock `mu` is held for the whole body of every method
-- and released by `defer`, so that a method is one step on the handler, also where it panics.
pub mod Laws
use garden_docker.Base.{
  Str, txt, Bool, true, false, Option, none, some, List, [], ◌∷◌, Go, Outcome, ok, panic, ◌==◌,
  if◌then◌else◌,
}
use garden_docker.Base.GoMap
use garden_docker.Base.GoMap.{GoMap, RangeOrder}

-- `none` is the nil map: `&PropsHandler{}` has it.
pub record PropsHandler : Type 0 where
  pub props : Option (GoMap Str)

abbrev pub new_props_handler : PropsHandler
new_props_handler = record { props = none }

-- `v, ok := m[k]`: a read of the nil map finds nothing.
unfoldable pub read : Option (GoMap Str) → Str → Option Str
read none k = none
read (some m) k = GoMap.get k m

-- A `range` loop over a nil map has no rounds.
abbrev pub contents : Option (GoMap Str) → GoMap Str
contents none = []
contents (some m) = m

unfoldable pub properties : PropsHandler → Option (GoMap Str)
properties c = c.props

unfoldable pub get_properties : Go PropsHandler (Option (GoMap Str))
unfolding properties
get_properties c = (ok (properties c), c)

-- A missing key reads as the empty string.
abbrev or_empty : Option Str → Str
or_empty none = []
or_empty (some v) = v

unfoldable pub get_property : Str → Go PropsHandler Str
unfolding read
get_property name c = (ok (or_empty (read c.props name)), c)

-- The panic of the Go runtime.
abbrev pub nil_map_write : Str
nil_map_write = txt "assignment to entry in nil map"

unfoldable pub set_property : Str → Str → Go PropsHandler (Unit {0})
set_property name value c = elim c.props [
  | none ↦ (panic nil_map_write, c)
  | some m ↦ (ok tt, record c { props = some (GoMap.put name value m) })
]

-- `delete` on the nil map does nothing.
unfoldable pub remove_property : Str → Go PropsHandler (Unit {0})
remove_property name c = elim c.props [
  | none ↦ (ok tt, c)
  | some m ↦ (ok tt, record c { props = some (GoMap.delete name m) })
]

abbrev pub agrees : Option Str → Str → Bool
agrees none v = false
agrees (some prop) v = prop == v

-- The loop of `HasProperties` over the entries still to visit.
unfoldable pub all_agree : Option (GoMap Str) → GoMap Str → Bool
unfolding read
all_agree held [] = true
all_agree held ((k, v) ∷ rest) = if agrees (read held k) v then all_agree held rest else false

unfoldable pub has_properties : RangeOrder Str → PropsHandler → Option (GoMap Str) → Bool
unfolding all_agree
has_properties o c wanted = all_agree c.props (o.order (contents wanted))
