-- ===== src/Base/Flags.antt =====
-- Go's package flag, how a command line is parsed. The values are kept as strings.
pub mod Defined
pub mod Keeps
use mathlib.Core.Path.{◌≡◌, refl, ◌∙◌}
use mathlib.Core.Bool.{Bool, true, false, ◌||◌}
use mathlib.Core.Option.{Option, none, some}
use mathlib.Core.List.{List, [], ◌∷◌, ◌++◌}
use native.Mathlib.Omega.{arith}
use garden_docker.Base.Text.{Str, ◌=?◌, if◌then◌else◌}
use garden_docker.Base.GoMap
use garden_docker.Base.GoMap.{GoMap}

-- What the parser makes of the first argument left: not a flag, the `--` that ends the flags, a
-- malformed flag, or a flag with its name and the value behind an equals sign.
pub data Shape : Type 0 where
  plain terminator malformed : Shape
  flag : Str → Option Str → Shape

-- The name and the value, split at the first equals sign that is not the first byte.
cut_equals : Str → Str × Option Str
cut_equals [] = ([], none)
cut_equals (c ∷ s) = elim (c =? b'=') [
  | true ↦ ([], some s)
  | false ↦ let (name, value) = cut_equals s in ((c ∷ name), value)
]

name_and_value : Str → Shape
name_and_value [] = malformed
name_and_value (c ∷ s) =
    if c =? b'-' || c =? b'='
    then malformed
    else let (name, value) = cut_equals s in flag (c ∷ name) value

behind_dash : Str → Shape
behind_dash [] = plain
behind_dash (c ∷ []) = if c =? b'-' then terminator else name_and_value (c ∷ [])
behind_dash (c ∷ d ∷ s) = if c =? b'-' then name_and_value (d ∷ s) else name_and_value (c ∷ d ∷ s)

unfoldable pub shape : Str → Shape
unfolding behind_dash name_and_value cut_equals
shape [] = plain
shape (c ∷ s) = if c =? b'-' then behind_dash s else plain

-- The values of the flags and the arguments left, or a refusal, at which the program exits with 2.
pub data Parsed : Type 0 where
  parsed : GoMap Str → List Str → Parsed
  refused : Parsed

-- The loop of `Parse`. `accepts` says whether a flag takes a value. The third argument is the name
-- of a flag that waits for its value.
unfoldable pub parse_waiting : (Str → Str → Bool) → List Str → Option Str → GoMap Str → Parsed
parse_waiting accepts [] none flags = parsed flags []
parse_waiting accepts [] (some name) flags = refused
parse_waiting accepts (s ∷ args) (some name) flags = elim (accepts name s) [
  | true ↦ parse_waiting accepts args none (GoMap.put name s flags)
  | false ↦ refused
]
parse_waiting accepts (s ∷ args) none flags = elim (shape s) [
  | plain ↦ parsed flags (s ∷ args)
  | terminator ↦ parsed flags args
  | malformed ↦ refused
  | flag name value ↦ elim (GoMap.get name flags) [
    | none ↦ refused
    | some _ ↦ elim value [
      | none ↦ parse_waiting accepts args (some name) flags
      | some v ↦ elim (accepts name v) [
        | true ↦ parse_waiting accepts args none (GoMap.put name v flags)
        | false ↦ refused
      ]
    ]
  ]
]

-- What flags that take any string accept.
abbrev pub any_string : Str → Str → Bool
any_string name value = true

-- `flag.Parse()`, from the flags' defaults.
unfoldable pub parse : List Str → GoMap Str → Parsed
unfolding parse_waiting shape
parse args defaults = parse_waiting any_string args none defaults

module _ (accepts : Str → Str → Bool) where
  -- A flag that is defined, with its value as the next argument.
  pub parse_waiting-flag :
      (s name value : Str) (args : List Str) (flags : GoMap Str) (old : Str)
      → shape s ≡ flag name none
      → GoMap.get name flags ≡ some old
      → accepts name value ≡ true
      → parse_waiting accepts (s ∷ value ∷ args) none flags
        ≡ parse_waiting accepts args none (GoMap.put name value flags)
  unfolding parse_waiting
  parse_waiting-flag s name value args flags old h k a = ground arith

  -- A flag that is defined, with its value behind an equals sign.
  pub parse_waiting-joined :
      (s name value : Str) (args : List Str) (flags : GoMap Str) (old : Str)
      → shape s ≡ flag name (some value)
      → GoMap.get name flags ≡ some old
      → accepts name value ≡ true
      → parse_waiting accepts (s ∷ args) none flags
        ≡ parse_waiting accepts args none (GoMap.put name value flags)
  unfolding parse_waiting
  parse_waiting-joined s name value args flags old h k a = ground arith

  -- The first argument that is no flag ends the flags.
  pub parse_waiting-plain :
      (s : Str) (args : List Str) (flags : GoMap Str)
      → shape s ≡ plain
      → parse_waiting accepts (s ∷ args) none flags ≡ parsed flags (s ∷ args)
  unfolding parse_waiting
  parse_waiting-plain s args flags h = ground arith

  -- The arguments are flags that are defined, each with a value that it accepts; they take the
  -- values `f` to the values `g`.
  pub data Reads : List Str → GoMap Str → GoMap Str → Type 0 where
    nothing : {f : GoMap Str} → Reads [] f f
    apart :
        {s name value old : Str} {args : List Str} {f g : GoMap Str}
        → shape s ≡ flag name none
        → GoMap.get name f ≡ some old
        → accepts name value ≡ true
        → Reads args (GoMap.put name value f) g
        → Reads (s ∷ value ∷ args) f g
    joined :
        {s name value old : Str} {args : List Str} {f g : GoMap Str}
        → shape s ≡ flag name (some value)
        → GoMap.get name f ≡ some old
        → accepts name value ≡ true
        → Reads args (GoMap.put name value f) g
        → Reads (s ∷ args) f g

  -- Behind such arguments, the parser goes on with the new values.
  pub parse_waiting-Reads :
      (args more : List Str) (f g : GoMap Str)
      → Reads args f g
      → parse_waiting accepts (args ++ more) none f ≡ parse_waiting accepts more none g
  parse_waiting-Reads _ more f _ nothing = refl
  parse_waiting-Reads _ more f g (apart {s = s} {name} {value} {old} {args} h k a r) =
      parse_waiting-flag s name value (args ++ more) f old h k a
      ∙ parse_waiting-Reads args more (GoMap.put name value f) g r
  parse_waiting-Reads _ more f g (joined {s = s} {name} {value} {old} {args} h k a r) =
      parse_waiting-joined s name value (args ++ more) f old h k a
      ∙ parse_waiting-Reads args more (GoMap.put name value f) g r

pub parse_lem :
    (args : List Str) (flags : GoMap Str)
    → parse args flags ≡ parse_waiting any_string args none flags
unfolding parse
parse_lem args flags = refl
