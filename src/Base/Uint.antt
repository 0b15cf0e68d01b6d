-- ===== src/Base/Uint.antt =====
-- Go's `strconv.ParseUint(s, 0, 64)`, as the flag package calls it for a flag of type uint.
pub mod RoundTrip
use Prim.Native.Nat.{compare, Ordering}
use mathlib.Core.Bool.{Bool, true, false, ◌&&◌, ◌||◌}
use mathlib.Core.Option.{Option, none, some}
use mathlib.Core.List.{List, [], ◌∷◌}
use Prim.Native.Nat.{ℕ, ◌+◌, ◌-◌, ◌*◌, ◌^◌}
use garden_docker.Base.Text.{Str, ◌=?◌, if◌then◌else◌}

abbrev pub ltb : ℕ → ℕ → Bool
ltb a b = elim (compare a b) [ Ordering.lt ↦ true | _ ↦ false ]

abbrev pub leb : ℕ → ℕ → Bool
leb a b = elim (compare a b) [ Ordering.gt ↦ false | _ ↦ true ]

-- The value of a digit or letter, and one that no base has for any other byte.
abbrev pub digit : ℕ → ℕ
digit c =
    if leb b'0' c && leb c b'9'
    then c - b'0'
    else if leb b'a' c && leb c b'z'
    then c - b'a' + 10
    else if leb b'A' c && leb c b'Z'
    then c - b'A' + 10
    else 255

-- One more digit behind `n`: none for a digit that the base does not have, and for a number that
-- does not fit into 64 bits.
unfoldable pub with_digit : ℕ → ℕ → ℕ → Option ℕ
with_digit base c n =
    if ltb (digit c) base
    then (if ltb (n * base + digit c) (2 ^ 64) then some (n * base + digit c) else none)
    else none

unfoldable pub digits_from : ℕ → Str → ℕ → Option ℕ
digits_from base [] n = some n
digits_from base (c ∷ s) n = elim (with_digit base c n) [
  | none ↦ none
  | some m ↦ digits_from base s m
]

abbrev pub some_digits : ℕ → Str → Option ℕ
some_digits base [] = none
some_digits base (c ∷ s) = digits_from base (c ∷ s) 0

-- Behind a leading zero: hexadecimal behind an x, and octal without.
abbrev pub behind_zero : Str → Option ℕ
behind_zero [] = some 0
behind_zero (c ∷ s) = if c =? b'x' || c =? b'X' then some_digits 16 s else digits_from 8 (c ∷ s) 0

unfoldable pub parse_uint : Str → Option ℕ
unfolding digits_from
parse_uint [] = none
parse_uint (c ∷ s) = if c =? b'0' then behind_zero s else digits_from 10 (c ∷ s) 0
