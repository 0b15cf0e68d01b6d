-- ===== src/Base/Text.antt =====
-- Go strings as their bytes, the literals of the source, and equality of strings.
use Prim.Native.Char.{code}
use Prim.Native.Nat.{ℕ, zero, suc, ◌+◌, ◌-◌, ◌*◌, ◌<◌, ◌/◌, ◌%◌, compare, Ordering}
use Prim.Native.String.{String}
use mathlib.Core.Path.{◌≡◌, refl, ap, ◌∙◌}
use mathlib.Core.Logic.{ite, dite, ◌↔◌, ◌⊎◌, inl, inr}
use mathlib.Core.Bool.{Bool, true, false, Bool-discrete, ◌&&◌}
use mathlib.Core.List.{List, [], ◌∷◌, ◌++◌}
use native.Mathlib.Omega.{arith}

-- A Go string is a sequence of bytes.
abbrev pub Str : Type 0
Str = List ℕ

infix 1 if◌then◌else◌
abbrev pub if◌then◌else◌ {ℓ} : {A : Type ℓ} → Bool → A → A → A
if true then x else y = x
if false then x else y = y

-- To split on a computed value and keep the equation.
pub Bool-cases : (b : Bool) → (b ≡ true) ⊎ (b ≡ false)
Bool-cases true = inl refl
Bool-cases false = inr refl

-- The equality test of two bytes.
infix 50 ◌=?◌
abbrev pub ◌=?◌ : ℕ → ℕ → Bool
a =? b = elim (compare a b) [ Ordering.eq ↦ true | _ ↦ false ]

-- The bytes of an ASCII literal of the source.
unfoldable pub txt : String → Str
txt String.[] = []
txt (String.◌∷◌ c s) = code c ∷ txt s

unfoldable pub eq_bytes : Str → Str → Bool
eq_bytes [] [] = true
eq_bytes [] (_ ∷ _) = false
eq_bytes (_ ∷ _) [] = false
eq_bytes (a ∷ s) (b ∷ t) = a =? b && eq_bytes s t

pub eq_bytes_sound : (s t : Str) → eq_bytes s t ≡ true → s ≡ t
unfolding eq_bytes
eq_bytes_sound [] [] h = refl
eq_bytes_sound [] (b ∷ t) h = cc
eq_bytes_sound (a ∷ s) [] h = cc
eq_bytes_sound (a ∷ s) (b ∷ t) h = ground (arith, eq_bytes_sound s t)

eq_bytes_refl : (s : Str) → eq_bytes s s ≡ true
unfolding eq_bytes
eq_bytes_refl [] = refl
eq_bytes_refl (a ∷ s) = ground (arith, eq_bytes_refl s)

pub eq_bytes_complete : (s t : Str) → s ≡ t → eq_bytes s t ≡ true
eq_bytes_complete s t p = rw p (eq_bytes_refl t)

-- Go's `==` on strings, as a decision: shut in proofs, where a split on it yields the equation or
-- its negation.
unfoldable pub str_dec : Discrete Str
unfolding eq_bytes
str_dec s t =
    dite (Bool-discrete (eq_bytes s t) true) (λ same. yes (eq_bytes_sound s t same))
      (λ differ. no (λ p. differ (eq_bytes_complete s t p)))

infix 50 ◌==◌
abbrev pub ◌==◌ : Str → Str → Bool
s == t = ite (str_dec s t) true false

pub ==_iff : (s t : Str) → ((s == t) ≡ true) ↔ (s ≡ t)
==_iff s t = ground arith

pub ==_refl : (s : Str) → (s == s) ≡ true
==_refl s = ground arith

-- The decimal digits of `%d`, the last first, on fuel.
unfoldable pub digits_rev : ℕ → ℕ → Str
digits_rev zero n = []
digits_rev (suc fuel) n =
    let rest = digits_rev fuel (n / 10) in
    if n / 10 =? 0 then (48 + n % 10) ∷ [] else (48 + n % 10) ∷ rest

unfoldable pub decimal : ℕ → Str
unfolding digits_rev
decimal n = mathlib.Core.List.reverse (digits_rev (suc n) n)

-- The number that digits, the last first, stand for.
abbrev pub read_digits_rev : Str → ℕ
read_digits_rev [] = 0
read_digits_rev (c ∷ s) = (c - 48) + 10 * read_digits_rev s

-- Fuel above the number is enough: the digits read back as it.
read_digits_rev-digits_rev : (fuel n : ℕ) → n < fuel → read_digits_rev (digits_rev fuel n) ≡ n
unfolding digits_rev
read_digits_rev-digits_rev zero n h = absurd (omega arith)
read_digits_rev-digits_rev (suc fuel) n h = ground (arith, read_digits_rev-digits_rev fuel (n / 10))

-- The digits of `%d` read back, from the last on, as the number.
pub read_digits_rev-decimal : (n : ℕ) → read_digits_rev (mathlib.Core.List.reverse (decimal n)) ≡ n
unfolding decimal
read_digits_rev-decimal n =
    ap read_digits_rev (mathlib.Core.List.reverse-reverse (digits_rev (suc n) n))
    ∙ read_digits_rev-digits_rev (suc n) n (omega arith)
