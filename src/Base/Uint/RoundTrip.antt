-- ===== src/Base/Uint/RoundTrip.antt =====
-- Which numbers Go's `strconv.ParseUint` returns.
use mathlib.Core.Bool.{false}
use mathlib.Core.Option.{Option, none, some}
use mathlib.Core.Path.{◌≡◌, refl, ap, ◌∙◌, sym}
use mathlib.Core.List.{[], ◌∷◌, ◌++◌, reverse, reverse-cons}
use Prim.Native.Nat.{ℕ, zero, suc, ◌+◌, ◌*◌, ◌/◌, ◌%◌, ◌^◌, ◌<◌, ◌≤◌}
use native.Mathlib.Omega.{arith}
use native.Mathlib.Decide.{dec_lt}
use garden_docker.Base.Text.{Str, ◌=?◌, decimal, digits_rev}
use garden_docker.Base.Uint.{with_digit, digits_from, some_digits, behind_zero, parse_uint}

with_digit-lt : (base c n m : ℕ) → with_digit base c n ≡ some m → m < 2 ^ 64
unfolding with_digit
with_digit-lt base c n m e = ground arith

digits_from-lt :
    (base : ℕ) (s : Str) (n r : ℕ) → n < 2 ^ 64 → digits_from base s n ≡ some r → r < 2 ^ 64
unfolding digits_from
digits_from-lt base [] n r h e = ground arith
digits_from-lt base (c ∷ s) n r h e = go (with_digit base c n) refl e (digits_from-lt base s)
  where
    go :
        (o : Option ℕ)
        → with_digit base c n ≡ o
        → elim o as (λ _. Option ℕ) [ none ↦ none | some m ↦ digits_from base s m ] ≡ some r
        → ((m t : ℕ) → m < 2 ^ 64 → digits_from base s m ≡ some t → t < 2 ^ 64)
        → r < 2 ^ 64
    go none p q ih = cc
    go (some m) p q ih = ih m r (with_digit-lt base c n m p) q

some_digits-lt : (base : ℕ) (s : Str) (r : ℕ) → some_digits base s ≡ some r → r < 2 ^ 64
some_digits-lt base [] r e = cc
some_digits-lt base (c ∷ s) r e = digits_from-lt base (c ∷ s) 0 r (omega arith) e

behind_zero-lt : (s : Str) (r : ℕ) → behind_zero s ≡ some r → r < 2 ^ 64
behind_zero-lt [] r e = ground arith
behind_zero-lt (c ∷ s) r e =
    ground (arith, some_digits-lt 16 s r, digits_from-lt 8 (c ∷ s) 0 r (omega arith))

-- A number that ParseUint returns fits into 64 bits.
pub parse_uint-lt : (s : Str) (r : ℕ) → parse_uint s ≡ some r → r < 2 ^ 64
unfolding parse_uint
parse_uint-lt [] r e = cc
parse_uint-lt (c ∷ s) r e =
    ground (arith, behind_zero-lt s r, digits_from-lt 10 (c ∷ s) 0 r (omega arith))

digits_from-snoc :
    (base : ℕ) (s : Str) (c n m : ℕ)
    → digits_from base s n ≡ some m
    → digits_from base (s ++ (c ∷ [])) n ≡ with_digit base c m
unfolding digits_from
digits_from-snoc base [] c n m e = ground arith
digits_from-snoc base (d ∷ s) c n m e = go (with_digit base d n) e (digits_from-snoc base s c)
  where
    go :
        (o : Option ℕ)
        → elim o as (λ _. Option ℕ) [ none ↦ none | some k ↦ digits_from base s k ] ≡ some m
        → ((k l : ℕ)
            → digits_from base s k ≡ some l
            → digits_from base (s ++ (c ∷ [])) k ≡ with_digit base c l)
        → elim o as (λ _. Option ℕ) [ none ↦ none | some k ↦ digits_from base (s ++ (c ∷ [])) k ]
          ≡ with_digit base c m
    go none p ih = cc
    go (some k) p ih = ih k m p

with_digit-decimal :
    (n q r : ℕ) → q * 10 + r ≡ n → r < 10 → n < 2 ^ 64 → with_digit 10 (48 + r) q ≡ some n
unfolding with_digit
with_digit-decimal n q r e h k = ground arith

digits_rev-small : (fuel n : ℕ) → n < 10 → digits_rev (suc fuel) n ≡ (48 + n) ∷ []
unfolding digits_rev
digits_rev-small fuel n h = ground arith

digits_rev-large :
    (fuel n : ℕ) → 10 ≤ n → digits_rev (suc fuel) n ≡ (48 + n % 10) ∷ digits_rev fuel (n / 10)
unfolding digits_rev
digits_rev-large fuel n h = ground arith

digits_from-one : (n : ℕ) → n < 10 → digits_from 10 ((48 + n) ∷ []) 0 ≡ some n
unfolding digits_from
digits_from-one n h = rw (digits_from, with_digit-decimal n 0 n (omega arith) h (omega arith)) refl

digits_from-digits_rev :
    (fuel n : ℕ) → n < fuel → n < 2 ^ 64 → digits_from 10 (reverse (digits_rev fuel n)) 0 ≡ some n
digits_from-digits_rev zero n h k = absurd (omega arith)
digits_from-digits_rev (suc fuel) n h k = elim (dec_lt n 10) [
  | yes p ↦ rw (digits_rev-small fuel n p) (digits_from-one n p)
  | no p ↦
      ap (λ (s : Str). digits_from 10 (reverse s) 0) (digits_rev-large fuel n (omega arith))
      ∙ ap (λ (s : Str). digits_from 10 s 0) (reverse-cons (48 + n % 10) (digits_rev fuel (n / 10)))
      ∙ digits_from-snoc 10 (reverse (digits_rev fuel (n / 10))) (48 + n % 10) 0 (n / 10)
          (digits_from-digits_rev fuel (n / 10) (omega arith) (omega arith))
      ∙ with_digit-decimal n (n / 10) (n % 10) (omega arith) (omega arith) k
]

-- The first digit, which is no zero unless the number is zero.
digits_rev-first :
    (fuel n : ℕ)
    → n < fuel
    → 1 ≤ n
    → (c : ℕ) × (s : Str) × (reverse (digits_rev fuel n) ≡ c ∷ s) × ((c =? b'0') ≡ false)
digits_rev-first zero n h k = absurd (omega arith)
digits_rev-first (suc fuel) n h k = elim (dec_lt n 10) [
  | yes p ↦ (48 + n, [], ap (λ (s : Str). reverse s) (digits_rev-small fuel n p), ground arith)
  | no p ↦
      let (c, s, e, z) = digits_rev-first fuel (n / 10) (omega arith) (omega arith) in
      (
        c,
        s ++ ((48 + n % 10) ∷ []),
        ap (λ (t : Str). reverse t) (digits_rev-large fuel n (omega arith))
            ∙ reverse-cons (48 + n % 10) (digits_rev fuel (n / 10))
            ∙ ap (λ (t : Str). t ++ ((48 + n % 10) ∷ [])) e,
        z,
      )
]

parse_uint-cons :
    (c : ℕ) (s : Str) → (c =? b'0') ≡ false → parse_uint (c ∷ s) ≡ digits_from 10 (c ∷ s) 0
unfolding parse_uint
parse_uint-cons c s h = ground arith

parse_uint-zero : parse_uint (decimal 0) ≡ some 0
unfolding parse_uint decimal
parse_uint-zero = refl

-- ParseUint reads the decimal digits of every number below 2^64 back as the number.
pub parse_uint-decimal : (n : ℕ) → n < 2 ^ 64 → parse_uint (decimal n) ≡ some n
unfolding decimal
parse_uint-decimal zero k = parse_uint-zero
parse_uint-decimal (suc m) k =
    let n = suc m in
    let (c, s, e, z) = digits_rev-first (suc n) n (omega arith) (omega arith) in
    ap parse_uint e
    ∙ parse_uint-cons c s z
    ∙ ap (λ (t : Str). digits_from 10 t 0) (sym e)
    ∙ digits_from-digits_rev (suc n) n (omega arith) k
