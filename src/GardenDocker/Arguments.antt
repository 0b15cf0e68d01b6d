-- ===== src/GardenDocker/Arguments.antt =====
-- What cmd/garden-docker makes of its arguments.
use garden_docker.Base.{
  ℕ, Str, txt, str_dec, true, Option, none, some, List, [], ◌≡◌, ◌⊎◌, inl, inr, refl, sym, ap, ◌∙◌,
  arith, Bool-cases, ==_iff, ◌<◌, ◌^◌, ok, ◌==◌, if◌then◌else◌,
}
use garden_docker.Base.GoMap
use garden_docker.Base.GoMap.{GoMap, get-put}
use garden_docker.Base.Flags.{Parsed, parsed, refused, parse_waiting, parse_waiting-Reads, Reads}
use mathlib.Core.Path.{subst}
use mathlib.Core.List.{append-nil}
use garden_docker.Base.Flags.Keeps.{parse_waiting-keeps}
use garden_docker.Base.Uint.{parse_uint, with_digit}
use garden_docker.Base.Uint.RoundTrip.{parse_uint-lt}
use garden_docker.GardenDocker.{
  MainHost, Settings, exited, is_some, value, uint_value, defaults, accepts, settings, serve, main,
}

-- The flag's text is a number.
abbrev pub IsUint : Str → GoMap Str → Type 0
IsUint name flags = (n : ℕ) × (parse_uint (value name flags) ≡ some n)

-- The two uint flags have numbers.
abbrev pub HaveUints : GoMap Str → Type 0
HaveUints flags = IsUint (txt "portPoolStart") flags × IsUint (txt "portPoolSize") flags

number_of_some : (o : Option ℕ) → is_some o ≡ true → (n : ℕ) × (o ≡ some n)
number_of_some none h = cc
number_of_some (some n) h = (n, refl)

pub value-put :
    (k j v : Str) (flags : GoMap Str)
    → value j (GoMap.put k v flags) ≡ (if k == j then v else value j flags)
unfolding value
value-put k j v flags = ground (arith, get-put k j v flags)

module _ {W Duration : Type 0} (host : MainHost W Duration) where
  pub accepts-start : (v : Str) → accepts host (txt "portPoolStart") v ≡ is_some (parse_uint v)
  unfolding accepts txt str_dec
  accepts-start v = refl

  pub accepts-size : (v : Str) → accepts host (txt "portPoolSize") v ≡ is_some (parse_uint v)
  unfolding accepts txt str_dec
  accepts-size v = refl

  IsUint-put :
      (flag_name name v : Str) (flags : GoMap Str)
      → ((x : Str) → accepts host flag_name x ≡ is_some (parse_uint x))
      → accepts host name v ≡ true
      → IsUint flag_name flags
      → IsUint flag_name (GoMap.put name v flags)
  IsUint-put flag_name name v flags same a (n, h) = elim (Bool-cases (name == flag_name)) [
    | inl e ↦
        let (m, k) = number_of_some (parse_uint v) (
          sym (same v)
          ∙ ap (λ (x : Str). accepts host x v) (sym ((==_iff name flag_name).0 e))
          ∙ a) in
        (m, rw (value-put name flag_name v flags, e) k)
    | inr e ↦ (n, rw (value-put name flag_name v flags, e) h)
  ]

  HaveUints-put :
      (name v : Str) (flags : GoMap Str)
      → accepts host name v ≡ true
      → HaveUints flags
      → HaveUints (GoMap.put name v flags)
  HaveUints-put name v flags a (h, k) = (
    IsUint-put (txt "portPoolStart") name v flags accepts-start a h,
    IsUint-put (txt "portPoolSize") name v flags accepts-size a k,
  )

  HaveUints-defaults : HaveUints (defaults host)
  unfolding txt str_dec GoMap.get value parse_uint with_digit
  HaveUints-defaults = ((61001, refl), (5000, refl))

  -- What the flags' texts stand for, and that they fit into 64 bits.
  pub record ReadsPorts (flags : GoMap Str) (s : Settings Duration) : Type 0 where
    pub start_read : parse_uint (value (txt "portPoolStart") flags) ≡ some s.port_pool_start
    pub size_read : parse_uint (value (txt "portPoolSize") flags) ≡ some s.port_pool_size
    pub start_fits : s.port_pool_start < 2 ^ 64
    pub size_fits : s.port_pool_size < 2 ^ 64

  pub uint_value-eq :
      (name : Str) (flags : GoMap Str) (n : ℕ)
      → parse_uint (value name flags) ≡ some n
      → uint_value name flags ≡ n
  unfolding uint_value
  uint_value-eq name flags n e = rw (uint_value, e) refl

  settings-ReadsPorts :
      (flags : GoMap Str) → HaveUints flags → ReadsPorts flags (settings host flags)
  unfolding settings
  settings-ReadsPorts flags ((n, h), (m, k)) =
      let p = uint_value-eq (txt "portPoolStart") flags n h in
      let q = uint_value-eq (txt "portPoolSize") flags m k in
      record {
        start_read = h ∙ ap some (sym p);
        size_read = k ∙ ap some (sym q);
        start_fits = subst (λ x. x < 2 ^ 64) (sym p) (parse_uint-lt _ n h);
        size_fits = subst (λ x. x < 2 ^ 64) (sym q) (parse_uint-lt _ m k);
      }

  -- Whatever the arguments: main exits with 2 and has done nothing, or goes on to serve with the
  -- settings of some flags, whose texts for the port pool are the numbers in the settings, which fit
  -- into 64 bits.
  pub main-ReadsPorts :
      (args : List Str) (w : W)
      → (main host args w ≡ (ok (exited 2), w))
        ⊎ ((flags : GoMap Str) × (main host args w ≡ serve host flags (settings host flags) w)
            × ReadsPorts flags (settings host flags))
  unfolding main
  main-ReadsPorts args w = go (parse_waiting (accepts host) args none (defaults host)) refl
    where
      go :
          (p : Parsed)
          → parse_waiting (accepts host) args none (defaults host) ≡ p
          → (main host args w ≡ (ok (exited 2), w))
            ⊎ ((flags : GoMap Str) × (main host args w ≡ serve host flags (settings host flags) w)
                × ReadsPorts flags (settings host flags))
      go refused e = inl (rw (main, e) refl)
      go (parsed flags rest) e = inr (
        flags,
        rw (main, e) refl,
        settings-ReadsPorts flags (
            parse_waiting-keeps (accepts host) HaveUints HaveUints-put args none (defaults host)
              flags rest HaveUints-defaults e),
      )

  pub main-Reads :
      (args : List Str) (flags : GoMap Str) (w : W)
      → Reads (accepts host) args (defaults host) flags
      → main host args w ≡ serve host flags (settings host flags) w
  unfolding parse_waiting main
  main-Reads args flags w r = rw (main, parsed_all) refl
    where
      parsed_all : parse_waiting (accepts host) args none (defaults host) ≡ parsed flags []
      parsed_all =
          ap (λ (xs : List Str). parse_waiting (accepts host) xs none (defaults host))
            (sym (append-nil args))
          ∙ parse_waiting-Reads (accepts host) args [] (defaults host) flags r
