-- ===== src/GardenDocker/PortFlags.antt =====
-- The flags of the port pool, as cmd/garden-docker reads them.
use garden_docker.Base.{
  ℕ, Str, txt, str_dec, decimal, none, some, [], ◌∷◌, ◌≡◌, refl, ap, ◌∙◌, ◌<◌, ◌^◌,
}
use garden_docker.Base.GoMap
use garden_docker.Base.GoMap.{GoMap, get-put}
use garden_docker.Base.Flags.{flag, shape, Reads, nothing, apart}
use garden_docker.Base.Uint.{parse_uint}
use garden_docker.Base.Uint.RoundTrip.{parse_uint-decimal}
use garden_docker.GardenDocker.{MainHost, is_some, value, defaults, accepts, settings, serve, main}
use garden_docker.GardenDocker.Arguments.{accepts-start, accepts-size, uint_value-eq, main-Reads}

module _ {W Duration : Type 0} (host : MainHost W Duration) where
  start_flag : shape (txt "-portPoolStart") ≡ flag (txt "portPoolStart") none
  unfolding shape txt
  start_flag = refl

  size_flag : shape (txt "-portPoolSize") ≡ flag (txt "portPoolSize") none
  unfolding shape txt
  size_flag = refl

  start_default : GoMap.get (txt "portPoolStart") (defaults host) ≡ some (txt "61001")
  unfolding GoMap.get txt str_dec
  start_default = refl

  -- The flags with the port pool's start.
  abbrev with_start : ℕ → GoMap Str
  with_start n = GoMap.put (txt "portPoolStart") (decimal n) (defaults host)

  size_default : (n : ℕ) → GoMap.get (txt "portPoolSize") (with_start n) ≡ some (txt "5000")
  unfolding GoMap.get GoMap.put txt str_dec
  size_default n = refl

  abbrev with_ports : ℕ → ℕ → GoMap Str
  with_ports n m = GoMap.put (txt "portPoolSize") (decimal m) (with_start n)

  read_ports :
      (n m : ℕ)
      → n < 2 ^ 64
      → m < 2 ^ 64
      → Reads
          (accepts host)
          (txt "-portPoolStart" ∷ decimal n ∷ txt "-portPoolSize" ∷ decimal m ∷ [])
          (defaults host)
          (with_ports n m)
  read_ports n m h k =
      apart start_flag start_default
        (accepts-start host (decimal n) ∙ ap is_some (parse_uint-decimal n h))
        (apart size_flag (size_default n)
          (accepts-size host (decimal m) ∙ ap is_some (parse_uint-decimal m k)) nothing)

  values-with_ports :
      (n m : ℕ)
      → (value (txt "portPoolStart") (with_ports n m) ≡ decimal n)
        × (value (txt "portPoolSize") (with_ports n m) ≡ decimal m)
        × (value (txt "listenNetwork") (with_ports n m) ≡ txt "tcp")
        × (value (txt "listenAddr") (with_ports n m) ≡ txt "0.0.0.0:7777")
  unfolding value GoMap.get GoMap.put txt str_dec
  values-with_ports n m = (refl, refl, refl, refl)

  -- Given the two flags of the port pool with the decimal digits of any two numbers below 2^64,
  -- main goes on to serve, on the default address, with these numbers.
  pub main-port_flags :
      (n m : ℕ) (w : W)
      → n < 2 ^ 64
      → m < 2 ^ 64
      → (flags : GoMap Str) × (main host
            (txt "-portPoolStart" ∷ decimal n ∷ txt "-portPoolSize" ∷ decimal m ∷ [])
            w
          ≡ serve host flags (settings host flags) w)
        × ((settings host flags).port_pool_start ≡ n)
        × ((settings host flags).port_pool_size ≡ m)
        × ((settings host flags).listen_network ≡ txt "tcp")
        × ((settings host flags).listen_addr ≡ txt "0.0.0.0:7777")
  unfolding settings
  main-port_flags n m w h k =
      let (a, b, c, e) = values-with_ports n m in
      (
        with_ports n m,
        main-Reads host _ (with_ports n m) w (read_ports n m h k),
        uint_value-eq host (txt "portPoolStart") (with_ports n m) n
            (ap parse_uint a ∙ parse_uint-decimal n h),
        uint_value-eq host (txt "portPoolSize") (with_ports n m) m
            (ap parse_uint b ∙ parse_uint-decimal m k),
        c,
        e,
      )
