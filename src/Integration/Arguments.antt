-- ===== src/Integration/Arguments.antt =====
-- What cmd/garden-docker makes of the arguments that integration/runner gives it.
use garden_docker.Base.{
  Str, txt, str_dec, true, false, none, some, List, [], ◌++◌, ◌≡◌, refl, ap, ◌∙◌, ◌==◌,
  if◌then◌else◌,
}
use garden_docker.Base.GoMap
use garden_docker.Base.GoMap.{GoMap, get-put}
use garden_docker.Base.Flags.{flag, shape, Reads, nothing, apart}
use garden_docker.GardenDocker.{
  MainHost, value, uint_value, duration_value, defaults, accepts, settings, serve, main, or_zero,
}
use garden_docker.Base.Uint.{parse_uint}
use garden_docker.GardenDocker.Arguments.{value-put, main-Reads}
use garden_docker.Integration.{Runner, garden_args}
use garden_docker.Base.Flags.Defined.{Defined, Defined-put, Defined-Reads, Reads-append}
use garden_docker.Integration.Defaults.{added_args, MentionsNone, garden_args-new}

module _ {W Duration : Type 0} (host : MainHost W Duration) where
  -- cf_lager's flags have the log level among them.
  abbrev pub HasLogLevel : Type 0
  HasLogLevel = (v : Str) × (GoMap.get (txt "logLevel") host.logger_flags ≡ some v)

  -- The flags with what the runner adds.
  abbrev with_added : Str → Str → GoMap Str → GoMap Str
  with_added network addr flags =
      GoMap.put (txt "logLevel") (txt "debug")
        (GoMap.put (txt "listenAddr") addr (GoMap.put (txt "listenNetwork") network flags))

  added_shapes :
      (shape (txt "--listenNetwork") ≡ flag (txt "listenNetwork") none)
      × (shape (txt "--listenAddr") ≡ flag (txt "listenAddr") none)
      × (shape (txt "--logLevel") ≡ flag (txt "logLevel") none)
  unfolding shape txt
  added_shapes = (refl, refl, refl)

  added_accepted :
      (network addr : Str)
      → (accepts host (txt "listenNetwork") network ≡ true)
        × (accepts host (txt "listenAddr") addr ≡ true)
        × (accepts host (txt "logLevel") (txt "debug") ≡ true)
  unfolding accepts txt str_dec
  added_accepted network addr = (refl, refl, refl)

  added-Defined :
      (l : HasLogLevel)
      → Defined (txt "listenNetwork") (defaults host)
        × Defined (txt "listenAddr") (defaults host)
        × Defined (txt "logLevel") (defaults host)
  unfolding GoMap.get txt str_dec
  added-Defined (v, l) = ((txt "tcp", refl), (txt "0.0.0.0:7777", refl), (v, l))

  read_added :
      (network addr : Str) (argv : List Str) (flags : GoMap Str)
      → HasLogLevel
      → Reads (accepts host) argv (defaults host) flags
      → Reads (accepts host) (added_args network addr) flags (with_added network addr flags)
  read_added network addr argv flags l r =
      let (s, t, u) = added_shapes in
      let (a, b, c) = added_accepted network addr in
      let (x, y, z) = added-Defined l in
      let dx = Defined-Reads (accepts host) (txt "listenNetwork") argv (defaults host) flags r x in
      let dy = Defined-Reads (accepts host) (txt "listenAddr") argv (defaults host) flags r y in
      let dz = Defined-Reads (accepts host) (txt "logLevel") argv (defaults host) flags r z in
      let n = txt "listenNetwork" in
      let ey = Defined-put (txt "listenAddr") n network flags dy in
      let ez = Defined-put (txt "logLevel") n network flags dz in
      apart s dx.1 a (
        apart t ey.1 b (
          apart u
            (Defined-put (txt "logLevel") (txt "listenAddr") addr (GoMap.put n network flags) ez).1
            c nothing))

  value-added :
      (network addr : Str) (flags : GoMap Str)
      → (value (txt "listenNetwork") (with_added network addr flags) ≡ network)
        × (value (txt "listenAddr") (with_added network addr flags) ≡ addr)
        × (value (txt "depotDir") (with_added network addr flags) ≡ value (txt "depotDir") flags)
        × (value (txt "containerGraceTime") (with_added network addr flags)
            ≡ value (txt "containerGraceTime") flags)
        × (value (txt "portPoolStart") (with_added network addr flags)
            ≡ value (txt "portPoolStart") flags)
        × (value (txt "portPoolSize") (with_added network addr flags)
            ≡ value (txt "portPoolSize") flags)
  unfolding txt str_dec
  value-added network addr flags =
      let a = txt "listenNetwork" in
      let b = txt "listenAddr" in
      let c = txt "logLevel" in
      let f = GoMap.put a network flags in
      let g = GoMap.put b addr f in
      let kept =
        λ (j : Str) (p : (if a == j then network else value j flags) ≡ value j flags)
            (q : (if b == j then addr else value j f) ≡ value j f)
            (r : (if c == j then txt "debug" else value j g) ≡ value j g).
          value-put c j (txt "debug") g
          ∙ r
          ∙ value-put b j addr f
          ∙ q
          ∙ value-put a j network flags
          ∙ p in
      (
        value-put c a (txt "debug") g ∙ value-put b a addr f ∙ value-put a a network flags,
        value-put c b (txt "debug") g ∙ value-put b b addr f,
        kept (txt "depotDir") refl refl refl,
        kept (txt "containerGraceTime") refl refl refl,
        kept (txt "portPoolStart") refl refl refl,
        kept (txt "portPoolSize") refl refl refl,
      )

  settings-added :
      (network addr : Str) (flags : GoMap Str)
      → settings host (with_added network addr flags)
        ≡ record (settings host flags) { listen_network = network; listen_addr = addr }
  unfolding settings uint_value
  settings-added network addr flags =
      let (n, a, d, g, p, q) = value-added network addr flags in
      λ i. record {
        listen_network = n i;
        listen_addr = a i;
        depot_dir = d i;
        container_grace_time = duration_value host.no_duration host.parse_duration (g i);
        port_pool_start = or_zero (parse_uint (p i));
        port_pool_size = or_zero (parse_uint (q i));
      }

  -- If the runner's own arguments are flags that garden-docker defines, with values that they
  -- accept, and name none of the flags that the runner adds, and if the runner has a network and an
  -- address, then garden-docker, run with the runner's arguments, goes on to serve on that network
  -- and address, with all other settings as the runner's own arguments have them.
  pub main-garden_args :
      (r : Runner) (flags : GoMap Str) (w : W)
      → HasLogLevel
      → Reads (accepts host) r.argv (defaults host) flags
      → MentionsNone r.argv
      → (r.network == []) ≡ false
      → (r.addr == []) ≡ false
      → (given : GoMap Str) × (main host (garden_args r) w
          ≡ serve host given (settings host given) w)
        × (settings host given
            ≡ record (settings host flags) { listen_network = r.network; listen_addr = r.addr })
  main-garden_args r flags w l reads m h k = (
    with_added r.network r.addr flags,
    ap (λ (args : List Str). main host args w) (garden_args-new r m h k)
        ∙ main-Reads host (r.argv ++ added_args r.network r.addr)
            (with_added r.network r.addr flags) w
            (Reads-append (accepts host) r.argv (added_args r.network r.addr) (defaults host) flags
              (with_added r.network r.addr flags) reads
              (read_added r.network r.addr r.argv flags l reads)),
    settings-added r.network r.addr flags,
  )
