-- ===== src/Initd/Exits.antt =====
-- How cmd/initd ends, seen through a host that notes what is done.
use garden_docker.Base.{
  Str, txt, List, [], ◌∷◌, ◌++◌, ◌≡◌, refl, sym, ap, ◌∙◌, Error, message, Outcome, ok, fail, panic,
}
use mathlib.Core.Path.{subst}
use garden_docker.Base.GoMap.{GoMap}
use garden_docker.Base.Flags
use garden_docker.Base.Flags.{Parsed, parsed, refused}
use garden_docker.Dosh.{value}
use garden_docker.Initd.{InitdHost, Exit, defaults, exit, serve, main}

-- What initd does of the system.
pub data Act : Type 0 where
  reaper_started reaper_stopped : Act
  listened served : Str → Act

-- The same host, which notes what is done, the latest first.
abbrev pub noting_acts : {W : Type 0} → InitdHost W → InitdHost (W × List Act)
noting_acts host = record {
  start_reaper = λ (w, acts). (host.start_reaper w, reaper_started ∷ acts);
  stop_reaper = λ (w, acts). (host.stop_reaper w, reaper_stopped ∷ acts);
  listen =
      λ path (w, acts). ((host.listen path w).0, ((host.listen path w).1, listened path ∷ acts));
  run_daemon = λ path (w, acts).
      ((host.run_daemon path w).0, ((host.run_daemon path w).1, served path ∷ acts));
}

module _ {W : Type 0} (host : InitdHost W) (w : W) where
  abbrev pub Result : Type 0
  Result = Outcome Exit × (W × List Act)

  -- What listening on the socket yields, and what the daemon behind it.
  abbrev pub listening : Str → Outcome (Unit {0}) × W
  listening socket = host.listen socket (host.start_reaper w)

  abbrev pub serving : Str → Outcome (Unit {0}) × W
  serving socket = host.run_daemon socket (listening socket).1

  -- The ways in which initd can end with this socket, and what is done by then.
  pub data Ends (socket : Str) (r : Result) : Type 0 where
    not_listening :
        (cause : Error)
        → (listening socket).0 ≡ fail cause
        → r.0
          ≡ ok (record {
            status = 1;
            stdout = txt "listen on " ++ (socket ++ (txt ": " ++ message cause));
          })
        → r.1.1 ≡ listened socket ∷ reaper_started ∷ []
        → Ends socket r
    not_serving :
        (cause : Error)
        → (listening socket).0 ≡ ok tt
        → (serving socket).0 ≡ fail cause
        → r.0 ≡ ok (record { status = 3; stdout = message cause ++ (10 ∷ []) })
        → r.1.1 ≡ served socket ∷ listened socket ∷ reaper_started ∷ []
        → Ends socket r
    served_all :
        (listening socket).0 ≡ ok tt
        → (serving socket).0 ≡ ok tt
        → r.0 ≡ ok (record { status = 0; stdout = [] })
        → r.1.1 ≡ reaper_stopped ∷ served socket ∷ listened socket ∷ reaper_started ∷ []
        → Ends socket r
    listen_panics :
        (m : Str)
        → (listening socket).0 ≡ panic m
        → r.0 ≡ panic m
        → r.1.1 ≡ reaper_stopped ∷ listened socket ∷ reaper_started ∷ []
        → Ends socket r
    daemon_panics :
        (m : Str)
        → (listening socket).0 ≡ ok tt
        → (serving socket).0 ≡ panic m
        → r.0 ≡ panic m
        → r.1.1 ≡ reaper_stopped ∷ served socket ∷ listened socket ∷ reaper_started ∷ []
        → Ends socket r

  serve-Ends : (socket : Str) → Ends socket (serve (noting_acts host) socket (w, []))
  unfolding serve
  serve-Ends socket = by_listen (listening socket).0 refl
    where
      by_daemon :
          (o : Outcome (Unit {0}))
          → (listening socket).0 ≡ ok tt
          → (serving socket).0 ≡ o
          → Ends socket (serve (noting_acts host) socket (w, []))
      by_daemon (ok u) p q = served_all p q (rw (p, q) refl) (rw (p, q) refl)
      by_daemon (fail e) p q = not_serving e p q (rw (p, q) refl) (rw (p, q) refl)
      by_daemon (panic m) p q = daemon_panics m p q (rw (p, q) refl) (rw (p, q) refl)

      by_listen :
          (o : Outcome (Unit {0}))
          → (listening socket).0 ≡ o
          → Ends socket (serve (noting_acts host) socket (w, []))
      by_listen (ok u) p = by_daemon (serving socket).0 p refl
      by_listen (fail e) p = not_listening e p (rw p refl) (rw p refl)
      by_listen (panic m) p = listen_panics m p (rw p refl) (rw p refl)

  -- The ways in which main can end.
  pub data Exits (args : List Str) (r : Result) : Type 0 where
    refuses :
        Flags.parse args defaults ≡ refused
        → r ≡ (ok (record { status = 2; stdout = [] }), (w, []))
        → Exits args r
    ends :
        (flags : GoMap Str) (rest : List Str)
        → Flags.parse args defaults ≡ parsed flags rest
        → Ends (value (txt "socketPath") flags) r
        → Exits args r

  -- main, behind the parser.
  abbrev behind_parser : Parsed → Result
  behind_parser (parsed flags rest) =
      serve (noting_acts host) (value (txt "socketPath") flags) (w, [])
  behind_parser refused = (exit 2 [], (w, []))

  main-behind_parser :
      (args : List Str)
      → main (noting_acts host) args (w, []) ≡ behind_parser (Flags.parse args defaults)
  unfolding main
  main-behind_parser args = by_flags (Flags.parse args defaults)
    where
      by_flags :
          (p : Parsed)
          → elim p as (λ _. Result) [
            | parsed flags rest ↦ serve (noting_acts host) (value (txt "socketPath") flags) (w, [])
            | refused ↦ (exit 2 [], (w, []))
          ]
            ≡ behind_parser p
      by_flags (parsed flags rest) = refl
      by_flags refused = refl

  -- Whatever the arguments, initd exits with 2 and has done nothing if the flag package refuses
  -- them. Else it starts the reaper and listens on the socket of its flag once; it exits with 1 if
  -- that fails, and with 3 if the daemon, which it runs once and only then, fails, each with the
  -- cause on its standard output and with the reaper not stopped; and it exits with 0, the reaper
  -- stopped at last, if the daemon returns without error. It panics just as the two calls do, with
  -- the reaper stopped.
  pub main-Exits : (args : List Str) → Exits args (main (noting_acts host) args (w, []))
  main-Exits args = by_flags (Flags.parse args defaults) refl
    where
      by_flags :
          (p : Parsed)
          → Flags.parse args defaults ≡ p
          → Exits args (main (noting_acts host) args (w, []))
      by_flags (parsed flags rest) e =
          let same = main-behind_parser args ∙ ap behind_parser e in
          ends flags rest e (
            subst (Ends (value (txt "socketPath") flags)) (sym same)
              (serve-Ends (value (txt "socketPath") flags)))
      by_flags refused e = refuses e (main-behind_parser args ∙ ap behind_parser e)
