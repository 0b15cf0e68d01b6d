-- ===== src/Integration/Signals.antt =====
-- Which signals the runner of integration/runner sends to the process, and how its loop ends.
use garden_docker.Base.{
  Str, Bool, true, false, Option, none, some, List, [], ◌∷◌, ◌++◌, ◌≡◌, refl, ap, ◌∙◌, Error,
  Outcome, ok, fail, Go, ◌>>=◌, if◌then◌else◌,
}
use garden_docker.Base.Binds.{bind_ok, bind_fail}
use garden_docker.Garden.Api.{Client}
use garden_docker.GardenDocker.{Signal, sighup, sigint, sigquit, sigkill, sigterm}
use garden_docker.Integration.{
  RunnerHost, Event, process_ended, process_exited, Loop, destroy_containers, is_quit, on_signal,
  cleanup, loop,
}
use garden_docker.Integration.Notes.{
  sent_for, stops, follow, ends_as, cleaned_after, all_signalled, until_exit, last_of, outcome_of,
  returned_for, Note, made_dir, started, sent, removed_dir,
}

module _ {S : Type 0} where
  abbrev beside : {A : Type 0} → Go S A → Go (S × List Note) A
  beside m (s, notes) = ((m s).0, ((m s).1, notes))

  -- The same host, which notes the signals that it sends and the directories that it removes.
  abbrev pub noting_host : RunnerHost S → RunnerHost (S × List Note)
  noting_host host = record {
    mkdir_all = λ path mode s.
        ((host.mkdir_all path mode s.0).0, ((host.mkdir_all path mode s.0).1, made_dir path ∷ s.1));
    remove_all = λ path s.
        ((host.remove_all path s.0).0, ((host.remove_all path s.0).1, removed_dir path ∷ s.1));
    invoke = λ cmd s. (host.invoke cmd s.0, started cmd ∷ s.1);
    signal = λ signal s. (host.signal signal s.0, sent signal ∷ s.1);
    exists = λ path s. host.exists path s.0;
    mount = λ source target type. beside (host.mount source target type);
    dial = λ network addr. beside (host.dial network addr);
  }

  -- destroyContainers ends with the error, or always without one, and does none of these itself.
  pub record Destroys (client : Client (S × List Note)) (failure : Option Error) : Type 0 where
    pub returns : (s : S × List Note) → (destroy_containers client s).0 ≡ outcome_of failure
    pub notes_none : (s : S × List Note) → (destroy_containers client s).1.1 ≡ s.1

  -- The loop on this host.
  abbrev pub looping :
      RunnerHost S
      → Client (S × List Note)
      → Str
      → Option Signal
      → List Event
      → Go (S × List Note) Loop
  looping host client tmpdir last events = loop (noting_host host) client tmpdir last events

  -- The loop goes on with the notes, unless an error has ended it.
  abbrev then_on :
      List Note × Option Error
      → S
      → (S × List Note → Outcome Loop × (S × List Note))
      → Outcome Loop × (S × List Note)
  then_on (notes, none) t rest = rest (t, notes)
  then_on (notes, some y) t rest = (fail y, (t, notes))

  module _ (host : RunnerHost S) (client : Client (S × List Note)) (failure : Option Error)
      (l : Destroys client failure) (tmpdir : Str) where
    abbrev State : Type 0
    State = S × List Note

    -- What is done at one signal.
    abbrev handled : Option Error → Signal → State → S → Outcome (Unit {0}) × State
    handled none s x t = (ok tt, (t, sent (sent_for s) ∷ x.1))
    handled (some y) s x t = (fail y, (t, x.1))

    on_signal-sends :
        (s : Signal) (x : State)
        → (t : S) × (on_signal (noting_host host) client s x ≡ handled (stops failure s) s x t)
    unfolding on_signal ◌>>=◌
    on_signal-sends sigquit x = by_failure failure (l.returns x)
      where
        by_failure :
            (f : Option Error)
            → (destroy_containers client x).0 ≡ outcome_of f
            → (t : S) × (on_signal (noting_host host) client sigquit x ≡ handled f sigquit x t)
        by_failure none e =
            let after = (destroy_containers client x).1 in
            (
              host.signal sigterm after.0,
              bind_ok (destroy_containers client) _ x after tt
                    (ap (λ (o : Outcome (Unit {0})). (o, after)) e)
                  ∙ ap
                      (λ (notes : List Note).
                        (ok tt, (host.signal sigterm after.0, sent sigterm ∷ notes)))
                      (l.notes_none x),
            )
        by_failure (some y) e =
            let after = (destroy_containers client x).1 in
            (
              after.0,
              bind_fail (destroy_containers client) _ x after y
                    (ap (λ (o : Outcome (Unit {0})). (o, after)) e)
                  ∙ ap (λ (notes : List Note). (fail y, (after.0, notes))) (l.notes_none x),
            )
    on_signal-sends sighup x = (host.signal sighup x.0, refl)
    on_signal-sends sigint x = (host.signal sigint x.0, refl)
    on_signal-sends sigkill x = (host.signal sigkill x.0, refl)
    on_signal-sends sigterm x = (host.signal sigterm x.0, refl)

    -- Signals, and what happens behind them.
    loop-follow :
        (received : List Signal) (last : Option Signal) (events : List Event) (x : State)
        → (t : S) × (looping host client tmpdir last (all_signalled received ++ events) x
            ≡ then_on
                (follow failure received x.1)
                t
                (looping host client tmpdir (last_of last received) events))
    unfolding loop
    loop-follow [] last events x = (x.0, refl)
    loop-follow (s ∷ received) last events x =
        let (t, e) = on_signal-sends s x in
        by_stop (stops failure s) t (loop-follow received (some s) events) e
      where
        rest : Unit {0} → Go State Loop
        rest u = looping host client tmpdir (some s) (all_signalled received ++ events)

        by_stop :
            (stop : Option Error) (t : S)
            → ((y : State)
                → (v : S) × (looping host client tmpdir
                      (some s)
                      (all_signalled received ++ events)
                      y
                    ≡ then_on
                        (follow failure received y.1)
                        v
                        (looping host client tmpdir (last_of (some s) received) events)))
            → on_signal (noting_host host) client s x ≡ handled stop s x t
            → (v : S) × ((on_signal (noting_host host) client s >>= rest) x
                ≡ then_on
                    (elim stop [
                      | none ↦ follow failure received (sent (sent_for s) ∷ x.1)
                      | some y ↦ (x.1, some y)
                    ])
                    v
                    (looping host client tmpdir (last_of (some s) received) events))
        by_stop none t again e =
            let (v, q) = again (t, sent (sent_for s) ∷ x.1) in
            (v, bind_ok (on_signal (noting_host host) client s) rest x _ tt e ∙ q)
        by_stop (some y) t again e =
            (t, bind_fail (on_signal (noting_host host) client s) rest x _ y e)

    cleanup-notes :
        (last : Option Signal) (x : State)
        → (cleanup (noting_host host) tmpdir last x).1 ≡ cleaned_after tmpdir last x.1
    cleanup-notes none x = refl
    cleanup-notes (some s) x = go (is_quit s)
      where
        go :
            (b : Bool)
            → (if b then ((noting_host host).remove_all tmpdir x).1 else x).1
              ≡ (if b then removed_dir tmpdir ∷ x.1 else x.1)
        go true = refl
        go false = refl

    loop-ended :
        (last : Option Signal) (events : List Event) (x : State)
        → looping host client tmpdir last (process_ended ∷ events) x
          ≡ looping host client tmpdir last events (cleanup (noting_host host) tmpdir last x)
    unfolding loop
    loop-ended last events x = refl

    loop-exited :
        (e : Option Error) (more : List Event) (last : Option Signal) (x : State)
        → looping host client tmpdir last (process_exited e ∷ more) x ≡ (returned_for e, x)
    unfolding loop
    loop-exited none more last x = refl
    loop-exited (some y) more last x = refl

    -- What the loop does and returns, from any signal received last.
    abbrev pub looped :
        List Signal
        → List Signal
        → Option Error
        → Option Signal
        → List Note
        → Outcome Loop × List Note
    looped received late e last notes = ends_as (follow failure received notes) λ before.
        ends_as (follow failure late (cleaned_after tmpdir (last_of last received) before))
          λ done_all. (returned_for e, done_all)

    pub loop-signals :
        (received late : List Signal) (e : Option Error) (more : List Event) (last : Option Signal)
        (x : State)
        → let res = looping host client tmpdir last (until_exit received late e more) x in
          (res.0, res.1.1) ≡ looped received late e last x.1
    loop-signals received late e more last x =
        let (t, p) =
          loop-follow received last
            (process_ended ∷ (all_signalled late ++ (process_exited e ∷ more))) x in
        ap seen p ∙ behind (follow failure received x.1) t
      where
        seen : Outcome Loop × State → Outcome Loop × List Note
        seen r = (r.0, r.1.1)

        behind_late :
            (f : List Note × Option Error) (v : S)
            → seen (
                then_on f v (
                  looping host client tmpdir
                    (last_of (last_of last received) late)
                    (process_exited e ∷ more)))
              ≡ ends_as f (λ done_all. (returned_for e, done_all))
        behind_late (notes, none) v = ap seen (loop-exited e more _ (v, notes))
        behind_late (notes, some y) v = refl

        behind :
            (f : List Note × Option Error) (t : S)
            → seen (
                then_on f t (
                  looping host client tmpdir
                    (last_of last received)
                    (process_ended ∷ (all_signalled late ++ (process_exited e ∷ more)))))
              ≡ ends_as f λ before.
                ends_as
                  (follow failure late (cleaned_after tmpdir (last_of last received) before))
                  (λ done_all. (returned_for e, done_all))
        behind (notes, some y) t = refl
        behind (notes, none) t =
            let now = last_of last received in
            let y = cleanup (noting_host host) tmpdir now (t, notes) in
            let (v, q) = loop-follow late now (process_exited e ∷ more) y in
            ap seen (loop-ended now _ (t, notes) ∙ q)
            ∙ behind_late (follow failure late y.1) v
            ∙ ap (λ n. ends_as (follow failure late n) (λ done_all. (returned_for e, done_all)))
                (cleanup-notes now (t, notes))
