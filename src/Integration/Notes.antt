-- ===== src/Integration/Notes.antt =====
-- What the runner of integration/runner has done and how it ends, by the signals that it receives.
use garden_docker.Base.{
  ExecCmd, Str, Option, none, some, List, [], ◌∷◌, ◌++◌, Error, Outcome, ok, fail, if◌then◌else◌,
}
use garden_docker.GardenDocker.{Signal, sighup, sigint, sigquit, sigkill, sigterm}
use garden_docker.Integration.{Event, signalled, process_ended, process_exited, Loop, done, is_quit}

-- The signal that the process is sent for a signal that the runner receives.
abbrev pub sent_for : Signal → Signal
sent_for sigquit = sigterm
sent_for sighup = sighup
sent_for sigint = sigint
sent_for sigkill = sigkill
sent_for sigterm = sigterm

-- What the runner has done to the process and to its directory.
pub data Note : Type 0 where
  made_dir : Str → Note
  started : ExecCmd → Note
  sent : Signal → Note
  removed_dir : Str → Note

-- The error with which a signal ends the runner: that of destroyContainers, if it has one.
abbrev pub stops : Option Error → Signal → Option Error
stops failure sigquit = failure
stops failure sighup = none
stops failure sigint = none
stops failure sigkill = none
stops failure sigterm = none

-- What is done for signals received, the latest first, after what was done before, and the error
-- that ended the runner meanwhile, without a signal sent for the one that ended it.
abbrev pub follow : Option Error → List Signal → List Note → List Note × Option Error
follow failure [] notes = (notes, none)
follow failure (s ∷ received) notes = elim (stops failure s) [
  | none ↦ follow failure received (sent (sent_for s) ∷ notes)
  | some y ↦ (notes, some y)
]

-- How the runner ends, where it goes on as `rest` if no error has ended it.
abbrev pub ends_as :
    List Note × Option Error → (List Note → Outcome Loop × List Note) → Outcome Loop × List Note
ends_as (notes, none) rest = rest notes
ends_as (notes, some y) rest = (fail y, notes)

-- The directory is removed after a SIGQUIT.
abbrev pub cleaned_after : Str → Option Signal → List Note → List Note
cleaned_after tmpdir none notes = notes
cleaned_after tmpdir (some s) notes = if is_quit s then removed_dir tmpdir ∷ notes else notes

abbrev pub all_signalled : List Signal → List Event
all_signalled [] = []
all_signalled (s ∷ ss) = signalled s ∷ all_signalled ss

-- Signals that are received before the process ends, and between its end and the receipt of it.
abbrev pub until_exit : List Signal → List Signal → Option Error → List Event → List Event
until_exit received late e more =
    all_signalled received ++ (process_ended ∷ (all_signalled late ++ (process_exited e ∷ more)))

abbrev pub last_of : Option Signal → List Signal → Option Signal
last_of last [] = last
last_of last (s ∷ ss) = last_of (some s) ss

abbrev pub outcome_of : Option Error → Outcome (Unit {0})
outcome_of none = ok tt
outcome_of (some e) = fail e

-- What the runner returns for the error with which the process ended.
abbrev pub returned_for : Option Error → Outcome Loop
returned_for none = ok done
returned_for (some e) = fail e
