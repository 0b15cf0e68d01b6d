-- ===== src/Integration/Running.antt =====
-- What Run of the runner of integration/runner does to its directory and to the process.
use garden_docker.Base.{ExecCmd, exec_command, Option, List, Error, Outcome, ok, fail, panic}
use garden_docker.Integration.{RunnerHost, Loop, Runner, GardenClients, new_client, garden_args}
use garden_docker.Integration.Notes.{Note}
use garden_docker.Integration.Signals.{Destroys}

-- How the runner ends, for the outcome of making its directory, after which it goes on as `rest`.
abbrev pub if_made :
    Outcome (Unit {0}) → List Note → Outcome Loop × List Note → Outcome Loop × List Note
if_made (ok u) notes rest = rest
if_made (fail e) notes rest = (fail e, notes)
if_made (panic m) notes rest = (panic m, notes)

module _ {S C : Type 0} (host : RunnerHost S) (lib : GardenClients C (S × List Note)) (r : Runner)
    (failure : Option Error) (l : Destroys (new_client lib r) failure) where
  abbrev command : ExecCmd
  command = exec_command r.bin (garden_args r)
