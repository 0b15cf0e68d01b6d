-- ===== src/Backend.antt =====
-- backend.go: the operations of the garden server's backend.
pub mod Containers
pub mod Contract
pub mod Heap
pub mod Reach
pub mod Bulk
pub mod Api
use garden_docker.Base.{
  ℕ, Str, txt, Bool, true, false, Option, none, some, List, [], ◌∷◌, Error, Outcome, ok, fail,
  panic, Go, ExecCmd, exec_command, ◌==◌, ◌||◌, if◌then◌else◌,
}
use garden_docker.Base.GoMap
use garden_docker.Base.GoMap.{GoMap, RangeOrder}
use garden_docker.Garden.{
  ContainerSpec, Capacity, ContainerInfoEntry, ContainerInfo, ContainerMetricsEntry, no_info,
}
use garden_docker.Garden.Api.{GardenContainer}
use garden_docker.Container.{Machine, Container, handle, info, metrics, container_has_properties}

-- The interface `Creator`.
abbrev pub Creator : Type 0 → Type 0
Creator W = ContainerSpec → Go (Machine W) (Container W)

-- The interface `Repo`, over the states `R` of the repository that is pointed to. A filter may
-- panic.
pub record RepoInterface (R C : Type 0) : Type 0 where
  pub all : R → Outcome (List C)
  pub add : R → C → R
  pub find_by_handle : R → Str → Outcome C
  pub query : R → (C → Outcome Bool) → Outcome (List C)
  pub delete : R → C → R

pub record Backend (W R : Type 0) : Type 0 where
  pub creator : Creator W
  pub repo : RepoInterface R (Container W)

-- The machine and the state of the repository, on which the backend acts.
pub record Server (W R : Type 0) : Type 0 where
  pub machine : Machine W
  pub repo : R

-- The loop of `withHandles`.
unfoldable pub is_one_of : List Str → Str → Bool
is_one_of [] h = false
is_one_of (e ∷ es) h = e == h || is_one_of es h

module _ {W : Type 0} where
  -- `withProperties`, on the present heap.
  abbrev pub with_properties :
      RangeOrder Str → Option (GoMap Str) → Machine W → Container W → Outcome Bool
  with_properties o props m = container_has_properties o m.heap props

  -- `withHandles`
  abbrev pub with_handles : List Str → Container W → Outcome Bool
  with_handles handles c = ok (is_one_of handles (handle c))

  -- `toGardenContainers` copies the list.
  unfoldable pub to_garden_containers : List (Container W) → List (Container W)
  to_garden_containers [] = []
  to_garden_containers (c ∷ cs) = c ∷ to_garden_containers cs

  abbrev listed : Outcome (List (Container W)) → Outcome (List (Container W))
  listed (ok cs) = ok (to_garden_containers cs)
  listed (fail e) = fail e
  listed (panic m) = panic m

module _ {W R : Type 0} where
  -- A step on the machine alone.
  abbrev pub on_machine : {A : Type 0} → Go (Machine W) A → Go (Server W R) A
  on_machine m s = ((m s.machine).0, record s { machine = (m s.machine).1 })

  abbrev pub added : Backend W R → Outcome (Container W) → Server W R → Server W R
  added b (ok c) s = record s { repo = b.repo.add s.repo c }
  added b (fail e) s = s
  added b (panic m) s = s

  -- `Create`
  unfoldable pub create : Backend W R → ContainerSpec → Go (Server W R) (Container W)
  create b spec s =
      let (o, m) = b.creator spec s.machine in (o, added b o (record s { machine = m }))

  -- `Start`: the error of starting the command is dropped. The command is run by the first
  -- argument, which stands for os/exec.
  unfoldable pub start : (ExecCmd → W → W) → Go (Server W R) (Unit {0})
  start exec s = (
    ok tt,
    record s {
      machine = record s.machine {
        outside = exec (exec_command (txt "wrapdocker") []) s.machine.outside;
      };
    },
  )

  unfoldable pub stop : Go (Server W R) (Unit {0})
  stop s = (ok tt, s)

  -- `GraceTime`, in nanoseconds.
  unfoldable pub grace_time : GardenContainer (Server W R) → ℕ
  grace_time c = 300_000_000_000

  unfoldable pub ping : Go (Server W R) (Unit {0})
  ping s = (ok tt, s)

  unfoldable pub capacity : Go (Server W R) Capacity
  capacity s =
      (ok (record { memory_in_bytes = 500000; disk_in_bytes = 500000; max_containers = 1000 }), s)

  unfoldable pub destroy : Str → Go (Server W R) (Unit {0})
  destroy h s = (ok tt, s)

  -- `Lookup`
  unfoldable pub lookup : Backend W R → Str → Go (Server W R) (Container W)
  lookup b h s = (b.repo.find_by_handle s.repo h, s)

  -- `Containers`. The first argument is the order in which the runtime visits the properties.
  unfoldable pub containers :
      RangeOrder Str → Backend W R → Option (GoMap Str) → Go (Server W R) (List (Container W))
  containers o b props s = (listed (b.repo.query s.repo (with_properties o props s.machine)), s)

-- The entry of one container: what `Info` returns, or its error.
abbrev pub info_entry : ContainerInfo → Option Error → ContainerInfoEntry
info_entry i e = record { info = i; err = e }

module _ {W : Type 0} where
  -- The loop of `BulkInfo` over the containers still to visit.
  unfoldable pub infos_of :
      List (Container W) → GoMap ContainerInfoEntry → Go (Machine W) (GoMap ContainerInfoEntry)
  infos_of [] infos m = (ok infos, m)
  infos_of (c ∷ cs) infos m =
      let (o, m') = info c.info_handler m in
      elim o [
        | ok i ↦ infos_of cs (GoMap.put (handle c) (info_entry i none) infos) m'
        | fail e ↦ infos_of cs (GoMap.put (handle c) (info_entry no_info (some e)) infos) m'
        | panic p ↦ (panic p, m')
      ]

  abbrev collect :
      {A : Type 0}
      → (List (Container W) → Go (Machine W) A)
      → Outcome (List (Container W))
      → Go (Machine W) A
  collect f (ok cs) m = f cs m
  collect f (fail e) m = (fail e, m)
  collect f (panic p) m = (panic p, m)

  -- The loop of `BulkMetrics`: `Metrics` always returns.
  unfoldable pub metrics_of :
      List (Container W) → GoMap ContainerMetricsEntry → GoMap ContainerMetricsEntry
  metrics_of [] entries = entries
  metrics_of (c ∷ cs) entries =
      metrics_of cs (GoMap.put (handle c) (record { metrics = metrics c; err = none }) entries)

module _ {W R : Type 0} where
  -- `BulkInfo`
  unfoldable pub bulk_info : Backend W R → List Str → Go (Server W R) (GoMap ContainerInfoEntry)
  bulk_info b handles s =
      on_machine (collect (λ cs. infos_of cs []) (b.repo.query s.repo (with_handles handles))) s

  -- `BulkMetrics`
  unfoldable pub bulk_metrics :
      Backend W R → List Str → Go (Server W R) (GoMap ContainerMetricsEntry)
  bulk_metrics b handles s =
      on_machine
        (collect (λ cs m. (ok (metrics_of cs []), m)) (b.repo.query s.repo (with_handles handles)))
        s
