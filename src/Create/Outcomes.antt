-- ===== src/Create/Outcomes.antt =====
-- What create.go's Create does to the heap and returns, read off the ways in which it ends.
use garden_docker.Base.{
  some, [], ◌∷◌, ◌++◌, ◌≡◌, ◌≢◌, ◌⊎◌, inl, inr, refl, sym, ap, ◌∙◌, Error, Outcome, ok,
}
use garden_docker.Base.Binds.{ended, ended-made_nothing}
use garden_docker.Base.Lists.{length}
use garden_docker.Garden.{ContainerSpec}
use garden_docker.Props.{new_props_handler}
use garden_docker.Container.{Machine, Container}
use garden_docker.Create.{DaemonContainerCreator, dosh_in, create}
use garden_docker.Run.{dosh_cmder, dosh_command}
use garden_docker.Create.Ends.{
  spec_for, container_for, Ends, no_depot, bad_rootfs, empty_path, no_run, no_inspect, done,
}
use garden_docker.Create.Stages.{create-Ends}

-- No container was made, and the heap is as it was.
pub record Failed {W : Type 0} (m : Machine W) (r : Outcome (Container W) × Machine W)
    : Type 0 where
  pub no_container : (c : Container W) → r.0 ≢ ok c
  pub same_heap : r.1.heap ≡ m.heap

-- A container was made: it holds the spec, the default root file system put in, the number of the
-- one handler that the heap has new, the chain and the pool of the creator with its own address,
-- and runs processes by the dosh of its own directory.
pub record Made {W : Type 0} (d : DaemonContainerCreator W) (given : ContainerSpec) (m : Machine W)
    (r : Outcome (Container W) × Machine W) : Type 0 where
  pub made : Container W
  pub returned : r.0 ≡ ok made
  pub its_spec : made.info_handler.spec ≡ spec_for d given m
  pub its_handler : made.info_handler.props_handler ≡ length m.heap
  pub new_heap : r.1.heap ≡ m.heap ++ (new_props_handler ∷ [])
  pub its_net_handler : made.net_handler ≡ record {
    container_ip = made.info_handler.container_ip;
    chain = d.chain;
    port_pool = d.port_pool;
  }
  pub its_run_handler : made.run_handler ≡ record {
    process_tracker = d.new_tracker made.info_handler.container_path;
    container_cmd = dosh_cmder (dosh_in made.info_handler.container_path);
  }

module _ {W : Type 0} (d : DaemonContainerCreator W) (given : ContainerSpec) (m : Machine W) where
  failed :
      {A : Type 0} (f : Error → Error) (o : Outcome A) (b : Outcome (Container W)) (w : W)
      (r : Outcome (Container W) × Machine W)
      → ended f o ≡ some b
      → r ≡ (b, record m { outside = w })
      → Failed m r
  failed f o b w r h e = record {
    no_container = λ c p.
        ended-made_nothing f o b c h
          (sym (ap (λ (x : Outcome (Container W) × Machine W). x.0) e) ∙ p);
    same_heap = ap (λ (x : Outcome (Container W) × Machine W). x.1.heap) e;
  }

  from_Ends :
      (r : Outcome (Container W) × Machine W) → Ends d given m r → Failed m r ⊎ Made d given m r
  unfolding dosh_command
  from_Ends r (no_depot o w b x h e) = inl (failed _ o b w r h e)
  from_Ends r (bad_rootfs dir w o b x y h e) = inl (failed _ o b w r h e)
  from_Ends r (empty_path dir w x y e) = inl (record {
    no_container = λ c p. cc;
    same_heap = ap (λ (z : Outcome (Container W) × Machine W). z.1.heap) e;
  })
  from_Ends r (no_run dir w first image o v b x y z h e) = inl (failed _ o b v r h e)
  from_Ends r (no_inspect dir w first image id v o u b x y z t h e) = inl (failed _ o b u r h e)
  from_Ends r (done dir w first image id v ip u x y z t e) = inr (record {
    made = container_for d given m dir id ip;
    returned = ap (λ (q : Outcome (Container W) × Machine W). q.0) e;
    its_spec = refl;
    its_handler = refl;
    its_net_handler = refl;
    its_run_handler = refl;
    new_heap = ap (λ (q : Outcome (Container W) × Machine W). q.1.heap) e;
  })

  -- Create either returns no container and leaves the heap alone, or returns one with the given
  -- spec, the default root file system put in where it names none, with the creator's chain and
  -- pool and the address that it reports, with the tracker and the dosh of the directory that it
  -- reports, and with one new properties handler with a nil map.
  pub create_outcomes : Failed m (create d given m) ⊎ Made d given m (create d given m)
  create_outcomes = from_Ends (create d given m) (create-Ends d given m)
