-- ===== src/GardenDocker/Commands/Created.antt =====
-- How a Create of garden-docker's creator ends, by the docker commands that it runs.
use garden_docker.Base.{
  ℕ, Str, txt, str_dec, none, some, List, [], ◌∷◌, ◌≡◌, inl, inr, refl, sym, ap, ◌∙◌, message,
  Outcome, ok, ExecCmd, RunResult, CommandRunner, prefixed,
}
use mathlib.Core.Path.{subst}
use garden_docker.Base.Binds.{ended, ended-made_nothing, ended-fail, ended-ok}
use garden_docker.Base.Ensures.{ok-injective}
use garden_docker.Garden.{ContainerSpec}
use garden_docker.Net.{PortPool}
use garden_docker.DockerCli.{trim_newlines}
use garden_docker.Container.{Machine, Container}
use garden_docker.Create.{inspect_error, run_cmd, inspect_cmd, container, with_rootfs, create}
use garden_docker.Create.Ends.{
  run_for, inspect_for, container_for, at_world, HasDir, HasPath, HasStarted, Ends, no_depot,
  bad_rootfs, empty_path, no_run, no_inspect, done,
}
use garden_docker.Create.Stages.{create-Ends}
use garden_docker.GardenDocker.{MainHost, Settings, creator}
use garden_docker.GardenDocker.Commands.{
  run_line, inspect_line, noting_creator, run_cmd-line, inspect_cmd-line, after_run, id_of, ran,
  inspected, Made, Ran, neither, run_failed, inspect_failed, both,
}
use garden_docker.GardenDocker.Commands.Calls.{Called, run-Called, inspect-Called}

module _ {W Duration : Type 0} (given_host : MainHost (W × List ExecCmd) Duration)
    (runner : CommandRunner W) (s : Settings Duration) (initd : Str)
    (pool : PortPool (W × List ExecCmd)) where
  abbrev c : garden_docker.Create.DaemonContainerCreator (W × List ExecCmd)
  c = noting_creator given_host runner s initd pool

  module _ (given : ContainerSpec) (m : Machine (W × List ExecCmd)) (dir : Str)
      (before : W × List ExecCmd) where
    abbrev IsRan : Made given_host runner s initd pool given m dir before → Type 0
    IsRan r = Ran given_host runner s initd pool given m dir before r

    ran-Called :
        (image : Str) (r : Outcome Str × (W × List ExecCmd))
        → c.docker_runner.run (run_for c given m dir image) before ≡ r
        → Called runner (txt "run: ") (run_line initd dir image) before r
    unfolding creator run_cmd inspect_cmd
    ran-Called image r h =
        run-Called runner (run_for c given m dir image) (run_line initd dir image) before r
          (run_cmd-line given_host runner s initd pool dir image) h

    abbrev its_ran : Str → RunResult × W
    its_ran image = ran given_host runner s initd pool given m dir before image

    abbrev its_id : Str → Str
    its_id image = id_of given_host runner s initd pool given m dir before image

    abbrev its_inspected : Str → RunResult × W
    its_inspected image = inspected given_host runner s initd pool given m dir before image

    abbrev behind_run : Str → W × List ExecCmd
    behind_run image = after_run given_host runner s initd pool given m dir before image

    -- `docker run` has answered with an identifier.
    started :
        (image docker_id : Str) (v : W × List ExecCmd)
        → HasStarted c given m dir image before docker_id v
        → ((its_ran image).0.err ≡ none) × (docker_id ≡ its_id image) × (v ≡ behind_run image)
    started image docker_id v h =
        let (answered, world) = ran-Called image (ok docker_id, v) h in
        elim answered [
          | inl (fine, same) ↦ (fine, ok-injective docker_id (its_id image) same, world)
          | inr (e, p, q) ↦ cc
        ]

    -- And `docker inspect` behind it.
    inspected-Called :
        (image docker_id : Str) (v : W × List ExecCmd) (r : Outcome Str × (W × List ExecCmd))
        → docker_id ≡ its_id image
        → v ≡ behind_run image
        → c.docker_runner.inspect (inspect_for c given m docker_id) v ≡ r
        → Called runner (txt "inspect: ") (inspect_line (its_id image)) (behind_run image) r
    unfolding creator run_cmd inspect_cmd
    inspected-Called image docker_id v r same world h =
        inspect-Called runner (inspect_for c given m (its_id image)) (inspect_line (its_id image))
          (behind_run image) r (inspect_cmd-line given_host runner s initd pool (its_id image))
          (ap
              (λ (x : Str × (W × List ExecCmd)).
                c.docker_runner.inspect (inspect_for c given m x.0) x.1)
              (λ i. (sym same i, sym world i))
            ∙ h)

    no_run-IsRan :
        (first : ℕ) (image : Str) (o : Outcome Str) (v : W × List ExecCmd)
        (r : Made given_host runner s initd pool given m dir before)
        → HasPath c given m (first ∷ image)
        → c.docker_runner.run (run_for c given m dir image) before ≡ (o, v)
        → ended (prefixed (txt "create: ")) o ≡ some r.0
        → r.1 ≡ at_world c given m v
        → IsRan r
    unfolding txt str_dec message
    no_run-IsRan first image o v r path h stop world =
        let (answered, there) = ran-Called image (o, v) h in
        elim answered [
          | inl (fine, same) ↦ absurd (ended-ok (prefixed (txt "create: ")) o r.0 _ same stop)
          | inr (cause, failed, same) ↦
              run_failed first image cause path failed
                (ended-fail (prefixed (txt "create: ")) o r.0 _ same stop)
                (world ∙ ap (at_world c given m) there)
        ]

    no_inspect-IsRan :
        (first : ℕ) (image docker_id : Str) (v : W × List ExecCmd) (o : Outcome Str)
        (u : W × List ExecCmd) (r : Made given_host runner s initd pool given m dir before)
        → HasPath c given m (first ∷ image)
        → HasStarted c given m dir image before docker_id v
        → c.docker_runner.inspect (inspect_for c given m docker_id) v ≡ (o, u)
        → ended (inspect_error docker_id) o ≡ some r.0
        → r.1 ≡ at_world c given m u
        → IsRan r
    unfolding txt str_dec message
    no_inspect-IsRan first image docker_id v o u r path h i stop world =
        let (fine, same_id, there) = started image docker_id v h in
        let (answered, behind) = inspected-Called image docker_id v (o, u) same_id there i in
        let stopped = subst (λ x. ended (inspect_error x) o ≡ some r.0) same_id stop in
        elim answered [
          | inl (_, same) ↦ absurd (ended-ok (inspect_error (its_id image)) o r.0 _ same stopped)
          | inr (cause, failed, same) ↦
              inspect_failed first image cause path fine failed
                (ended-fail (inspect_error (its_id image)) o r.0 _ same stopped)
                (world ∙ ap (at_world c given m) behind)
        ]

    done-IsRan :
        (first : ℕ) (image docker_id : Str) (v : W × List ExecCmd) (ip : Str) (u : W × List ExecCmd)
        (r : Made given_host runner s initd pool given m dir before)
        → HasPath c given m (first ∷ image)
        → HasStarted c given m dir image before docker_id v
        → c.docker_runner.inspect (inspect_for c given m docker_id) v ≡ (ok ip, u)
        → r.0 ≡ ok (container_for c given m dir docker_id ip)
        → r.1.outside ≡ u
        → IsRan r
    done-IsRan first image docker_id v ip u r path h i made world =
        let (fine, same_id, there) = started image docker_id v h in
        let (answered, behind) = inspected-Called image docker_id v (ok ip, u) same_id there i in
        elim answered [
          | inl (well, same) ↦
              both first image _ path fine well made
                (record {
                  its_id = same_id;
                  its_ip = ok-injective ip (trim_newlines (its_inspected image).0.stdout) same;
                  its_path = refl;
                })
                (world ∙ behind)
          | inr (e, p, q) ↦ cc
        ]

  module _ (given : ContainerSpec) (m : Machine (W × List ExecCmd)) (dir : Str)
      (before : W × List ExecCmd) (has_dir : HasDir c given m dir before) where
    abbrev Result : Type 0
    Result = Outcome (Container (W × List ExecCmd)) × Machine (W × List ExecCmd)

    abbrev Answer : Type 0
    Answer = Outcome Str × (W × List ExecCmd)

    -- The depot's answer is the one there is.
    same_dir :
        (dir' : Str) (w : W × List ExecCmd) (r : Result)
        → HasDir c given m dir' w
        → Ran given_host runner s initd pool given m dir' w r
        → Ran given_host runner s initd pool given m dir before r
    same_dir dir' w r h ran_there =
        let e = sym h ∙ has_dir in
        let dirs = ok-injective dir' dir (ap (λ (x : Answer). x.0) e) in
        let worlds = ap (λ (x : Answer). x.1) e in
        subst (λ x. Ran given_host runner s initd pool given m dir x r) worlds
          (subst (λ x. Ran given_host runner s initd pool given m x w r) dirs ran_there)

    by_way :
        (r : Result) → Ends c given m r → Ran given_host runner s initd pool given m dir before r
    by_way r (no_depot o w b e stop p) = absurd (
        ended-ok (prefixed (txt "create depot dir: ")) o b dir
          (ap (λ (x : Answer). x.0) (sym e ∙ has_dir)) stop)
    by_way r (bad_rootfs dir' w o b e path stop p) = same_dir dir' w r e (
        neither
          (λ first image h.
            ended-ok (prefixed (txt "create: not a valid rootfs path: ")) o b (first ∷ image)
              (sym path ∙ h) stop)
          (λ x q.
            ended-made_nothing (prefixed (txt "create: not a valid rootfs path: ")) o b x stop
              (sym (ap (λ (x : Result). x.0) p) ∙ q))
          (ap (λ (x : Result). x.1) p))
    by_way r (empty_path dir' w e path p) = same_dir dir' w r e (
        neither (λ first image h. cc (ok-injective [] (first ∷ image) (sym path ∙ h)))
          (λ x q. cc (sym (ap (λ (x : Result). x.0) p) ∙ q)) (ap (λ (x : Result). x.1) p))
    by_way r (no_run dir' w first image o v b e path h stop p) = same_dir dir' w r e (
        no_run-IsRan given m dir' w first image o v r path h
          (stop ∙ ap (λ (x : Result). some x.0) (sym p)) (ap (λ (x : Result). x.1) p))
    by_way r (no_inspect dir' w first image id v o u b e path h i stop p) = same_dir dir' w r e (
        no_inspect-IsRan given m dir' w first image id v o u r path h i
          (stop ∙ ap (λ (x : Result). some x.0) (sym p)) (ap (λ (x : Result). x.1) p))
    by_way r (done dir' w first image id v ip u e path h i p) = same_dir dir' w r e (
        done-IsRan given m dir' w first image id v ip u r path h i (ap (λ (x : Result). x.0) p)
          (ap (λ (x : Result). x.1.outside) p))

    -- If the depot has made a directory, then Create ends in one of the ways of `Ran`.
    pub create-Ran : Ran given_host runner s initd pool given m dir before (create c given m)
    create-Ran = by_way (create c given m) (create-Ends c given m)
