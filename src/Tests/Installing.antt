-- ===== src/Tests/Installing.antt =====
-- A depot that works, for the container that a creator returned.
use garden_docker.Base.{txt, str_dec, [], ◌∷◌, ◌≡◌, refl, ok, ◌>>=◌}
use garden_docker.Base.FilePath.{join}
use garden_docker.Depot
use garden_docker.Depot.{DepotHost, ContainerDepot}
use garden_docker.Depot.Steps.{recording}
use garden_docker.Base.{ℕ, suc, Str, ◌≢◌, arith, ap, ◌=?◌, ◌==◌, if◌then◌else◌}
use garden_docker.Base.FilePath.{split, rooted}
use garden_docker.Base.FilePath.Laws.{IsElement}
use garden_docker.Create.{run_cmd, dosh_in, initd_socket, container}
use garden_docker.Create.Sockets.{host_file}
use garden_docker.Create.Apart.{containers_apart}
use garden_docker.Create.Programs.{Serves, create-Serves}
use garden_docker.Tests.Creation.{creator, named, fresh, one, created_one}

-- A host on which every call works and the world never changes.
abbrev works : DepotHost (Unit {0})
works = record {
  new_v4 = λ w. (ok (txt "1"), w);
  mkdir_all = λ path mode w. (ok tt, w);
  build = λ package_path w. (ok (txt "/tmp/built"), w);
  run = λ cmd w. (ok tt, w);
}

abbrev depot : ContainerDepot
depot = record { dir = txt "/depot" }

created_1 : (Depot.create (recording works) depot (tt, [])).0 ≡ ok one.info_handler.container_path
unfolding Depot.create container txt str_dec ◌>>=◌ join
created_1 = refl

create-Serves_example :
    Serves
      (Depot.create (recording works) depot (tt, [])).1.1
      (one.run_handler.container_cmd.cmd (txt "ls") (txt "-l" ∷ []))
      (run_cmd creator one.info_handler.container_path (txt "busybox")).volumes
create-Serves_example =
    create-Serves creator (txt "ls") (txt "-l" ∷ []) (txt "busybox") (named (txt "one")) fresh one
      works depot tt created_one created_1

-- A host on which identifiers are made of the number of those before.
abbrev numbered : DepotHost ℕ
numbered = record {
  new_v4 = λ n. (ok (if n =? 0 then txt "id1" else txt "id2"), suc n);
  mkdir_all = λ path mode n. (ok tt, n);
  build = λ package_path n. (ok (txt "/tmp/built"), n);
  run = λ cmd n. (ok tt, n);
}

id1-IsElement : IsElement (txt "id1")
unfolding txt str_dec split rooted
id1-IsElement = record {
  not_empty = refl;
  not_dot = refl;
  not_dots = refl;
  not_split = refl;
  not_rooted = refl;
}

id2-IsElement : IsElement (txt "id2")
unfolding txt str_dec split rooted
id2-IsElement = record {
  not_empty = refl;
  not_dot = refl;
  not_dots = refl;
  not_split = refl;
  not_rooted = refl;
}

last_of : Str → ℕ
last_of [] = 0
last_of (b ∷ bs) = if bs == [] then b else last_of bs

one_two_apart : (m n : ℕ) → m ≡ 49 → n ≡ 50 → m ≢ n
one_two_apart m n e f same = omega arith

ids_differ : txt "id1" ≢ txt "id2"
unfolding txt str_dec last_of
ids_differ e = one_two_apart (last_of (txt "id1")) (last_of (txt "id2")) refl refl (ap last_of e)

created_id1 : (Depot.create numbered depot 0).0 ≡ ok (txt "/depot/id1")
unfolding Depot.create txt str_dec ◌>>=◌ join
created_id1 = refl

created_id2 : (Depot.create numbered depot 1).0 ≡ ok (txt "/depot/id2")
unfolding Depot.create txt str_dec ◌>>=◌ join
created_id2 = refl

containers_apart_example :
    (txt "/depot/id1" ≢ txt "/depot/id2")
    × (host_file (run_cmd creator (txt "/depot/id1") (txt "busybox")).volumes initd_socket
        ≢ host_file (run_cmd creator (txt "/depot/id2") (txt "busybox")).volumes initd_socket)
    × ((dosh_in (txt "/depot/id1")).initd_sock ≢ (dosh_in (txt "/depot/id2")).initd_sock)
containers_apart_example =
    containers_apart numbered depot creator (txt "busybox") (txt "busybox") 0 1 (txt "id1")
      (txt "id2") (txt "/depot/id1") (txt "/depot/id2") id1-IsElement id2-IsElement ids_differ refl
      refl created_id1 created_id2
