-- ===== src/Tests/Network.antt =====
-- NetIn over a pool that is a list of ports, with a chain that refuses port 80 of the container.
use garden_docker.Base.{
  ℕ, Str, txt, some, List, [], ◌∷◌, ◌≡◌, refl, Error, text, Outcome, ok, fail, panic, ◌≢◌, Go, ◌=?◌,
  if◌then◌else◌,
}
use garden_docker.Base.{inl, inr, arith, ◌>>=◌}
use garden_docker.Net.{Chain, PortPool, HostNet, net_in}
use garden_docker.Net.Ports.{Lawful, Allows, sharing, net_in-Allows}
use garden_docker.Container.{Container, allocate}
use garden_docker.Create.{DaemonContainerCreator, with_rootfs, container, create, start}
use garden_docker.Create.Ports.{IsOf, Distinct, Answers, Differ, ports_apart}
use garden_docker.Tests.Creation.{process_one, named}

abbrev dry : Error
dry = text (txt "port pool is exhausted")

abbrev take_first : Go (List ℕ) ℕ
take_first [] = (fail dry, [])
take_first (p ∷ ps) = (ok p, ps)

abbrev forward_unless_80 : ℕ → Outcome (Unit {0})
forward_unless_80 to = if to =? 80 then fail (text (txt "iptables failed")) else ok tt

abbrev chain : Chain (List ℕ)
chain = record { forward = λ action ip from protocol container_ip to w. (forward_unless_80 to, w) }

abbrev pool : PortPool (List ℕ)
pool = record { acquire = take_first }

abbrev address : Str
address = txt "172.17.0.2"

abbrev host : HostNet (List ℕ)
host = record { local_ip = λ w. (ok (txt "10.0.0.1"), w); parse_ip = λ s. s }

take_first-cons : (w : List ℕ) (p : ℕ) (ps : List ℕ) → w ≡ p ∷ ps → (pool.acquire w).0 ≡ ok p
take_first-cons w p ps e = rw (e) refl

take_first-rest : (w : List ℕ) (p : ℕ) (ps : List ℕ) → w ≡ p ∷ ps → (pool.acquire w).1 ≡ ps
take_first-rest w p ps e = rw (e) refl

take_first-dry : (w : List ℕ) → w ≡ [] → pool.acquire w ≡ (fail dry, w)
take_first-dry w e = rw (e) refl

not_panic : (w : List ℕ) (m : Str) → (host.local_ip w).0 ≢ panic m
not_panic w m e = cc

abbrev lawful : Lawful host chain pool
lawful = record {
  free = λ w. w;
  local_ip_free = λ w. refl;
  local_ip_returns = not_panic;
  acquire_first = take_first-cons;
  acquire_free = take_first-rest;
  exhausted = dry;
  acquire_dry = take_first-dry;
  forward_free = λ ip address from to w. refl;
}

abbrev two_ports : List ℕ
two_ports = 61001 ∷ 61002 ∷ []

net_in-Allows_example :
    Allows host chain pool lawful address 0 two_ports
      (some (record { from = 61001; to = 8080; left = 61002 ∷ [] }))
      (net_in host (sharing chain pool address) 0 8080 two_ports)
net_in-Allows_example = net_in-Allows host chain pool lawful address 0 8080 two_ports two_ports refl

abbrev always : {A : Type 0} → A → Go (List ℕ) A
always a w = (ok a, w)

abbrev pool_creator : DaemonContainerCreator (List ℕ)
pool_creator = record {
  default_rootfs = txt "docker:///busybox";
  depot = record { create = always (txt "/depot/1") };
  dosh_path = [];
  initd_path = txt "/tmp/initd";
  chain = chain;
  port_pool = pool;
  docker_runner = record {
    run = λ cmd. always (txt "abc");
    inspect = λ cmd. always (txt "172.17.0.2");
  };
  new_tracker = λ dir. record {
    run = λ id cmd io tty signaller. always process_one;
    attach = λ id io. always process_one;
  };
  url_path = λ url. ok (txt "/busybox");
}

-- The containers of this creator, by their handles.
abbrev with_handle : Str → Container (List ℕ)
with_handle h =
    container pool_creator (with_rootfs pool_creator (named h)) (txt "/depot/1") (txt "abc")
      (txt "172.17.0.2") 0

with_handle-IsOf : (h : Str) → IsOf pool_creator (with_handle h)
unfolding create ◌>>=◌ txt start allocate with_rootfs
with_handle-IsOf h = (named h, record { heap = []; outside = [] }, refl)

two_ports-Distinct : Distinct two_ports
two_ports-Distinct = (
  λ i. elim i [ inl e ↦ first_apart 61001 61002 refl refl e | inr j ↦ absurd j ],
  (λ i. absurd i, tt),
)
  where
    first_apart : (m n : ℕ) → m ≡ 61001 → n ≡ 61002 → m ≢ n
    first_apart m n e f same = omega arith

-- Between the two requests, a port is asked for by its number. The first request fails, and its port
-- is gone all the same.
ports_apart_example :
    Answers pool_creator host lawful
      (with_handle (txt "one"))
      0
      two_ports
      (some (record { from = 61001; to = 80; left = 61002 ∷ [] }))
      (net_in host (with_handle (txt "one")).net_handler 0 80 two_ports)
    × Answers pool_creator host lawful
        (with_handle (txt "two"))
        0
        (net_in host
          (with_handle (txt "three")).net_handler
          5000
          8080
          (net_in host (with_handle (txt "one")).net_handler 0 80 two_ports).1).1
        (some (record { from = 61002; to = 61002; left = [] }))
        (net_in host
          (with_handle (txt "two")).net_handler
          0
          0
          (net_in host
            (with_handle (txt "three")).net_handler
            5000
            8080
            (net_in host (with_handle (txt "one")).net_handler 0 80 two_ports).1).1)
    × Differ two_ports
        (some (record { from = 61001; to = 80; left = 61002 ∷ [] }))
        (some (record { from = 61002; to = 61002; left = [] }))
ports_apart_example =
    ports_apart pool_creator host lawful [] ((with_handle (txt "three"), 5000, 8080) ∷ [])
      (with_handle (txt "one")) (with_handle (txt "two")) 80 0 two_ports tt
      (with_handle-IsOf (txt "one")) (with_handle-IsOf (txt "three"), tt)
      (with_handle-IsOf (txt "two")) two_ports-Distinct
