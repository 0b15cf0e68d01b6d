-- ===== src/Create/Ports.antt =====
-- The port pool of net.go, which all containers of one creator of create.go share.
use garden_docker.Base.{
  ℕ, zero, suc, Option, some, List, [], ◌∷◌, ◌≡◌, ◌≢◌, inl, inr, refl, sym, ◌∙◌, Outcome, ok,
}
use mathlib.Core.Path.{subst}
use garden_docker.Base.Ensures.{ok-injective}
use garden_docker.Base.GoMap.{In}
use garden_docker.Garden.{ContainerSpec}
use garden_docker.Net.{HostNet, net_in}
use garden_docker.Net.Ports.{
  Lawful, Choice, choose, sharing, Allows, net_in-Allows, left_by, Allows-free,
}
use garden_docker.Container.{Machine, Container}
use garden_docker.Create
use garden_docker.Create.{DaemonContainerCreator}
use garden_docker.Create.Outcomes.{create_outcomes}

-- The container was returned by a call of the creator's Create.
abbrev pub IsOf : {W : Type 0} → DaemonContainerCreator W → Container W → Type 0
IsOf {W = W} d c = (given : ContainerSpec) × (m : Machine W) × ((Create.create d given m).0 ≡ ok c)

abbrev pub Distinct : List ℕ → Type 0
Distinct [] = Unit
Distinct (p ∷ ps) = ¬ In p ps × Distinct ps

-- A container, the port on the host and the port of the container.
abbrev pub Request : Type 0 → Type 0
Request W = Container W × ℕ × ℕ

abbrev pub AreOf : {W : Type 0} → DaemonContainerCreator W → List (Request W) → Type 0
AreOf d [] = Unit
AreOf d ((c, _, _) ∷ requests) = IsOf d c × AreOf d requests

-- The free ports after requests, by the specification alone.
abbrev pub left_after : {W : Type 0} → List (Request W) → List ℕ → List ℕ
left_after [] ps = ps
left_after ((c, from, to) ∷ requests) ps = left_after requests (left_by (choose from to ps))

-- Ports on the host that two choices made, both of them among these, and not the same.
abbrev pub Differ : List ℕ → Option Choice → Option Choice → Type 0
Differ ps (some x) (some y) = In x.from ps × In y.from ps × (x.from ≢ y.from)
Differ ps _ _ = Unit

In-left_by : (from to p : ℕ) (ps : List ℕ) → In p (left_by (choose from to ps)) → In p ps
In-left_by zero to p [] i = i
In-left_by zero to p (q ∷ ps) i = inr i
In-left_by (suc n) to p ps i = i

In-left_after :
    {W : Type 0} (requests : List (Request W)) (p : ℕ) (ps : List ℕ)
    → In p (left_after requests ps)
    → In p ps
In-left_after [] p ps i = i
In-left_after ((c, from, to) ∷ requests) p ps i =
    In-left_by from to p ps (In-left_after requests p (left_by (choose from to ps)) i)

left_by-Distinct :
    (from to : ℕ) (ps : List ℕ) → Distinct ps → Distinct (left_by (choose from to ps))
left_by-Distinct zero to [] d = tt
left_by-Distinct zero to (q ∷ ps) d = d.1
left_by-Distinct (suc n) to ps d = d

left_after-Distinct :
    {W : Type 0} (requests : List (Request W)) (ps : List ℕ)
    → Distinct ps
    → Distinct (left_after requests ps)
left_after-Distinct [] ps d = d
left_after-Distinct ((c, from, to) ∷ requests) ps d =
    left_after-Distinct requests (left_by (choose from to ps)) (left_by-Distinct from to ps d)

-- Two requests for any port, with others before and between them.
choices-Differ :
    {W : Type 0} (before between : List (Request W)) (a b : ℕ) (ps : List ℕ)
    → Distinct ps
    → Differ ps
        (choose 0 a (left_after before ps))
        (choose 0 b (left_after between (left_by (choose 0 a (left_after before ps)))))
choices-Differ before between a b ps d =
    by_left (left_after before ps) (left_after-Distinct before ps d)
      (λ p. In-left_after before p ps)
  where
    later :
        (p : ℕ) (left rest : List ℕ)
        → In p ps
        → ¬ In p left
        → ((q : ℕ) → In q rest → In q left)
        → ((q : ℕ) → In q left → In q ps)
        → Differ ps (choose 0 a (p ∷ left)) (choose 0 b rest)
    later p left [] i apart within all = tt
    later p left (q ∷ rest) i apart within all = (
      i,
      all q (within q (inl refl)),
      λ same. apart (subst (λ n. In n left) (sym same) (within q (inl refl))),
    )

    by_left :
        (free : List ℕ)
        → Distinct free
        → ((q : ℕ) → In q free → In q ps)
        → Differ ps (choose 0 a free) (choose 0 b (left_after between (left_by (choose 0 a free))))
    by_left [] d all = tt
    by_left (p ∷ left) d all =
        later p left (left_after between left) (all p (inl refl)) d.0
          (λ q. In-left_after between q left) (λ q i. all q (inr i))

module _ {W : Type 0} (d : DaemonContainerCreator W) (host : HostNet W)
    (l : Lawful host d.chain d.port_pool) where
  -- A container has its creator's chain and pool.
  handler_of-shared :
      (c : Container W)
      → IsOf d c
      → c.net_handler ≡ sharing d.chain d.port_pool c.info_handler.container_ip
  handler_of-shared c (given, m, e) = elim (create_outcomes d given m) [
    | inl f ↦ absurd (f.no_container c e)
    | inr made ↦
        subst
          (λ (k : Container W).
            k.net_handler ≡ sharing d.chain d.port_pool k.info_handler.container_ip)
          (ok-injective made.made c (sym made.returned ∙ e)) made.its_net_handler
  ]

  -- What the specification allows for a request to a container for a port.
  abbrev pub Answers : Container W → ℕ → W → Option Choice → Outcome (ℕ × ℕ) × W → Type 0
  Answers c = Allows host d.chain d.port_pool l c.info_handler.container_ip

  net_in-Answers :
      (c : Container W) (from to : ℕ) (ps : List ℕ) (w : W)
      → IsOf d c
      → l.free w ≡ ps
      → Answers c from w (choose from to ps) (net_in host c.net_handler from to w)
  net_in-Answers c from to ps w made e =
      subst (λ h. Answers c from w (choose from to ps) (net_in host h from to w))
        (sym (handler_of-shared c made))
        (net_in-Allows host d.chain d.port_pool l c.info_handler.container_ip from to ps w e)

  net_in-free :
      (c : Container W) (from to : ℕ) (ps : List ℕ) (w : W)
      → IsOf d c
      → l.free w ≡ ps
      → l.free (net_in host c.net_handler from to w).1 ≡ left_by (choose from to ps)
  net_in-free c from to ps w made e =
      Allows-free host d.chain d.port_pool l c.info_handler.container_ip w from to ps _ e
        (net_in-Answers c from to ps w made e)

  -- The world after requests to containers, whose errors their callers survive.
  abbrev pub after : List (Request W) → W → W
  after [] w = w
  after ((c, from, to) ∷ requests) w = after requests (net_in host c.net_handler from to w).1

  -- Whatever Forward answers, the free ports after the requests are those that the choices leave:
  -- each request for port 0 takes one for good, also where Forward fails.
  free-after :
      (requests : List (Request W)) (w : W) (ps : List ℕ)
      → AreOf d requests
      → l.free w ≡ ps
      → l.free (after requests w) ≡ left_after requests ps
  free-after [] w ps made e = e
  free-after ((c, from, to) ∷ requests) w ps (m, made) e =
      free-after requests (net_in host c.net_handler from to w).1 (left_by (choose from to ps)) made
        (net_in-free c from to ps w m e)

  -- Over a lawful pool, chain and host, and whatever Forward answers: if the free ports are distinct,
  -- then two requests for any port, to containers that the one creator made, with any requests to
  -- such containers before and between them, are answered as the specification of NetIn allows for
  -- the free ports that the choices before have left, of which each request for port 0 takes one
  -- for good; and where both choose a port on the host, each is one of the pool's, and they differ.
  pub ports_apart :
      (before between : List (Request W)) (c k : Container W) (a b : ℕ) (w : W)
      → AreOf d before
      → IsOf d c
      → AreOf d between
      → IsOf d k
      → Distinct (l.free w)
      → let first = choose 0 a (left_after before (l.free w)) in
        let second = choose 0 b (left_after between (left_by first)) in
        let w₁ = after before w in
        let w₂ = after between (net_in host c.net_handler 0 a w₁).1 in
        Answers c 0 w₁ first (net_in host c.net_handler 0 a w₁)
        × Answers k 0 w₂ second (net_in host k.net_handler 0 b w₂)
        × Differ (l.free w) first second
  ports_apart before between c k a b w all_before of_c all_between of_k distinct =
      let w₁ = after before w in
      let free₁ = free-after before w (l.free w) all_before refl in
      let left₁ = left_after before (l.free w) in
      let t = (net_in host c.net_handler 0 a w₁).1 in
      let free₂ =
        free-after between t (left_by (choose 0 a left₁)) all_between
          (net_in-free c 0 a left₁ w₁ of_c free₁) in
      (
        net_in-Answers c 0 a left₁ w₁ of_c free₁,
        net_in-Answers k 0 b (left_after between (left_by (choose 0 a left₁))) (after between t)
            of_k free₂,
        choices-Differ before between a b (l.free w) distinct,
      )
