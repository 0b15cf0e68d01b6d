-- ===== src/Net/Ports.antt =====
-- How NetIn chooses its ports, against a specification over the list of free ports. The pool, the
-- chain and the host are third-party code: what NetIn relies on of them is `Lawful`.
use garden_docker.Base.{
  ℕ, zero, suc, Str, txt, false, Option, none, some, List, [], ◌∷◌, ◌≡◌, ◌≢◌, refl, sym, ap, ◌∙◌,
  arith, Error, Outcome, ok, fail, panic, text, message, decimal, ◌++◌, ◌=?◌,
}
use garden_docker.Net.{
  NetHandler, Chain, PortPool, HostNet, add, or_no_ip, choose_container_port, forward, net_in,
}

-- The free ports of a world, and what the third-party code does to them. LocalIP does not panic.
-- Acquire takes the first free port, and fails on a dry pool and leaves the world alone. Neither
-- LocalIP nor Forward touches the pool.
pub record Lawful {W : Type 0} (host : HostNet W) (chain : Chain W) (pool : PortPool W)
    : Type 0 where
  pub free : W → List ℕ
  pub local_ip_free : (w : W) → free (host.local_ip w).1 ≡ free w
  pub local_ip_returns : (w : W) (m : Str) → (host.local_ip w).0 ≢ panic m
  pub acquire_first : (w : W) (p : ℕ) (ps : List ℕ) → free w ≡ p ∷ ps → (pool.acquire w).0 ≡ ok p
  pub acquire_free : (w : W) (p : ℕ) (ps : List ℕ) → free w ≡ p ∷ ps → free (pool.acquire w).1 ≡ ps
  pub exhausted : Error
  pub acquire_dry : (w : W) → free w ≡ [] → pool.acquire w ≡ (fail exhausted, w)
  pub forward_free :
      (ip address : Str) (from to : ℕ) (w : W)
      → free (chain.forward add ip from (txt "tcp") address to w).1 ≡ free w

-- The port on the host, the port of the container, and the ports that stay free.
pub record Choice : Type 0 where
  pub from : ℕ
  pub to : ℕ
  pub left : List ℕ

-- The port of the container: the host's, where it is given as 0.
abbrev pub to_or : ℕ → ℕ → ℕ
to_or from zero = from
to_or from (suc n) = suc n

to_or-eq : (from to : ℕ) → choose_container_port from to ≡ to_or from to
to_or-eq from zero = ground arith
to_or-eq from (suc n) = ground arith

-- A request for port 0 takes the first free port; any other port is taken as it is, and is not
-- looked for among the free ones. The container's port is the host's if it is given as 0.
abbrev pub choose : ℕ → ℕ → List ℕ → Option Choice
choose zero to [] = none
choose zero to (p ∷ ps) = some (record { from = p; to = to_or p to; left = ps })
choose (suc n) to ps = some (record { from = suc n; to = to_or (suc n) to; left = ps })

-- The ports that a choice leaves free.
abbrev pub left_by : Option Choice → List ℕ
left_by none = []
left_by (some ch) = ch.left

-- The host's address: none where LocalIP has an error.
abbrev pub ip_of : Outcome Str → Str
ip_of (ok ip) = ip
ip_of _ = []

not_zero : (n : ℕ) → (suc n =? 0) ≡ false
not_zero n = ground arith

-- What NetIn makes of Forward's outcome.
abbrev pub answer_to : ℕ → ℕ → Outcome (Unit {0}) → Outcome (ℕ × ℕ)
answer_to from to (ok _) = ok (0, 0)
answer_to from to (fail e) = fail (
    text
      (txt "netin " ++ (decimal from ++ (txt " to " ++ (decimal to ++ (txt ": " ++ message e))))))
answer_to from to (panic m) = panic m

answer_to-zero :
    (from to : ℕ) (o : Outcome (Unit {0})) (r : ℕ × ℕ) → answer_to from to o ≡ ok r → r ≡ (0, 0)
answer_to-zero from to o r h = ground arith

-- The handler of a container with the address, over the chain and the pool that all share.
abbrev pub sharing : {W : Type 0} → Chain W → PortPool W → Str → NetHandler W
sharing chain pool address = record { container_ip = address; chain = chain; port_pool = pool }

module _ {W : Type 0} (host : HostNet W) (chain : Chain W) (pool : PortPool W)
    (l : Lawful host chain pool) (address : Str) where
  -- The world in which Forward is called: LocalIP was called, and Acquire behind it for port 0.
  abbrev pub before_forward : ℕ → W → W
  before_forward zero w = (pool.acquire (host.local_ip w).1).1
  before_forward (suc n) w = (host.local_ip w).1

  -- One call of Forward from the world `v`, in which the ports are free that the choice left, with
  -- the host's address: what it answers is answered, and the world behind it is the last.
  abbrev pub Forwards : W → W → Choice → Outcome (ℕ × ℕ) × W → Type 0
  Forwards w v ch r =
      let ip = ip_of (host.local_ip w).0 in
      (l.free v ≡ ch.left)
      × (r ≡ (
        answer_to ch.from ch.to
            (chain.forward add (host.parse_ip ip) ch.from (txt "tcp") address ch.to v).0,
        (chain.forward add (host.parse_ip ip) ch.from (txt "tcp") address ch.to v).1,
      ))

  -- What the specification allows for a request for the port `from` from the world `w`.
  abbrev pub Allows : ℕ → W → Option Choice → Outcome (ℕ × ℕ) × W → Type 0
  Allows from w none r =
      (r.0 ≡ fail (text (txt "netin: acquire port from pool: " ++ message l.exhausted)))
      × (r.1 ≡ (host.local_ip w).1)
  Allows from w (some ch) r = Forwards w (before_forward from w) ch r

  forward-eq :
      (ip : Str) (from to : ℕ) (w : W)
      → forward host (sharing chain pool address) ip from to w ≡ (
        answer_to from to (chain.forward add (host.parse_ip ip) from (txt "tcp") address to w).0,
        (chain.forward add (host.parse_ip ip) from (txt "tcp") address to w).1,
      )
  unfolding forward
  forward-eq ip from to w = ground arith

  local_ip_ok : (w : W) → or_no_ip (host.local_ip w).0 ≡ ok (ip_of (host.local_ip w).0)
  unfolding txt
  local_ip_ok w = go (host.local_ip w).0 refl
    where
      go : (o : Outcome Str) → (host.local_ip w).0 ≡ o → or_no_ip o ≡ ok (ip_of o)
      go (ok ip) e = refl
      go (fail x) e = refl
      go (panic m) e = absurd (l.local_ip_returns w m e)

  -- Over a lawful pool, chain and host, for every request and every list of free ports, NetIn
  -- chooses its ports as `choose` does: for port 0 the first free one, else the one asked for, and
  -- for the container's port 0 the one of the host. With port 0 and a dry pool it fails with the
  -- pool's error, and leaves the world as LocalIP has left it. Otherwise it ends in the
  -- world that one call of Forward makes, from the chosen port to the chosen one, right behind
  -- LocalIP or, for port 0, Acquire, with the ports left over free; and its outcome is Forward's: an
  -- error with the ports in it, or a success, which reports the ports 0 and 0 whatever was chosen.
  pub net_in-Allows :
      (from to : ℕ) (ps : List ℕ) (w : W)
      → l.free w ≡ ps
      → Allows from w (choose from to ps) (net_in host (sharing chain pool address) from to w)
  unfolding net_in
  net_in-Allows zero to [] w h =
      ground (arith, local_ip_ok w, l.acquire_dry (host.local_ip w).1, l.local_ip_free w)
  net_in-Allows zero to (p ∷ ps) w h =
      let v = (host.local_ip w).1 in
      let q = l.local_ip_free w ∙ h in
      (
        l.acquire_free v p ps q,
        rw (local_ip_ok w, l.acquire_first v p ps q, to_or-eq p to)
            (forward-eq (ip_of (host.local_ip w).0) p (to_or p to) (pool.acquire v).1),
      )
  net_in-Allows (suc n) to ps w h = (
    l.local_ip_free w ∙ h,
    rw (local_ip_ok w, not_zero n, to_or-eq (suc n) to)
        (forward-eq (ip_of (host.local_ip w).0) (suc n) (to_or (suc n) to) (host.local_ip w).1),
  )

  Allows-zero :
      (from : ℕ) (w : W) (o : Option Choice) (x : Outcome (ℕ × ℕ) × W) (r : ℕ × ℕ)
      → Allows from w o x
      → x.0 ≡ ok r
      → r ≡ (0, 0)
  Allows-zero from w none x r a h = cc (a.0)
  Allows-zero from w (some ch) x r (q, e) h =
      answer_to-zero ch.from ch.to _ r (sym (ap (λ (y : Outcome (ℕ × ℕ) × W). y.0) e) ∙ h)

  -- Over a lawful pool, chain and host, a success of NetIn reports the ports as 0 and 0, whatever was asked for and forwarded.
  net_in_reports_zero :
      (from to : ℕ) (w : W) (r : ℕ × ℕ)
      → (net_in host (sharing chain pool address) from to w).0 ≡ ok r
      → r ≡ (0, 0)
  net_in_reports_zero from to w r h =
      Allows-zero from w (choose from to (l.free w)) _ r (net_in-Allows from to (l.free w) w refl) h

  pub Allows-free :
      (w : W) (from to : ℕ) (ps : List ℕ) (x : Outcome (ℕ × ℕ) × W)
      → l.free w ≡ ps
      → Allows from w (choose from to ps) x
      → l.free x.1 ≡ left_by (choose from to ps)
  Allows-free w zero to [] x h a = ap l.free a.1 ∙ l.local_ip_free w ∙ h
  Allows-free w zero to (p ∷ ps) x h (q, e) =
      ap (λ (y : Outcome (ℕ × ℕ) × W). l.free y.1) e ∙ l.forward_free _ address _ _ _ ∙ q
  Allows-free w (suc n) to ps x h (q, e) =
      ap (λ (y : Outcome (ℕ × ℕ) × W). l.free y.1) e ∙ l.forward_free _ address _ _ _ ∙ q

  -- Over a lawful pool, chain and host, if the first free port is asked for by its number, the next request for port 0 is given the
  -- same port again.
  pub explicit_port_is_given_again :
      (n a b : ℕ) (ps : List ℕ) (w : W)
      → l.free w ≡ suc n ∷ ps
      → Forwards w
          (before_forward (suc n) w)
          (record { from = suc n; to = to_or (suc n) a; left = suc n ∷ ps })
          (net_in host (sharing chain pool address) (suc n) a w)
        × Forwards
            (net_in host (sharing chain pool address) (suc n) a w).1
            (before_forward 0 (net_in host (sharing chain pool address) (suc n) a w).1)
            (record { from = suc n; to = to_or (suc n) b; left = ps })
            (net_in host
              (sharing chain pool address)
              0
              b
              (net_in host (sharing chain pool address) (suc n) a w).1)
  explicit_port_is_given_again n a b ps w h =
      let first = net_in-Allows (suc n) a (suc n ∷ ps) w h in
      (
        first,
        net_in-Allows 0 b (suc n ∷ ps) (net_in host (sharing chain pool address) (suc n) a w).1
            (Allows-free w (suc n) a (suc n ∷ ps) _ h first),
      )
