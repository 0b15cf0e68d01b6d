-- ===== src/Net.antt =====
-- net.go: forwarding ports of the host to the container.
pub mod Ports
use garden_docker.Base.{
  ℕ, Str, txt, decimal, message, ◌++◌, Error, text, Outcome, ok, fail, panic, Go, pure, wrapping,
  prefixed, ◌>>=◌, ◌>>◌, ◌=?◌, if◌then◌else◌,
}
use garden_docker.Garden.{NetOutRule}

-- `iptables.Action`
pub data Action : Type 0 where
  add delete : Action

-- The interface `Chain`. The address is the bytes of a `net.IP`.
pub record Chain (W : Type 0) : Type 0 where
  pub forward : Action → Str → ℕ → Str → Str → ℕ → Go W (Unit {0})

-- garden-linux's `PortPool`, as far as the handler calls it.
pub record PortPool (W : Type 0) : Type 0 where
  pub acquire : Go W ℕ

-- gunk's `localip.LocalIP` and Go's `net.ParseIP`.
pub record HostNet (W : Type 0) : Type 0 where
  pub local_ip : Go W Str
  pub parse_ip : Str → Str

pub record NetHandler (W : Type 0) : Type 0 where
  pub container_ip : Str
  pub chain : Chain W
  pub port_pool : PortPool W

-- `externalIP, _ := localip.LocalIP()`: with an error it comes back empty.
abbrev pub or_no_ip : Outcome Str → Outcome Str
or_no_ip (ok ip) = ok ip
or_no_ip (fail e) = ok (txt "")
or_no_ip (panic m) = panic m

-- `fmt.Errorf("netin %d to %d: %s", hostPort, containerPort, err)`
abbrev pub netin_error : ℕ → ℕ → Error → Error
netin_error host_port container_port e = text (
    txt "netin "
    ++ (decimal host_port ++ (txt " to " ++ (decimal container_port ++ (txt ": " ++ message e)))))

abbrev pub choose_container_port : ℕ → ℕ → ℕ
choose_container_port host_port container_port =
    if container_port =? 0 then host_port else container_port

module _ {W : Type 0} (host : HostNet W) (c : NetHandler W) where
  abbrev pub external_ip : Go W Str
  external_ip w = (or_no_ip (host.local_ip w).0, (host.local_ip w).1)

  unfoldable pub choose_host_port : ℕ → Go W ℕ
  choose_host_port host_port =
      if host_port =? 0
      then wrapping (prefixed (txt "netin: acquire port from pool: ")) c.port_pool.acquire
      else pure host_port

  unfoldable pub forward : Str → ℕ → ℕ → Go W (ℕ × ℕ)
  unfolding ◌>>=◌
  forward ip from to = do
    wrapping (netin_error from to)
        (c.chain.forward add (host.parse_ip ip) from (txt "tcp") c.container_ip to)
    pure (0, 0)

  -- `NetIn`. A uint32 port as an int is the same number.
  unfoldable pub net_in : ℕ → ℕ → Go W (ℕ × ℕ)
  unfolding choose_host_port forward ◌>>=◌
  net_in host_port container_port = do
    ip ← external_ip
    from ← choose_host_port host_port
    forward ip from (choose_container_port from container_port)

  -- `NetOut`: the rule is accepted and forgotten.
  unfoldable pub net_out : NetOutRule → Go W (Unit {0})
  net_out rule = pure tt
