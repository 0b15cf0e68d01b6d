-- ===== src/Garden/Rules.antt =====
-- A rule for the outgoing traffic of a container of the garden API
-- (Godeps/_workspace/src/github.com/cloudfoundry-incubator/garden: net_out_rule.go).
-- An address is the bytes of a `net.IP`.
use garden_docker.Base.{ℕ, Str, Bool, Option, List}

pub record IpRange : Type 0 where
  pub start : Str
  pub end : Str

pub record PortRange : Type 0 where
  pub start : ℕ
  pub end : ℕ

pub record IcmpControl : Type 0 where
  pub kind : ℕ
  pub code : Option ℕ

-- A protocol is the number of its constant.
pub record NetOutRule : Type 0 where
  pub protocol : ℕ
  pub networks : List IpRange
  pub ports : List PortRange
  pub icmps : Option IcmpControl
  pub log : Bool
