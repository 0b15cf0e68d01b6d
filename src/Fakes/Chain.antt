-- ===== src/Fakes/Chain.antt =====
-- fakes/fake_chain.go
use garden_docker.Base.{ℕ, Str, Option, none, Error, Outcome, Go}
use garden_docker.Net.{Action}
use garden_docker.Fakes.{Fake, call, call_count, args_of_call, always, new_fake}

-- The arguments of one call of Forward.
pub record ForwardArgs : Type 0 where
  pub action : Action
  pub ip : Str
  pub port : ℕ
  pub proto : Str
  pub dest_addr : Str
  pub dest_port : ℕ

abbrev pub FakeChain : Type 0 → Type 0
FakeChain W = Fake W ForwardArgs (Option Error)

module _ {W : Type 0} where
  abbrev pub new_fake_chain : FakeChain W
  unfolding new_fake
  new_fake_chain = new_fake none

  unfoldable pub forward : Action → Str → ℕ → Str → Str → ℕ → Go (FakeChain W × W) (Option Error)
  unfolding call
  forward action ip port proto dest_addr dest_port = call (record {
    action = action;
    ip = ip;
    port = port;
    proto = proto;
    dest_addr = dest_addr;
    dest_port = dest_port;
  })

  unfoldable pub forward_call_count : FakeChain W → ℕ
  unfolding call_count
  forward_call_count fake = call_count fake

  unfoldable pub forward_args_for_call : FakeChain W → ℕ → Outcome ForwardArgs
  unfolding args_of_call
  forward_args_for_call fake i = args_of_call fake i

  unfoldable pub forward_returns : Option Error → FakeChain W → FakeChain W
  unfolding always
  forward_returns result1 fake = always result1 fake
