-- ===== src/Fakes.antt =====
-- fakes: the doubles that counterfeiter makes of the program's interfaces. They are all of one kind:
-- a method notes its arguments, and answers by its stub or, without one, by fixed results.
pub mod Chain
pub mod ContainerCmder
pub mod Creator
pub mod Depot
pub mod DockerRunner
pub mod Recorded
pub mod Creation
use garden_docker.Base.{
  ℕ, Str, txt, Option, none, some, List, [], ◌∷◌, ◌++◌, Error, Outcome, ok, fail, panic, Go,
}
use garden_docker.Base.Lists.{length, get_elem?}

-- One method of a double, with arguments `A` and results `R`. A stub acts on the world `W`, and not
-- on the double itself.
pub record Fake (W A R : Type 0) : Type 0 where
  pub stub : Option (A → Go W R)
  pub args_for_call : List A
  pub results : R

-- The panic of the Go runtime.
abbrev pub index_out_of_range : Str
index_out_of_range = txt "index out of range"

abbrev pub indexed : {A : Type 0} → Option A → Outcome A
indexed none = panic index_out_of_range
indexed (some a) = ok a

-- A value and an error as Go returns them, and what a caller makes of them.
abbrev pub Results : Type 0 → Type 0
Results A = A × Option Error

abbrev pub answer : {A : Type 0} → Results A → Outcome A
answer (a, none) = ok a
answer (a, some e) = fail e

abbrev pub error_answer : Option Error → Outcome (Unit {0})
error_answer none = ok tt
error_answer (some e) = fail e

abbrev pub and_answer : {A B : Type 0} → (A → Outcome B) → Outcome A → Outcome B
and_answer f (ok a) = f a
and_answer f (fail e) = fail e
and_answer f (panic m) = panic m

module _ {W A R : Type 0} where
  abbrev noted : A → Fake W A R → Fake W A R
  noted a f = record f { args_for_call = f.args_for_call ++ (a ∷ []) }

  abbrev by_stub : Option (A → Go W R) → R → A → Go W R
  by_stub none r a w = (ok r, w)
  by_stub (some g) r a w = g a w

  unfoldable pub call : A → Go (Fake W A R × W) R
  call a (f, w) = let (o, v) = by_stub f.stub f.results a w in (o, (noted a f, v))

  unfoldable pub call_count : Fake W A R → ℕ
  call_count f = length f.args_for_call

  unfoldable pub args_of_call : Fake W A R → ℕ → Outcome A
  args_of_call f i = indexed (get_elem? f.args_for_call i)

  unfoldable pub always : R → Fake W A R → Fake W A R
  always r f = record f { stub = none; results = r }

  -- `new(Fake…)`
  unfoldable pub new_fake : R → Fake W A R
  new_fake zero_value = record { stub = none; args_for_call = []; results = zero_value }
