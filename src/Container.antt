-- ===== src/Container.antt =====
-- container.go and info.go: a container is a struct of pointers to its handlers. Only the
-- properties handler is ever written after the container is made, so it alone lives in the heap of
-- the machine, under the number that the container holds; everything else is in the container.
use garden_docker.Base.{
  ℕ, Str, txt, Bool, Option, none, some, List, [], ◌∷◌, ◌++◌, Outcome, ok, panic, Go,
}
use garden_docker.Base.GoMap.{GoMap, RangeOrder}
use garden_docker.Base.Lists.{length, get_elem?, set}
use garden_docker.Garden.{ContainerSpec, ContainerInfo, Metrics, no_metrics}
use garden_docker.Limits.{LimitsHandler}
use garden_docker.Stream.{StreamHandler}
use garden_docker.Net.{NetHandler}
use garden_docker.Run.{RunHandler}
use garden_docker.Props.{PropsHandler, properties, has_properties}

-- The heap of properties handlers, and the world outside of the program.
pub record Machine (W : Type 0) : Type 0 where
  pub heap : List PropsHandler
  pub outside : W

pub record InfoHandler : Type 0 where
  pub spec : ContainerSpec
  pub host_ip : Str
  pub container_ip : Str
  pub container_path : Str
  pub docker_id : Str
  pub props_handler : ℕ

pub record Container (W : Type 0) : Type 0 where
  pub info_handler : InfoHandler
  pub net_handler : NetHandler W
  pub run_handler : RunHandler W
  pub stream_handler : StreamHandler
  pub limits_handler : LimitsHandler

-- The panic of the Go runtime.
abbrev pub nil_pointer : Str
nil_pointer = txt "invalid memory address or nil pointer dereference"

module _ {W : Type 0} where
  -- `Handle`
  abbrev pub handle : Container W → Str
  handle c = c.info_handler.spec.handle

  -- A call of code outside of the program.
  abbrev pub lifted {ℓ} : {A : Type ℓ} → Go W A → Go (Machine W) A
  lifted m s = ((m s.outside).0, record s { outside = (m s.outside).1 })

  -- `&PropsHandler{}`: the new handler's number is the size of the heap.
  unfoldable pub allocate : PropsHandler → Go (Machine W) ℕ
  allocate h s = (ok (length s.heap), record s { heap = s.heap ++ (h ∷ []) })

  -- A method of the properties handler, through its pointer.
  unfoldable pub on_handler {ℓ} : {A : Type ℓ} → ℕ → Go PropsHandler A → Go (Machine W) A
  on_handler ref m s = elim (get_elem? s.heap ref) [
    | none ↦ (panic nil_pointer, s)
    | some h ↦ ((m h).0, record s { heap = set s.heap ref (m h).1 })
  ]

  -- `Info`
  unfoldable pub info : InfoHandler → Go (Machine W) ContainerInfo
  unfolding on_handler
  info i = on_handler i.props_handler λ h. (
    ok (record {
      state = txt "active";
      events = [];
      host_ip = i.host_ip;
      container_ip = i.container_ip;
      external_ip = [];
      container_path = i.container_path;
      process_ids = [];
      properties = properties h;
      mapped_ports = [];
    }),
    h,
  )

  -- `Metrics`, which never fails
  unfoldable pub metrics : Container W → Metrics
  metrics c = no_metrics

  -- `HasProperties`, which writes nothing, on the present heap.
  unfoldable pub container_has_properties :
      RangeOrder Str → List PropsHandler → Option (GoMap Str) → Container W → Outcome Bool
  container_has_properties o heap wanted c = elim (get_elem? heap c.info_handler.props_handler) [
    | none ↦ panic nil_pointer
    | some h ↦ ok (has_properties o h wanted)
  ]
