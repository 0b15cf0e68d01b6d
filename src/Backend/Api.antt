-- ===== src/Backend/Api.antt =====
-- The backend and its containers as what the garden API asks for: a container embeds its handlers,
-- whose methods it has, and main passes the backend to the garden server.
use garden_docker.Base.{List, [], ◌∷◌, Outcome, ok, fail, panic, Go, ExecCmd}
use garden_docker.Garden.{Process}
use garden_docker.Garden.Api.{GardenContainer, Client, GardenBackend}
use garden_docker.Props
use garden_docker.Net
use garden_docker.Net.{HostNet}
use garden_docker.Run
use garden_docker.Limits
use garden_docker.Stream
use garden_docker.Container.{Container, handle, lifted, on_handler, info, metrics}
use garden_docker.Backend
use garden_docker.Base.{Str}
use garden_docker.Base.GoMap.{RangeOrder}
use garden_docker.Backend.{Backend, Server, on_machine}

-- The same call, with another type for what it returns.
abbrev pub mapped : {A B : Type 0} → (A → B) → Outcome A → Outcome B
mapped f (ok a) = ok (f a)
mapped f (fail e) = fail e
mapped f (panic m) = panic m

abbrev pub returning : {S A B : Type 0} → (A → B) → Go S A → Go S B
returning f m s = (mapped f (m s).0, (m s).1)

abbrev pub map_list : {A B : Type 0} → (A → B) → List A → List B
map_list f [] = []
map_list f (a ∷ rest) = f a ∷ map_list f rest

module _ {W R : Type 0} (host : HostNet W) where
  -- A call of code outside of the program.
  abbrev outside : {A : Type 0} → Go W A → Go (Server W R) A
  outside m = on_machine (lifted m)

  -- A method of the properties handler of a container.
  abbrev of_props : {A : Type 0} → Container W → Go Props.PropsHandler A → Go (Server W R) A
  of_props c m = on_machine (on_handler c.info_handler.props_handler m)

  -- A process, for who has the server.
  unfoldable pub as_process : Process W → Process (Server W R)
  as_process p = record {
    id = p.id;
    wait = outside p.wait;
    set_tty = λ tty. outside (p.set_tty tty);
    signal = λ s. outside (p.signal s);
  }

  -- `*Container` as a `garden.Container`.
  unfoldable pub as_garden_container : Container W → GardenContainer (Server W R)
  as_garden_container c = record {
    handle = handle c;
    stop = λ kill. outside (Run.stop c.run_handler kill);
    info = on_machine (info c.info_handler);
    stream_in = λ path tar. outside (Stream.stream_in c.stream_handler path tar);
    stream_out = λ path. outside (Stream.stream_out c.stream_handler path);
    limit_bandwidth = λ limits. outside (Limits.limit_bandwidth c.limits_handler limits);
    current_bandwidth_limits = outside (Limits.current_bandwidth_limits c.limits_handler);
    limit_cpu = λ limits. outside (Limits.limit_cpu c.limits_handler limits);
    current_cpu_limits = outside (Limits.current_cpu_limits c.limits_handler);
    limit_disk = λ limits. outside (Limits.limit_disk c.limits_handler limits);
    current_disk_limits = outside (Limits.current_disk_limits c.limits_handler);
    limit_memory = λ limits. outside (Limits.limit_memory c.limits_handler limits);
    current_memory_limits = outside (Limits.current_memory_limits c.limits_handler);
    net_in = λ from to. outside (Net.net_in host c.net_handler from to);
    net_out = λ rule. outside (Net.net_out host c.net_handler rule);
    run = λ spec io. returning as_process (outside (Run.run c.run_handler spec io));
    attach = λ id io. returning as_process (outside (Run.attach c.run_handler id io));
    metrics = λ s. (ok (metrics c), s);
    get_properties = of_props c Props.get_properties;
    get_property = λ name. of_props c (Props.get_property name);
    set_property = λ name v. of_props c (Props.set_property name v);
    remove_property = λ name. of_props c (Props.remove_property name);
  }

  -- `*Backend` as a `garden.Client`, for the order in which the runtime visits properties.
  unfoldable pub as_client : RangeOrder Str → Backend W R → Client (Server W R)
  as_client o b = record {
    ping = Backend.ping;
    capacity = Backend.capacity;
    create = λ spec. returning as_garden_container (Backend.create b spec);
    destroy = Backend.destroy;
    containers = λ props. returning (map_list as_garden_container) (Backend.containers o b props);
    bulk_info = Backend.bulk_info b;
    bulk_metrics = Backend.bulk_metrics b;
    lookup = λ h. returning as_garden_container (Backend.lookup b h);
  }

  -- `*Backend` as a `garden.Backend`. os/exec runs the command.
  unfoldable pub as_backend :
      (ExecCmd → W → W) → RangeOrder Str → Backend W R → GardenBackend (Server W R)
  unfolding as_client
  as_backend exec o b = record {
    client = as_client o b;
    start = Backend.start exec;
    stop = Backend.stop;
    grace_time = Backend.grace_time;
  }
