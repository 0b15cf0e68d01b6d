-- ===== src/Integration/Destroy.antt =====
-- What destroyContainers of integration/runner does, for a client that keeps the garden API's word,
-- and for the backend of this program.
use mathlib.Core.Path.{subst}
use garden_docker.Base.{
  Str, none, List, [], ◌∷◌, ◌≡◌, ◌≢◌, inl, inr, refl, sym, ap, ◌∙◌, Outcome, ok, ◌>>=◌,
}
use garden_docker.Base.Binds.{bind_returns}
use garden_docker.Base.GoMap.{In}
use garden_docker.Garden.Api.{GardenContainer, Client}
use garden_docker.Net.{HostNet}
use garden_docker.Create.{DaemonContainerCreator}
use garden_docker.Base.GoMap.{RangeOrder}
use garden_docker.Container.{Container, handle}
use garden_docker.Backend.{RepoInterface, Backend, Server, destroy}
use garden_docker.Backend.Contract.{RepoLaws}
use garden_docker.Backend.Api.{as_client, as_garden_container, map_list}
use garden_docker.Backend.Reach.{backend, Reach}
use garden_docker.Backend.Containers.{containers_exact}
use garden_docker.Integration.{destroy_each, destroy_containers}

-- The handles of the containers that a state has, and what the garden API says of them: Containers
-- without properties lists all, and a Destroy that succeeds removes the container and adds none.
pub record DestroysContainers {S : Type 0} (client : Client S) : Type 0 where
  pub handles : S → List Str
  pub lists_all :
      (s : S) (cs : List (GardenContainer S)) (h : Str)
      → (client.containers none s).0 ≡ ok cs
      → In h (handles (client.containers none s).1)
      → (c : GardenContainer S) × In c cs × (c.handle ≡ h)
  pub destroyed_gone :
      (s : S) (h : Str) → (client.destroy h s).0 ≡ ok tt → In h (handles (client.destroy h s).1) → ⊥
  pub destroyed_adds_none :
      (s : S) (h k : Str)
      → (client.destroy h s).0 ≡ ok tt
      → In k (handles (client.destroy h s).1)
      → In k (handles s)

module _ {S : Type 0} (client : Client S) (l : DestroysContainers client) where
  -- What is left after each container was destroyed was there before, and is none of these.
  left_by_destroy_each :
      (cs : List (GardenContainer S)) (s : S) (h : Str)
      → (destroy_each client cs s).0 ≡ ok tt
      → In h (l.handles (destroy_each client cs s).1)
      → In h (l.handles s) × ((c : GardenContainer S) → In c cs → c.handle ≢ h)
  unfolding destroy_each
  left_by_destroy_each [] s h e i = (i, λ c j. absurd j)
  left_by_destroy_each (c ∷ cs) s h e i =
      let (u, p, q) = bind_returns (client.destroy c.handle) (λ _. destroy_each client cs) s tt e in
      let t = (client.destroy c.handle s).1 in
      let (j, others) =
        left_by_destroy_each cs t h (sym (ap (λ (r : Outcome (Unit {0}) × S). r.0) q) ∙ e)
          (subst (λ (r : Outcome (Unit {0}) × S). In h (l.handles r.1)) q i) in
      (
        l.destroyed_adds_none s c.handle h p j,
        λ d m same. elim m [
          | inl x ↦ l.destroyed_gone s c.handle p (
              subst (λ (k : Str). In k (l.handles t))
                (sym same ∙ ap (λ (y : GardenContainer S). y.handle) x) j)
          | inr x ↦ others d x same
        ],
      )

  -- With a client that keeps the garden API's word on Containers and Destroy, no container is left
  -- where destroyContainers returns without error.
  pub destroy_containers_leaves_none :
      (s : S) (h : Str)
      → (destroy_containers client s).0 ≡ ok tt
      → ¬ In h (l.handles (destroy_containers client s).1)
  unfolding destroy_containers
  destroy_containers_leaves_none s h e i =
      let (cs, p, q) = bind_returns (client.containers none) (destroy_each client) s tt e in
      let t = (client.containers none s).1 in
      let (j, others) =
        left_by_destroy_each cs t h (sym (ap (λ (r : Outcome (Unit {0}) × S). r.0) q) ∙ e)
          (subst (λ (r : Outcome (Unit {0}) × S). In h (l.handles r.1)) q i) in
      let (c, m, same) = l.lists_all s cs h p j in others c m same

module _ {W R : Type 0} (host : HostNet W) (o : RangeOrder Str) (b : Backend W R) where
  destroy_each-as_client :
      (cs : List (GardenContainer (Server W R))) (s : Server W R)
      → destroy_each (as_client host o b) cs s ≡ (ok tt, s)
  unfolding destroy_each as_client destroy ◌>>=◌
  destroy_each-as_client [] s = refl
  destroy_each-as_client (c ∷ cs) s = destroy_each-as_client cs s

module _ {W R : Type 0} (repo : RepoInterface R (Container W)) (IsValid : R → Type 0) (empty : R)
    (laws : RepoLaws handle repo IsValid empty) where
  -- In every state that a server of this program reaches, over every repository that keeps the laws
  -- of its interface, destroyContainers with its backend as the client returns without error and
  -- changes nothing: every container is still there.
  pub destroy_containers-as_client :
      (d : DaemonContainerCreator W) (s : Server W R)
      → Reach repo empty d s
      → (host : HostNet W) (o : RangeOrder Str)
      → destroy_containers (as_client host o (backend repo d)) s ≡ (ok tt, s)
  unfolding destroy_containers as_client ◌>>=◌
  destroy_containers-as_client d s r host o =
      let (ms, e, p) = containers_exact repo IsValid empty laws d s r o in
      rw (e)
        (destroy_each-as_client host o (backend repo d) (map_list (as_garden_container host) ms) s)
