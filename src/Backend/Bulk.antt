-- ===== src/Backend/Bulk.antt =====
-- What backend.go's BulkInfo and BulkMetrics return in the reached states.
pub mod Asked
use mathlib.Core.Path.{subst}
use garden_docker.Base.{
  Str, txt, Bool, Option, none, some, List, [], ◌∷◌, ◌≡◌, ◌≢◌, ◌⊎◌, ◌↔◌, inl, inr, refl, sym, ap,
  Bool-cases, ◌==◌, ==_iff, ==_refl, ◌∙◌, arith, Outcome, ok, fail, panic, true, false,
}
use garden_docker.Base.GoMap
use garden_docker.Base.GoMap.{GoMap, RangeOrder, In, get-put}
use garden_docker.Base.Ensures.{ok-injective}
use garden_docker.Base.Lists.{get_elem?, set-get_elem?}
use garden_docker.Garden.{ContainerInfo, ContainerInfoEntry, ContainerMetricsEntry, no_metrics}
use garden_docker.Props.{new_props_handler, properties}
use garden_docker.Container.{Machine, Container, handle, info, on_handler, metrics}
use garden_docker.Create.{DaemonContainerCreator}
use garden_docker.Backend.{
  RepoInterface, Server, lookup, info_entry, is_one_of, infos_of, metrics_of, bulk_info,
  bulk_metrics, with_handles,
}
use garden_docker.Backend.Contract.{RepoLaws, query_total}
use garden_docker.Backend.Bulk.Asked.{expected, Gives, equal-Gives}
use garden_docker.Backend.Heap.{handler_of}
use garden_docker.Backend.Reach.{backend, Reach, IsSound}
use garden_docker.Backend.Reach.Sound.{Reach-IsSound}
use garden_docker.Backend.Reach.Properties.{handler_new}

-- What Info returns for a container whose handler has a nil map.
abbrev pub fresh_info : {W : Type 0} → Container W → ContainerInfo
fresh_info c = record {
  state = txt "active";
  events = [];
  host_ip = c.info_handler.host_ip;
  container_ip = c.info_handler.container_ip;
  external_ip = [];
  container_path = c.info_handler.container_path;
  process_ids = [];
  properties = none;
  mapped_ports = [];
}

-- The entries of BulkInfo and of BulkMetrics.
abbrev pub info_entry_of : {W : Type 0} → Container W → ContainerInfoEntry
info_entry_of c = record { info = fresh_info c; err = none }

abbrev pub metrics_entry : {W : Type 0} → Container W → ContainerMetricsEntry
metrics_entry c = record { metrics = no_metrics; err = none }

module _ {C E : Type 0} (name : C → Str) (f : C → E) where
  unfoldable put_all : List C → GoMap E → GoMap E
  put_all [] acc = acc
  put_all (c ∷ cs) acc = put_all cs (GoMap.put (name c) (f c) acc)

  -- The value under `h` of which every container with that handle has the same.
  get-put_all :
      (h : Str) (d : C) (cs : List C) (acc : GoMap E)
      → name d ≡ h
      → ((c : C) → In c cs → name c ≡ h → c ≡ d)
      → In d cs ⊎ (GoMap.get h acc ≡ some (f d))
      → GoMap.get h (put_all cs acc) ≡ some (f d)
  unfolding put_all
  get-put_all h d [] acc n u (inl i) = absurd i
  get-put_all h d [] acc n u (inr e) = e
  get-put_all h d (c ∷ cs) acc n u e =
      get-put_all h d cs (GoMap.put (name c) (f c) acc) n (λ x i. u x (inr i))
        (ground (arith, u c (inl refl), get-put (name c) h (f c) acc))

  get-put_all_ne :
      (h : Str) (cs : List C) (acc : GoMap E)
      → ((c : C) → In c cs → name c ≢ h)
      → GoMap.get h (put_all cs acc) ≡ GoMap.get h acc
  unfolding put_all
  get-put_all_ne h [] acc u = refl
  get-put_all_ne h (c ∷ cs) acc u =
      get-put_all_ne h cs (GoMap.put (name c) (f c) acc) (λ x i. u x (inr i))
      ∙ ground (arith, u c (inl refl), get-put (name c) h (f c) acc)

module _ {C E : Type 0} (name : C → Str) (f : C → E) (find : Str → Outcome C) (handles : List Str)
    (ms : List C)
    (found : (c : C) → In c ms ↔ ((is_one_of handles (name c) ≡ true) × (find (name c) ≡ ok c)))
    (own : (h : Str) (c : C) → find h ≡ ok c → h ≡ name c) where
  found_at : (h : Str) (c : C) → In c ms → name c ≡ h → find h ≡ ok c
  found_at h c i e = subst (λ x. find x ≡ ok c) e ((found c).0 i).1

  asked_at : (h : Str) (c : C) → In c ms → name c ≡ h → is_one_of handles h ≡ true
  asked_at h c i e = subst (λ x. is_one_of handles x ≡ true) e ((found c).0 i).0

  put_all-expected :
      (h : Str) (b : Bool) (o : Outcome C)
      → is_one_of handles h ≡ b
      → find h ≡ o
      → GoMap.get h (put_all name f ms []) ≡ expected f b o
  unfolding GoMap.get
  put_all-expected h true (ok d) b e =
      get-put_all name f h d ms [] (sym (own h d e))
        (λ c i p. ok-injective c d (sym (found_at h c i p) ∙ e))
        (inl (
          (found d).1 (
            subst (λ x. is_one_of handles x ≡ true) (own h d e) b,
            subst (λ x. find x ≡ ok d) (own h d e) e,
          )))
  put_all-expected h true (fail x) b e =
      get-put_all_ne name f h ms [] (λ c i p. cc (found_at h c i p))
  put_all-expected h true (panic x) b e =
      get-put_all_ne name f h ms [] (λ c i p. cc (found_at h c i p))
  put_all-expected h false o b e = get-put_all_ne name f h ms [] (λ c i p. cc (asked_at h c i p))

module _ {W : Type 0} where
  info-fresh :
      (m : Machine W) (c : Container W)
      → get_elem? m.heap (handler_of c) ≡ some new_props_handler
      → info c.info_handler m ≡ (ok (fresh_info c), m)
  unfolding info on_handler properties
  info-fresh m c e =
      rw (info, on_handler, e)
        (ap (λ x. (ok (fresh_info c), record m { heap = x }))
          (set-get_elem? m.heap (handler_of c) new_props_handler e))

  infos_of-put_all :
      (m : Machine W) (cs : List (Container W)) (acc : GoMap ContainerInfoEntry)
      → ((c : Container W) → In c cs → get_elem? m.heap (handler_of c) ≡ some new_props_handler)
      → infos_of cs acc m ≡ (ok (put_all handle info_entry_of cs acc), m)
  unfolding infos_of put_all
  infos_of-put_all m [] acc h = refl
  infos_of-put_all m (c ∷ cs) acc h =
      let e = info-fresh m c (h c (inl refl)) in
      rw (infos_of, e, ap (λ (r : Outcome ContainerInfo × Machine W). r.1) e)
        (infos_of-put_all m cs (GoMap.put (handle c) (info_entry_of c) acc) (λ d i. h d (inr i)))

  metrics_of-put_all :
      (cs : List (Container W)) (acc : GoMap ContainerMetricsEntry)
      → metrics_of cs acc ≡ put_all handle metrics_entry cs acc
  unfolding metrics_of put_all metrics
  metrics_of-put_all [] acc = refl
  metrics_of-put_all (c ∷ cs) acc =
      metrics_of-put_all cs (GoMap.put (handle c) (metrics_entry c) acc)

module _ {W R : Type 0} (repo : RepoInterface R (Container W)) (IsValid : R → Type 0) (empty : R)
    (laws : RepoLaws handle repo IsValid empty) (d : DaemonContainerCreator W) (s : Server W R)
    (reached : Reach repo empty d s) where
  sound : IsSound repo IsValid s
  sound = Reach-IsSound repo IsValid empty laws d s reached

  -- Query for handles.
  asked_for :
      (handles : List Str)
      → (cs : List (Container W)) × (repo.query s.repo (with_handles handles) ≡ ok cs)
        × ((c : Container W)
            → In c cs ↔ (
                (is_one_of handles (handle c) ≡ true)
                × (repo.find_by_handle s.repo (handle c) ≡ ok c)))
  asked_for handles =
      query_total handle repo IsValid empty laws s.repo (with_handles handles)
        (λ c. is_one_of handles (handle c)) sound.valid (λ c p. refl)

  -- BulkInfo has what Info returns.
  bulk_info_exact :
      (handles : List Str)
      → (infos : GoMap ContainerInfoEntry) × (bulk_info (backend repo d) handles s ≡ (ok infos, s))
        × ((h : Str)
            → GoMap.get h infos
              ≡ expected info_entry_of (is_one_of handles h) (lookup (backend repo d) h s).0)
  unfolding bulk_info lookup
  bulk_info_exact handles =
      let (ms, e, p) = asked_for handles in
      (
        put_all handle info_entry_of ms [],
        rw
            (
              e,
              infos_of-put_all s.machine ms []
                  (λ c i. handler_new repo IsValid empty laws s sound (handle c) c ((p c).0 i).1),
            )
            refl,
        λ h.
            put_all-expected handle info_entry_of (repo.find_by_handle s.repo) handles ms p
              (λ k c q. laws.own_handle s.repo k c sound.valid q) h (is_one_of handles h)
              (repo.find_by_handle s.repo h) refl refl,
      )

  -- BulkMetrics has the empty metrics.
  bulk_metrics_exact :
      (handles : List Str)
      → (entries : GoMap ContainerMetricsEntry) × (bulk_metrics (backend repo d) handles s
          ≡ (ok entries, s))
        × ((h : Str)
            → GoMap.get h entries
              ≡ expected metrics_entry (is_one_of handles h) (lookup (backend repo d) h s).0)
  unfolding bulk_metrics lookup
  bulk_metrics_exact handles =
      let (ms, e, p) = asked_for handles in
      (
        put_all handle metrics_entry ms [],
        rw (e, metrics_of-put_all ms []) refl,
        λ h.
            put_all-expected handle metrics_entry (repo.find_by_handle s.repo) handles ms p
              (λ k c q. laws.own_handle s.repo k c sound.valid q) h (is_one_of handles h)
              (repo.find_by_handle s.repo h) refl refl,
      )

  -- In every state that the server reaches, over every repository that keeps the laws of its
  -- interface, BulkInfo and BulkMetrics return, without error or panic, maps that have something
  -- under just the handles that are in the list that was asked for and under which Lookup finds a
  -- container: what Info returns for that container, with a nil map of properties, and the empty
  -- metrics, both without an error; and they change nothing.
  pub bulk_exact :
      (handles : List Str)
      → (infos : GoMap ContainerInfoEntry) × (entries : GoMap ContainerMetricsEntry) × (bulk_info
            (backend repo d)
            handles
            s
          ≡ (ok infos, s))
        × (bulk_metrics (backend repo d) handles s ≡ (ok entries, s))
        × ((h : Str)
            → ((e : ContainerInfoEntry)
                → (GoMap.get h infos ≡ some e)
                  ↔ Gives info_entry_of handles h (lookup (backend repo d) h s).0 e)
              × ((e : ContainerMetricsEntry)
                  → (GoMap.get h entries ≡ some e)
                    ↔ Gives metrics_entry handles h (lookup (backend repo d) h s).0 e))
  bulk_exact handles =
      let (infos, e, p) = bulk_info_exact handles in
      let (entries, f, q) = bulk_metrics_exact handles in
      (
        infos,
        entries,
        e,
        f,
        λ h. (
          equal-Gives info_entry_of handles h (lookup (backend repo d) h s).0 (GoMap.get h infos)
              (p h),
          equal-Gives metrics_entry handles h (lookup (backend repo d) h s).0 (GoMap.get h entries)
              (q h),
        ),
      )
