-- ===== src/Create/Apart.antt =====
-- Containers of one depot do not meet: the directories that depot.go makes, and the sockets in them
-- by create.go.
use garden_docker.Base.{Str, txt, some, List, [], ◌∷◌, ◌++◌, ◌≡◌, ◌≢◌, sym, ap, ◌∙◌, ok}
use mathlib.Core.Path.{subst}
use mathlib.Core.List.{append_cancel_right}
use garden_docker.Base.Binds.{bind_next, must_ok}
use garden_docker.Base.Ensures.{ok-injective}
use garden_docker.Base.FilePath.{join}
use garden_docker.Base.FilePath.Laws.{IsElement, kept}
use garden_docker.Base.FilePath.Clean.{EndsWith, join-EndsWith, join_below}
use garden_docker.Depot
use garden_docker.Depot.{DepotHost, ContainerDepot, guid, make_dirs, install}
use garden_docker.Create.{DaemonContainerCreator, run_cmd, dosh_in, initd_socket}
use garden_docker.Create.Sockets.{host_file, host_file-socket, dialled, run-IsElement}

head_of : List Str → Str
head_of [] = []
head_of (e ∷ es) = e

EndsWith-injective : (a b p q : Str) → EndsWith a p → EndsWith b q → p ≡ q → a ≡ b
unfolding head_of
EndsWith-injective a b p q h k e = ap head_of (sym h.its_kept ∙ ap kept e ∙ k.its_kept)

-- The socket of the directory that ends with the name.
socket_below :
    {W : Type 0} (c : DaemonContainerCreator W) (d a image : Str)
    → EndsWith a d
    → host_file (run_cmd c d image).volumes initd_socket
      ≡ some ((d ++ (b'/' ∷ txt "run")) ++ (b'/' ∷ txt "initd.sock"))
socket_below c d a image h =
    host_file-socket c d image
    ∙ ap (λ (s : Str). some (s ++ (b'/' ∷ txt "initd.sock")))
        (join_below d a (txt "run") h run-IsElement)

some-injective : {A : Type 0} (a b : A) → some a ≡ some b → a ≡ b
some-injective a b e = cc

module _ {W : Type 0} (host : DepotHost W) (depot : ContainerDepot) where
  -- The directory that Create returns is that of the identifier.
  dir_of_id :
      (w : W) (id d : Str)
      → (host.new_v4 w).0 ≡ ok id
      → (Depot.create host depot w).0 ≡ ok d
      → d ≡ join (depot.dir ∷ id ∷ [])
  unfolding Depot.create guid install
  dir_of_id w id d h e =
      let (x, given, e₁) = bind_next _ _ _ d e in
      let (_, _, e₂) = bind_next _ _ _ d e₁ in
      let (_, _, e₃) = bind_next _ _ _ d e₂ in
      let (_, _, e₄) = bind_next _ _ _ d e₃ in
      let (_, _, e₅) = bind_next _ _ _ d e₄ in
      let (_, _, e₆) = bind_next _ _ _ d e₅ in
      let (_, _, e₇) = bind_next _ _ _ d e₆ in
      sym (ok-injective _ d e₇)
      ∙ ap (λ (y : Str). join (depot.dir ∷ y ∷ []))
          (ok-injective x id (sym (must_ok _ x given) ∙ h))

  -- If one depot makes two directories, whose identifiers differ and are plain names, as those of
  -- gouuid are, then the directories differ; and for any creator and images, the file on the host
  -- that is the socket of initd in the one container is not that of the other, which is also what
  -- the two dosh commands dial.
  pub containers_apart :
      {V : Type 0} (c : DaemonContainerCreator V) (image image' : Str) (w u : W) (a b d e : Str)
      → IsElement a
      → IsElement b
      → a ≢ b
      → (host.new_v4 w).0 ≡ ok a
      → (host.new_v4 u).0 ≡ ok b
      → (Depot.create host depot w).0 ≡ ok d
      → (Depot.create host depot u).0 ≡ ok e
      → (d ≢ e)
        × (host_file (run_cmd c d image).volumes initd_socket
            ≢ host_file (run_cmd c e image').volumes initd_socket)
        × ((dosh_in d).initd_sock ≢ (dosh_in e).initd_sock)
  containers_apart c image image' w u a b d e ha hb apart given given' made made' =
      let ends =
        subst (EndsWith a) (sym (dir_of_id w a d given made)) (join-EndsWith depot.dir a ha) in
      let ends' =
        subst (EndsWith b) (sym (dir_of_id u b e given' made')) (join-EndsWith depot.dir b hb) in
      let differ : d ≢ e = λ same. apart (EndsWith-injective a b d e ends ends' same) in
      let files : host_file (run_cmd c d image).volumes initd_socket
          ≢ host_file (run_cmd c e image').volumes initd_socket =
        λ same. differ (
          append_cancel_right d e (b'/' ∷ txt "run") (
            append_cancel_right (d ++ (b'/' ∷ txt "run")) (e ++ (b'/' ∷ txt "run"))
              (b'/' ∷ txt "initd.sock")
              (some-injective _ _
                (sym (socket_below c d a image ends) ∙ same ∙ socket_below c e b image' ends')))) in
      (differ, files, λ same. files (dialled c d image ∙ ap some same ∙ sym (dialled c e image')))
