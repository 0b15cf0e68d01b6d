-- ===== src/Depot/Steps.antt =====
-- What a run of depot.go's Create has called, seen through a host that records its calls.
use garden_docker.Base.{
  ℕ, Str, txt, List, [], ◌∷◌, ◌≡◌, sym, ap, ◌∙◌, ◌>>=◌, Go, Outcome, ok, fail, panic, Error,
  wrap_outcome, ExecCmd, exec_command,
}
use mathlib.Core.Path.{subst}
use garden_docker.Base.Binds.{bind_returns, must_ok}
use garden_docker.Base.Ensures.{Ensures, Ensures-always, Ensures-bind, ok-injective}
use garden_docker.Base.FilePath.{join}
use garden_docker.Depot.{
  DepotHost, ContainerDepot, guid, make_dirs, install, create, iodaemon_package, dosh_package,
}

pub data Call : Type 0 where
  made_id : Call
  made_dir : Str → ℕ → Call
  built : Str → Call
  ran : ExecCmd → Call

-- The same host, which notes each call, the latest first.
abbrev pub noting : {W A : Type 0} → Call → Go W A → Go (W × List Call) A
noting call m (w, calls) = ((m w).0, ((m w).1, call ∷ calls))

abbrev pub recording : {W : Type 0} → DepotHost W → DepotHost (W × List Call)
recording host = record {
  new_v4 = noting made_id host.new_v4;
  mkdir_all = λ path mode. noting (made_dir path mode) (host.mkdir_all path mode);
  build = λ package_path. noting (built package_path) (host.build package_path);
  run = λ cmd. noting (ran cmd) (host.run cmd);
}

-- The directories made, after the calls before, the latest first.
abbrev pub dirs_made : Str → List Call → List Call
dirs_made d calls =
    made_dir (join (d ∷ txt "bin" ∷ [])) 0o777
    ∷ made_dir (join (d ∷ txt "processes" ∷ [])) 0o700
    ∷ made_dir (join (d ∷ txt "run" ∷ [])) 0o700
    ∷ calls

-- The place of a program in the directory.
abbrev pub program_at : Str → Str → Str
program_at d name = join (join (d ∷ txt "bin" ∷ []) ∷ name ∷ [])

-- The programs built and installed, given where they were built.
abbrev pub installed : Str → Str → Str → List Call → List Call
installed d iodaemon_path dosh_path calls =
    ran (exec_command (txt "chmod") (txt "u+x" ∷ program_at d (txt "dosh") ∷ []))
    ∷ ran (exec_command (txt "cp") (dosh_path ∷ program_at d (txt "dosh") ∷ []))
    ∷ ran (exec_command (txt "cp") (iodaemon_path ∷ program_at d (txt "iodaemon") ∷ []))
    ∷ built (txt "github.com/julz/garden-docker/cmd/dosh")
    ∷ built (txt "github.com/cloudfoundry-incubator/garden-linux/iodaemon")
    ∷ calls

-- The calls of a whole run for the directory.
abbrev pub whole_run : Str → Str → Str → List Call
whole_run d iodaemon_path dosh_path =
    installed d iodaemon_path dosh_path (dirs_made d (made_id ∷ []))

-- The worlds of a run that starts in `w`: with the id, with the directories made as well, and with
-- the first program built as well.
abbrev pub with_id : {W : Type 0} → DepotHost W → W → W
with_id host w = (host.new_v4 w).1

abbrev pub with_dirs : {W : Type 0} → DepotHost W → Str → W → W
with_dirs host d w =
    let v = (host.mkdir_all (join (d ∷ txt "run" ∷ [])) 0o700 (with_id host w)).1 in
    let u = (host.mkdir_all (join (d ∷ txt "processes" ∷ [])) 0o700 v).1 in
    (host.mkdir_all (join (d ∷ txt "bin" ∷ [])) 0o777 u).1

abbrev pub with_iodaemon : {W : Type 0} → DepotHost W → Str → W → W
with_iodaemon host d w =
    (host.build (txt "github.com/cloudfoundry-incubator/garden-linux/iodaemon")
      (with_dirs host d w)).1

-- A run from `w` that returned the directory `d` made all calls, in order, for `d`, with the id and
-- the paths of the programs that it was given.
pub record Completed {W : Type 0} (host : DepotHost W) (depot : ContainerDepot) (w : W) (d : Str)
    (calls : List Call) : Type 0 where
  pub id : Str
  pub iodaemon_path : Str
  pub dosh_path : Str
  pub its_id : (host.new_v4 w).0 ≡ ok id
  pub its_iodaemon :
      (host.build
        (txt "github.com/cloudfoundry-incubator/garden-linux/iodaemon")
        (with_dirs host d w)).0
      ≡ ok iodaemon_path
  pub its_dosh :
      (host.build (txt "github.com/julz/garden-docker/cmd/dosh") (with_iodaemon host d w)).0
      ≡ ok dosh_path
  pub dir : d ≡ join (depot.dir ∷ id ∷ [])
  pub whole : calls ≡ whole_run d iodaemon_path dosh_path

-- The calls after one more call, whatever it answered.
abbrev Noted : {W : Type 0} → List Call → W × List Call → Type 0
Noted calls s = s.1 ≡ calls

module _ {W A B : Type 0} {Q : B → W × List Call → Type 0} where
  -- One recorded call and the rest of a block: the rest may use that the call is noted.
  note :
      (call : Call) (calls : List Call) (m : Go (W × List Call) A) (f : A → Go (W × List Call) B)
      (s : W × List Call)
      → Noted (call ∷ calls) (m s).1
      → ((a : A) (t : W × List Call) → Noted (call ∷ calls) t → Ensures Q (f a t))
      → Ensures Q ((m >>= f) s)
  note call calls m f s h k =
      Ensures-bind (λ a. Noted (call ∷ calls)) Q m f s
        (Ensures-always (Noted (call ∷ calls)) (m s) h) k

-- One more call on both sides.
pub noted : {xs ys : List Call} (call : Call) → xs ≡ ys → call ∷ xs ≡ call ∷ ys
noted call p = ap (λ (cs : List Call). call ∷ cs) p

module _ {W : Type 0} (host : DepotHost W) (d : Str) (calls : List Call) where
  pub make_dirs-Ensures :
      (s : W × List Call)
      → Noted calls s
      → Ensures (λ _. Noted (dirs_made d calls)) (make_dirs (recording host) d s)
  unfolding make_dirs
  make_dirs-Ensures s p = note (made_dir _ _) _ _ _ _ (noted _ p) λ _ s₁ p₁.
      note (made_dir _ _) _ _ _ _ (noted _ p₁)
        λ _ s₂ p₂. Ensures-always (Noted (dirs_made d calls)) _ (noted _ p₂)

unwrapped :
    {A : Type 0} (f : Error → Error) (o : Outcome A) (a : A) → wrap_outcome f o ≡ ok a → o ≡ ok a
unwrapped f (ok b) a h = h
unwrapped f (fail e) a h = cc
unwrapped f (panic m) a h = cc

-- A block that returns: its first step returned, so did the rest, and it ends as the rest does.
goes_on :
    {S A B : Type 0} (m : Go S A) (f : A → Go S B) (s : S) (b : B)
    → ((m >>= f) s).0 ≡ ok b
    → (a : A) × ((m s).0 ≡ ok a) × ((f a (m s).1).0 ≡ ok b) × ((m >>= f) s ≡ f a (m s).1)
goes_on {S = S} {B = B} m f s b h =
    let (a, e, same) = bind_returns m f s b h in
    (a, e, sym (ap (λ (r : Outcome B × S). r.0) same) ∙ h, same)

module _ {W : Type 0} (host : DepotHost W) where
  abbrev State : Type 0
  State = W × List Call

  -- The directories, from any state.
  make_dirs-state :
      (d : Str) (s : State)
      → (make_dirs (recording host) d s).0 ≡ ok tt
      → (make_dirs (recording host) d s).1 ≡ (
        (host.mkdir_all
            (join (d ∷ txt "bin" ∷ []))
            0o777
            (host.mkdir_all
              (join (d ∷ txt "processes" ∷ []))
              0o700
              (host.mkdir_all (join (d ∷ txt "run" ∷ [])) 0o700 s.0).1).1).1,
        dirs_made d s.1,
      )
  unfolding make_dirs
  make_dirs-state d s h =
      let (_, _, h₁, e₁) = goes_on _ _ s tt h in
      let (_, _, h₂, e₂) = goes_on _ _ _ tt h₁ in
      ap (λ (r : Outcome (Unit {0}) × State). r.1) (e₁ ∙ e₂)

  -- The programs, from any state.
  install-returns :
      (d e : Str) (s : State)
      → (install (recording host) d s).0 ≡ ok e
      → (i : Str) × (j : Str) × (d ≡ e)
        × ((host.build (txt "github.com/cloudfoundry-incubator/garden-linux/iodaemon") s.0).0
            ≡ ok i)
        × ((host.build
              (txt "github.com/julz/garden-docker/cmd/dosh")
              (host.build (txt "github.com/cloudfoundry-incubator/garden-linux/iodaemon") s.0).1).0
            ≡ ok j)
        × ((install (recording host) d s).1.1 ≡ installed d i j s.1)
  unfolding install
  install-returns d e s h =
      let (i, p, h₁, e₁) = goes_on _ _ s e h in
      let (j, q, h₂, e₂) = goes_on _ _ _ e h₁ in
      let (_, _, h₃, e₃) = goes_on _ _ _ e h₂ in
      let (_, _, h₄, e₄) = goes_on _ _ _ e h₃ in
      let (_, _, h₅, e₅) = goes_on _ _ _ e h₄ in
      (
        i,
        j,
        ok-injective d e h₅,
        unwrapped _ _ i p,
        unwrapped _ _ j q,
        ap (λ (r : Outcome Str × State). r.1.1) (e₁ ∙ e₂ ∙ e₃ ∙ e₄ ∙ e₅),
      )

  -- If Create returns a directory, it is the depot's directory joined with the id that gouuid gave,
  -- and the calls made are, in this order: the id, the run, processes and bin directories, the two
  -- builds, the copies of the two programs, each from where its build has put it, into the bin
  -- directory under its own name, and the chmod of dosh; and no other.
  pub create_completes :
      (depot : ContainerDepot) (w : W) (d : Str)
      → (create (recording host) depot (w, [])).0 ≡ ok d
      → Completed host depot w d (create (recording host) depot (w, [])).1.1
  unfolding create guid
  create_completes depot w d h =
      let (id, p, h₁, e₁) = goes_on _ _ (w, []) d h in
      let (_, q, h₂, e₂) = goes_on _ _ _ d h₁ in
      let its_dir = join (depot.dir ∷ id ∷ []) in
      let there = make_dirs-state its_dir (with_id host w, made_id ∷ []) q in
      let (i, j, same, built_i, built_j, calls) =
        install-returns its_dir d _
          (subst (λ (s : State). (install (recording host) its_dir s).0 ≡ ok d) there h₂) in
      let at_end =
        ap (λ (r : Outcome Str × State). r.1.1) (e₁ ∙ e₂)
        ∙ ap (λ (s : State). (install (recording host) its_dir s).1.1) there
        ∙ calls in
      record {
        id = id;
        iodaemon_path = i;
        dosh_path = j;
        its_id = must_ok _ id p;
        its_iodaemon =
            subst (λ (x : Str). (host.build iodaemon_package (with_dirs host x w)).0 ≡ ok i) same
              built_i;
        its_dosh =
            subst (λ (x : Str). (host.build dosh_package (with_iodaemon host x w)).0 ≡ ok j) same
              built_j;
        dir = sym same;
        whole =
            subst (λ (x : Str). (create (recording host) depot (w, [])).1.1 ≡ whole_run x i j) same
              at_end;
      }
