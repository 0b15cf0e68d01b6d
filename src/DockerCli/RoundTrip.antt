-- ===== src/DockerCli/RoundTrip.antt =====
-- A reader for the command line of `docker run` that dockercli/cmds.go writes.
use garden_docker.Base.{
  Str, txt, str_dec, Bool, Bool-cases, true, false, Option, none, some, List, [], ◌∷◌, ◌++◌, ◌≡◌,
  inl, inr, refl, arith, ==_refl, ◌&&◌, ◌∙◌, ◌==◌, ◌=?◌, if◌then◌else◌, ExecCmd,
}
use mathlib.Core.List.{append_assoc, append-nil}
use garden_docker.DockerCli.{Volume, RunCmd, arg, volume_args, image_args, run_command}

-- The part before the first colon, and the part behind it.
unfoldable pub cut_colon : Str → Option (Str × Str)
cut_colon [] = none
cut_colon (c ∷ s) = elim (c =? b':') [
  | true ↦ some ([], s)
  | false ↦ elim (cut_colon s) [ none ↦ none | some (a, b) ↦ some (c ∷ a, b) ]
]

-- No byte is a colon.
abbrev pub HasNoColon : Str → Type 0
HasNoColon [] = Unit
HasNoColon (c ∷ s) = ((c =? b':') ≡ false) × HasNoColon s

abbrev read_volume : Str → Option Volume
read_volume s = elim (cut_colon s) [
  | none ↦ none
  | some (a, b) ↦ some (record { host_path = a; container_path = b })
]

cut_colon_append : (a b : Str) → HasNoColon a → cut_colon (a ++ (b':' ∷ b)) ≡ some (a, b)
unfolding cut_colon
cut_colon_append [] b h = refl
cut_colon_append (c ∷ a) b h = ground (arith, cut_colon_append a b h.1)

pub read_volume-arg : (v : Volume) → HasNoColon v.host_path → read_volume (arg v) ≡ some v
unfolding arg
read_volume-arg v h = ground (arith, cut_colon_append v.host_path v.container_path h)

-- A reader of `docker run`'s arguments: the options `-d` and `-v VOLUME`, the image, the program,
-- its arguments. It fails where an argument is missing or a volume has no colon.
read_args : List Str → Bool → List Volume → Option RunCmd
read_args [] detach volumes = none
read_args (a ∷ []) detach volumes = none
read_args (a ∷ b ∷ rest) detach volumes = elim (a == txt "-d") [
  | true ↦ read_args (b ∷ rest) true volumes
  | false ↦ elim (a == txt "-v") [
    | true ↦ elim (read_volume b) [
      | none ↦ none
      | some v ↦ read_args rest detach (volumes ++ (v ∷ []))
    ]
    | false ↦
        some (record {
          volumes = volumes;
          image = a;
          program = b;
          program_args = rest;
          detach = detach;
        })
  ]
]

read_argv : List Str → Option RunCmd
read_argv (docker ∷ verb ∷ rest) =
    if docker == txt "docker" && verb == txt "run" then read_args rest false [] else none
read_argv _ = none

unfoldable pub read_run : ExecCmd → Option RunCmd
unfolding read_argv read_args cut_colon
read_run cmd = read_argv cmd.args

-- No host path has a colon.
abbrev pub HaveNoColon : List Volume → Type 0
HaveNoColon [] = Unit
HaveNoColon (v ∷ vs) = HasNoColon v.host_path × HaveNoColon vs

-- The image is not taken for an option.
pub record IsImage (image : Str) : Type 0 where
  pub not_detach : (image == txt "-d") ≡ false
  pub not_volume : (image == txt "-v") ≡ false

volume_flag_ne : (txt "-v" == txt "-d") ≡ false
unfolding txt str_dec
volume_flag_ne = refl

read_args-image :
    (cmd : RunCmd) (before : List Volume)
    → IsImage cmd.image
    → read_args (cmd.image ∷ (cmd.program ∷ cmd.program_args)) cmd.detach before
      ≡ some (record cmd { volumes = before })
unfolding read_args
read_args-image cmd before h = ground arith

read_args-volume :
    (v : Volume) (rest : List Str) (detach : Bool) (before : List Volume)
    → HasNoColon v.host_path
    → read_args (txt "-v" ∷ (arg v ∷ rest)) detach before
      ≡ read_args rest detach (before ++ (v ∷ []))
unfolding read_args
read_args-volume v rest detach before h =
    ground (arith, volume_flag_ne, ==_refl (txt "-v"), read_volume-arg v h)

read_args-volumes :
    (cmd : RunCmd) (before vs : List Volume)
    → HaveNoColon vs
    → IsImage cmd.image
    → read_args (volume_args vs ++ (cmd.image ∷ (cmd.program ∷ cmd.program_args))) cmd.detach before
      ≡ some (record cmd { volumes = before ++ vs })
unfolding volume_args
read_args-volumes cmd before [] h i = rw append-nil (read_args-image cmd before i)
read_args-volumes cmd before (v ∷ vs) h i =
    read_args-volume v _ cmd.detach before h.0
    ∙ read_args-volumes cmd (before ++ (v ∷ [])) vs h.1 i
    ∙ rw append_assoc

read_args-detach :
    (a : Str) (rest : List Str) (before : List Volume)
    → read_args (txt "-d" ∷ (a ∷ rest)) false before ≡ read_args (a ∷ rest) true before
unfolding read_args
read_args-detach a rest before = ground (arith, ==_refl (txt "-d"))

-- What `read_args` makes of the arguments behind `run`.
read_args-image_args :
    (cmd : RunCmd)
    → HaveNoColon cmd.volumes
    → IsImage cmd.image
    → read_args (image_args cmd) cmd.detach [] ≡ some cmd
unfolding image_args
read_args-image_args cmd h i = read_args-volumes cmd [] cmd.volumes h i

read_args-detach-volume_args :
    (vs : List Volume) (image : Str) (rest : List Str)
    → read_args (txt "-d" ∷ (volume_args vs ++ (image ∷ rest))) false []
      ≡ read_args (volume_args vs ++ (image ∷ rest)) true []
unfolding volume_args
read_args-detach-volume_args [] image rest = read_args-detach image rest []
read_args-detach-volume_args (v ∷ vs) image rest = read_args-detach (txt "-v") _ []

read_args-options :
    (cmd : RunCmd)
    → HaveNoColon cmd.volumes
    → IsImage cmd.image
    → read_args (if cmd.detach then txt "-d" ∷ image_args cmd else image_args cmd) false []
      ≡ some cmd
unfolding image_args
read_args-options cmd h i = elim (Bool-cases cmd.detach) [
  | inl e ↦ ground (
    arith,
    e,
    read_args-detach-volume_args cmd.volumes cmd.image (cmd.program ∷ cmd.program_args),
    read_args-image_args cmd h i,
  )
  | inr e ↦ ground (arith, e, read_args-image_args cmd h i)
]

read_argv-args :
    (rest : List Str) → read_argv (txt "docker" ∷ (txt "run" ∷ rest)) ≡ read_args rest false []
unfolding read_argv
read_argv-args rest = ground (arith, ==_refl (txt "docker"), ==_refl (txt "run"))

-- The command that `RunCmd.Cmd` builds reads back as the same RunCmd, if no host path of a volume
-- has a colon and the image is spelled neither `-d` nor `-v`.
pub read_run-run_command :
    (cmd : RunCmd)
    → HaveNoColon cmd.volumes
    → IsImage cmd.image
    → read_run (run_command cmd) ≡ some cmd
unfolding run_command read_run
read_run-run_command cmd h i = read_argv-args _ ∙ read_args-options cmd h i
