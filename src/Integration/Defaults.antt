-- ===== src/Integration/Defaults.antt =====
-- The arguments that integration/runner gives to garden-docker.
use mathlib.Core.List.{append_assoc}
use garden_docker.Base.{Str, txt, str_dec, false, List, [], ◌∷◌, ◌++◌, ◌≡◌, refl, ◌∙◌, arith, ◌==◌}
use garden_docker.Integration.{Runner, mentions, append_default_flag, garden_args}

-- The arguments that the runner adds.
abbrev pub added_args : Str → Str → List Str
added_args network addr =
    txt "--listenNetwork"
    ∷ network
    ∷ txt "--listenAddr"
    ∷ addr
    ∷ txt "--logLevel"
    ∷ txt "debug"
    ∷ []

-- The runner's own arguments name none of the flags that it adds.
pub record MentionsNone (argv : List Str) : Type 0 where
  pub no_network : mentions argv (txt "--listenNetwork") ≡ false
  pub no_addr : mentions argv (txt "--listenAddr") ≡ false
  pub no_level : mentions argv (txt "--logLevel") ≡ false

append_default_flag-new :
    (argv ar : List Str) (key v : Str)
    → mentions argv key ≡ false
    → (v == []) ≡ false
    → append_default_flag argv ar key v ≡ ar ++ (key ∷ v ∷ [])
unfolding append_default_flag
append_default_flag-new argv ar key v h k = ground arith

debug_given : (txt "debug" == []) ≡ false
unfolding txt str_dec
debug_given = refl

pub garden_args-new :
    (r : Runner)
    → MentionsNone r.argv
    → (r.network == []) ≡ false
    → (r.addr == []) ≡ false
    → garden_args r ≡ r.argv ++ added_args r.network r.addr
unfolding garden_args
garden_args-new r m h k =
    rw
      (
        garden_args,
        append_default_flag-new r.argv r.argv (txt "--listenNetwork") r.network m.no_network h,
        append_default_flag-new r.argv (r.argv ++ (txt "--listenNetwork" ∷ r.network ∷ []))
            (txt "--listenAddr") r.addr m.no_addr k,
        append_default_flag-new r.argv
            ((r.argv ++ (txt "--listenNetwork" ∷ r.network ∷ []))
              ++ (txt "--listenAddr" ∷ r.addr ∷ []))
            (txt "--logLevel") (txt "debug") m.no_level debug_given,
      )
      (append_assoc (r.argv ++ (txt "--listenNetwork" ∷ r.network ∷ []))
          (txt "--listenAddr" ∷ r.addr ∷ []) (txt "--logLevel" ∷ txt "debug" ∷ [])
        ∙ append_assoc r.argv (txt "--listenNetwork" ∷ r.network ∷ [])
            (txt "--listenAddr" ∷ r.addr ∷ txt "--logLevel" ∷ txt "debug" ∷ []))
