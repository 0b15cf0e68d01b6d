-- ===== src/Base/Effects.antt =====
-- What a Go function that may fail returns: a value, an error, or a panic; and code with effects.
use mathlib.Core.List.{◌++◌}
use garden_docker.Base.Text.{Str, txt}

-- The error values of the program. Any error of a library is `text` with its message.
pub data Error : Type 0 where
  text : Str → Error
  container_not_found : Str → Error
  docker_command : Str → Error → Error

-- `err.Error()`
unfoldable pub message : Error → Str
message (text s) = s
message (container_not_found handle) = txt "unknown handle: " ++ handle
message (docker_command stderr cause) =
    txt "docker: " ++ (stderr ++ (txt " (" ++ (message cause ++ txt ")")))

-- `(value, nil)`, `(zero value, err)` and a panic.
pub data Outcome {ℓ} (A : Type ℓ) : Type ℓ where
  ok : A → Outcome A
  fail : Error → Outcome A
  panic : Str → Outcome A

-- Code that reads and writes a state. What was done before an error or a panic stays done.
abbrev pub Go {ℓ κ} : Type ℓ → Type κ → Type (ℓ ⊔ κ)
Go S A = S → Outcome A × S

module _ {ℓ κ} {S : Type ℓ} {A : Type κ} where
  abbrev pub pure : A → Go S A
  pure a s = (ok a, s)

  abbrev pub raise : Error → Go S A
  raise e s = (fail e, s)

  abbrev pub panics : Str → Go S A
  panics m s = (panic m, s)

module _ {ℓ κ μ} {S : Type ℓ} {A : Type κ} {B : Type μ} where
  abbrev pub continue : Outcome A → (A → Go S B) → Go S B
  continue (ok a) f s = f a s
  continue (fail e) f s = (fail e, s)
  continue (panic m) f s = (panic m, s)

  infixl 5 ◌>>=◌ ◌>>◌
  unfoldable pub ◌>>=◌ : Go S A → (A → Go S B) → Go S B
  ◌>>=◌ m f s = continue (m s).0 f (m s).1

  abbrev pub ◌>>◌ : Go S A → Go S B → Go S B
  m >> n = m >>= λ _. n

-- `if err != nil { return fmt.Errorf("prefix%s", err) }`
abbrev pub wrap_outcome {ℓ} : {A : Type ℓ} → (Error → Error) → Outcome A → Outcome A
wrap_outcome f (ok a) = ok a
wrap_outcome f (fail e) = fail (f e)
wrap_outcome f (panic m) = panic m

module _ {ℓ κ} {S : Type ℓ} {A : Type κ} where
  abbrev pub wrapping : (Error → Error) → Go S A → Go S A
  wrapping f m s = (wrap_outcome f (m s).0, (m s).1)

-- `fmt.Errorf("prefix%s", err)`
abbrev pub prefixed : Str → Error → Error
prefixed p e = text (p ++ message e)

-- `if err != nil { panic(err) }`
abbrev pub must_outcome {ℓ} : {A : Type ℓ} → Outcome A → Outcome A
must_outcome (ok a) = ok a
must_outcome (fail e) = panic (message e)
must_outcome (panic m) = panic m

-- A call whose error is dropped.
abbrev pub drop_error {ℓ} : {A : Type ℓ} → Outcome A → Outcome (Unit {0})
drop_error (ok _) = ok tt
drop_error (fail _) = ok tt
drop_error (panic m) = panic m

module _ {ℓ κ} {S : Type ℓ} {A : Type κ} where
  abbrev pub must : Go S A → Go S A
  must m s = (must_outcome (m s).0, (m s).1)

  abbrev pub ignoring : Go S A → Go S (Unit {0})
  ignoring m s = (drop_error (m s).0, (m s).1)
