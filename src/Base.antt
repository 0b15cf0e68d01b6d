-- ===== src/Base.antt =====
-- The names that the other modules share: the libraries', passed on, and those of the children.
mod Text
mod Effects
pub mod GoMap
mod Exec
pub mod Ensures
pub mod Binds
pub mod FilePath
pub mod Lists
pub mod Flags
pub mod Uint
pub use Exec.{ExecCmd, exec_command, RunResult, CommandRunner}
pub use Text.{Str, if◌then◌else◌, Bool-cases, ◌=?◌, ◌==◌, ==_iff, ==_refl}
unfoldable pub use Text.{txt, eq_bytes, str_dec, decimal}
pub use Effects.{
  Error, text, container_not_found, docker_command, Outcome, ok, fail, panic, Go, pure, raise,
  panics, continue, ◌>>◌, wrap_outcome, wrapping, prefixed, must_outcome, drop_error, must,
  ignoring,
}
unfoldable pub use Effects.{message, ◌>>=◌}
pub use Prim.Native.Nat.{ℕ, zero, suc, ◌+◌, ◌-◌, ◌*◌, ◌^◌, ◌%◌, ◌≤◌, ◌<◌}
pub use mathlib.Core.Path.{◌≡◌, refl, sym, ap, ◌∙◌}
pub use mathlib.Core.Logic.{◌≢◌, ◌↔◌, ◌⊎◌, inl, inr}
pub use mathlib.Core.Bool.{Bool, true, false, ◌&&◌, ◌||◌}
pub use mathlib.Core.Option.{Option, none, some}
pub use mathlib.Core.List.{List, [], ◌∷◌, ◌++◌}
pub use native.Mathlib.Omega.{arith}
