-- ===== src/Stream.antt =====
-- stream.go: streaming is not implemented, and a call panics.
use garden_docker.Base.{ℕ, Str, txt, Go, panics}

-- `StreamHandler` has no field.
pub record StreamHandler : Type 0 where

module _ {S : Type 0} (c : StreamHandler) where
  -- The tar stream is a number that names it.
  unfoldable pub stream_in : Str → ℕ → Go S (Unit {0})
  stream_in dst_path tar_stream = panics (txt "not implemented: streamin")

  unfoldable pub stream_out : Str → Go S ℕ
  stream_out src_path = panics (txt "not implemented: streamout")
