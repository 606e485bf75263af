-- ===== src/Base/Uuid.antt =====
-- Python's `uuid.UUID`. A value is its 128-bit integer, which orders as Postgres orders `uuid`.
-- `str(u)` and `UUID(text)` are the standard library's: a parameter with the law that they invert.
use Prim.Native.Nat.{ℕ}
use Prim.Native.String.{String}
use mathlib.Core.Path.{◌≡◌}
use mathlib.Core.Option.{Option, some}

pub record UuidCodec : Type 0 where
  pub to_str : ℕ → String
  pub parse : String → Option ℕ
  pub parse-to_str : (u : ℕ) → parse (to_str u) ≡ some u
