-- ===== src/Prelude/Env.antt =====
-- Settings read from the environment with `int(os.getenv(name, default))`.
use Prim.Native.Nat.{ℕ, min, max}
use xpd_report_agent.Prelude.Json.{ℤ, pos, negsuc}

-- The variable is not set, is no integer, or is one.
pub data Setting : Type 0 where
  unset malformed : Setting
  number : ℤ → Setting

-- `min(high, max(low, value))`, for bounds that are not negative
abbrev pub clamp : ℕ → ℕ → ℤ → ℕ
clamp low high (pos n) = min high (max low n)
clamp low high (negsuc n) = min high low
