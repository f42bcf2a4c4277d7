-- ===== src/Prelude/Words.antt =====
-- Machine words: their bounds and the saturating and checked operations of Rust's standard library.
use Prim.Native.Nat.{ℕ, ◌+◌, ◌-◌, ◌*◌, ◌^◌, min}
use mathlib.Core.Option.{Option, none, some}
use eventfs.Prelude.Tests.{ltb, if◌then◌else◌}

abbrev pub u32_max : ℕ
u32_max = 2 ^ 32 - 1

abbrev pub u64_max : ℕ
u64_max = 2 ^ 64 - 1

-- `u64::saturating_add`, `u64::saturating_mul`, `u32::saturating_add`
abbrev pub sat_add64 : ℕ → ℕ → ℕ
sat_add64 a b = min (a + b) u64_max

abbrev pub sat_mul64 : ℕ → ℕ → ℕ
sat_mul64 a b = min (a * b) u64_max

abbrev pub sat_add32 : ℕ → ℕ → ℕ
sat_add32 a b = min (a + b) u32_max

-- `u64::checked_add(1)`
abbrev pub checked_suc64 : ℕ → Option ℕ
checked_suc64 a = if ltb a u64_max then some (a + 1) else none
