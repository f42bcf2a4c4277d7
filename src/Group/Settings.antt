-- ===== src/Group/Settings.antt =====
-- `AggregateGroupSettings::validate` and `retry_delay_ms` of es-core/src/aggregate_group.rs.
use eventfs.Prelude.{
  ℕ, ◌-◌, ◌^◌, ◌≤◌, ◌<◌, min, ◌≡◌, ◌↔◌, ◌||◌, ◌==◌, nat_ord, ltb, arith, if◌then◌else◌, Result, ok,
  err,
}
use eventfs.Prelude.Words.{sat_mul64}
use eventfs.Group.{AggregateGroupSettings}

-- The message of each check.
pub data SettingsError : Type 0 where
  zero_unacked consumer_above_group zero_ack_timeout inverted_backoff : SettingsError

unfoldable pub validate : AggregateGroupSettings → Result SettingsError (Unit {0})
validate s =
    if s.max_unacked_per_consumer == 0 || s.max_unacked_per_group == 0
    then err zero_unacked
    else if ltb s.max_unacked_per_group s.max_unacked_per_consumer
    then err consumer_above_group
    else if s.ack_timeout_ms == 0
    then err zero_ack_timeout
    else if s.retry_min_ms == 0 || ltb s.retry_max_ms s.retry_min_ms
    then err inverted_backoff
    else ok tt

-- `1u64 << shift` with `shift ≤ 62` stays below `2 ^ 63`.
unfoldable pub retry_delay_ms : AggregateGroupSettings → ℕ → ℕ
retry_delay_ms s attempt =
    let shift = min (attempt - 1) 62 in min (sat_mul64 s.retry_min_ms (2 ^ shift)) s.retry_max_ms

-- The accepted settings are those with positive quotas in order, a positive lease and a back-off
-- range in order.
pub record IsAccepted (s : AggregateGroupSettings) : Type 0 where
  pub consumer_pos : 0 < s.max_unacked_per_consumer
  pub consumer_le_group : s.max_unacked_per_consumer ≤ s.max_unacked_per_group
  pub timeout_pos : 0 < s.ack_timeout_ms
  pub backoff_pos : 0 < s.retry_min_ms
  pub backoff_range : s.retry_min_ms ≤ s.retry_max_ms

-- `validate` accepts exactly the settings with positive quotas, that of a consumer at most that of the
-- group, a positive timeout, and a positive minimal delay that is at most the maximal one.
pub validate-IsAccepted : (s : AggregateGroupSettings) → (validate s ≡ ok tt) ↔ IsAccepted s
unfolding validate
validate-IsAccepted s = (λ h. ground arith, λ h. ground arith)
