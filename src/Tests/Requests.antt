-- ===== src/Tests/Requests.antt =====
-- Redirects, append requests and subscriptions.
use eventfs.Prelude.{
  ℕ, nat_ord, ◌+◌, ◌*◌, ◌≤◌, ◌≡◌, refl, none, some, List, [], ◌∷◌, Text, length, arith,
}
use eventfs.Identifier.{AggregateTypeId}
use eventfs.Redirect.{LeaderRetryPlan, new, redirect_to, next}
use eventfs.Redirect.Bounds.{
  RetryEvent, redirected, postponed, asked, targets, targets-new, next-redirect_to,
}
use eventfs.BTreeMap.{get, insert, remove}
use eventfs.Merger
use eventfs.Merger.{
  AggregateCursor, AggregateSourceMessage, event, caught_up, degraded, position_of, raise_heads,
  raise_head, apply_event, apply_caught_up, apply_degraded, apply, run_messages,
}
use eventfs.Merger.Laws.{count_caught_up, caught_up_once}
use eventfs.Append.{NewAggregateEvent, ExpectedAggregateVersion, exact}
use eventfs.Append.Laws.{IsEvent, append_bytes_injective}

abbrev node_a : Text
node_a = b'a' ∷ []

abbrev node_b : Text
node_b = b'b' ∷ []

abbrev session : List RetryEvent
session = asked ∷ redirected node_b ∷ asked ∷ postponed node_a ∷ asked ∷ []

targets-new_example : targets (new (node_a ∷ [])) session ≤ 4 * length (node_a ∷ []) + 4
targets-new_example = targets-new (node_a ∷ []) session

-- The ordinary budget is spent, and the leader has been tried.
abbrev spent_plan : LeaderRetryPlan
spent_plan = record {
  budget = 0;
  redirect_tail = 1;
  queue = [];
  tried = (node_b, tt) ∷ [];
  backoff_target = none;
}

next-redirect_to_example : (next (redirect_to node_b spent_plan)).1 ≡ some node_b
next-redirect_to_example = next-redirect_to node_b spent_plan (omega arith)

abbrev order_type : AggregateTypeId
order_type = record { business_space = b's' ∷ []; aggregate_type = b'o' ∷ [] }

abbrev paid : NewAggregateEvent
paid = record { event_id = 80; event_type = b'p' ∷ []; data_bytes = 1 ∷ 2 ∷ []; metadata = [] }

paid-IsEvent : IsEvent paid
paid-IsEvent = record {
  event_id = omega arith;
  event_type = omega arith;
  data_bytes = omega arith;
  metadata = omega arith;
}

abbrev version_four : ExpectedAggregateVersion
version_four = exact 4

append_bytes_injective_example :
    (order_type ≡ order_type) × (node_a ≡ node_a) × (version_four ≡ version_four) × (paid ≡ paid)
append_bytes_injective_example =
    append_bytes_injective order_type order_type node_a node_a version_four version_four paid paid
      (omega arith, omega arith, omega arith) (omega arith, omega arith, omega arith) (omega arith)
      (omega arith) paid-IsEvent paid-IsEvent refl

abbrev from_start : AggregateCursor
from_start = record { version = 1; aggregate_type = order_type; next_positions = 0 ∷ 0 ∷ [] }

-- One of two sources has delivered an event and caught up, and has been lost and found again.
abbrev first_messages : List (AggregateSourceMessage ℕ)
first_messages =
    event 7 (record { partition_id = 1; partition_position = 4; event = some 11 })
    ∷ caught_up 7 (record { partition_id = 1; next_position = 5 } ∷ [])
    ∷ degraded 7
    ∷ caught_up 7 []
    ∷ []

abbrev last_message : AggregateSourceMessage ℕ
last_message = caught_up 8 (record { partition_id = 0; next_position = 2 } ∷ [])

two_sources :
    count_caught_up
      (apply last_message
        (run_messages first_messages (Merger.new from_start ((7, tt) ∷ (8, tt) ∷ []))).0).1
    ≡ 1
unfolding apply run_messages Merger.new apply_event apply_caught_up apply_degraded position_of
    raise_heads raise_head get insert remove
two_sources = refl

caught_up_once_example :
    let before = run_messages first_messages (Merger.new from_start ((7, tt) ∷ (8, tt) ∷ [])) in
    let after = apply last_message before.0 in
    (count_caught_up before.1 ≡ 0) × (after.0.pending ≡ []) × (after.0.unavailable ≡ [])
caught_up_once_example =
    caught_up_once from_start ((7, tt) ∷ (8, tt) ∷ []) first_messages last_message two_sources
