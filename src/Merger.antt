-- ===== src/Merger.antt =====
-- `AggregateReadMerger` of es-server/src/aggregate_service.rs, which merges the sources of a subscription
-- to an aggregate type. A cursor in a frame stands for its encoding, and events are of any type.
pub mod Laws
use eventfs.Prelude.{
  get_elem?, ℕ, zero, suc, ◌+◌, ◌%◌, ◌^◌, max, Option, none, some, List, [], ◌∷◌, ◌++◌, length,
  nat_ord, Bool, true, false, not, ◌&&◌, if◌then◌else◌, ltb,
}
use eventfs.Prelude.Words.{u64_max, sat_add64}
use eventfs.BTreeMap.{BTreeSet, contains_key, insert, remove}
use eventfs.Identifier.{AggregateTypeId}

pub record AggregateCursor : Type 0 where
  pub version : ℕ
  pub aggregate_type : AggregateTypeId
  pub next_positions : List ℕ

pub record AggregatePartitionCursor : Type 0 where
  pub partition_id : ℕ
  pub next_position : ℕ

pub record InternalAggregateEvent (Event : Type 0) : Type 0 where
  pub partition_id : ℕ
  pub partition_position : ℕ
  pub event : Option Event

pub data AggregateSourceMessage (Event : Type 0) : Type 0 where
  event : ℕ → InternalAggregateEvent Event → AggregateSourceMessage Event
  caught_up : ℕ → List AggregatePartitionCursor → AggregateSourceMessage Event
  degraded : ℕ → AggregateSourceMessage Event

pub data Payload (Event : Type 0) : Type 0 where
  event_payload : Event → Payload Event
  caught_up_payload recovered_payload : Payload Event
  degraded_payload : ℕ → Payload Event

pub record Frame (Event : Type 0) : Type 0 where
  pub payload : Payload Event
  pub cursor : AggregateCursor

pub record AggregateReadMerger : Type 0 where
  pub cursor : AggregateCursor
  pub pending : BTreeSet ℕ
  pub unavailable : BTreeSet ℕ
  pub caught_up_sent : Bool

unfoldable pub new : AggregateCursor → BTreeSet ℕ → AggregateReadMerger
new cursor source_ids = record {
  cursor = cursor;
  pending = source_ids;
  unavailable = [];
  caught_up_sent = false;
}

-- `get_mut` of a slice
unfoldable pub set_elem : ℕ → ℕ → List ℕ → List ℕ
set_elem i v [] = []
set_elem zero v (n ∷ ns) = v ∷ ns
set_elem (suc i) v (n ∷ ns) = n ∷ set_elem i v ns

-- The entry of a partition whose number is a `u16`.
unfoldable pub position_of : ℕ → List ℕ → Option ℕ
position_of partition_id positions =
    if ltb partition_id (2 ^ 16) then get_elem? positions partition_id else none

unfoldable pub raise_head : AggregatePartitionCursor → List ℕ → List ℕ
raise_head head positions = elim (position_of head.partition_id positions) [
  | none ↦ positions
  | some next_position ↦ set_elem head.partition_id (max next_position head.next_position) positions
]

unfoldable pub raise_heads : List AggregatePartitionCursor → List ℕ → List ℕ
raise_heads [] positions = positions
raise_heads (head ∷ heads) positions = raise_heads heads (raise_head head positions)

abbrev pub is_empty {ℓ} : {A : Type ℓ} → List A → Bool
is_empty [] = true
is_empty (a ∷ rest) = false

module _ {Event : Type 0} where
  unfoldable pub apply_event :
      InternalAggregateEvent Event → AggregateReadMerger → AggregateReadMerger × List (Frame Event)
  apply_event i m = elim (position_of i.partition_id m.cursor.next_positions) [
    | none ↦ (m, [])
    | some next_position ↦
        let cursor : AggregateCursor = record m.cursor {
          next_positions =
              set_elem i.partition_id (sat_add64 i.partition_position 1) m.cursor.next_positions;
        } in
        (
          record m { cursor = cursor },
          elim i.event [
            | none ↦ []
            | some e ↦ record { payload = event_payload e; cursor = cursor } ∷ []
          ],
        )
  ]

  unfoldable pub apply_caught_up :
      ℕ
      → List AggregatePartitionCursor
      → AggregateReadMerger
      → AggregateReadMerger × List (Frame Event)
  apply_caught_up source heads m =
      let cursor : AggregateCursor = record m.cursor {
        next_positions = raise_heads heads m.cursor.next_positions;
      } in
      let pending = remove source m.pending in
      let unavailable = remove source m.unavailable in
      let recovered = contains_key source m.unavailable && is_empty unavailable in
      let completed = is_empty pending && not m.caught_up_sent in
      (
        record {
          cursor = cursor;
          pending = pending;
          unavailable = unavailable;
          caught_up_sent = if completed then true else m.caught_up_sent;
        },
        (if recovered && m.caught_up_sent
              then record { payload = recovered_payload; cursor = cursor } ∷ []
              else [])
            ++ (if completed
                then record { payload = caught_up_payload; cursor = cursor } ∷ []
                else []),
      )

  unfoldable pub apply_degraded : ℕ → AggregateReadMerger → AggregateReadMerger × List (Frame Event)
  apply_degraded source m =
      let unavailable = insert source tt m.unavailable in
      (
        record m { pending = insert source tt m.pending; unavailable = unavailable },
        if contains_key source m.unavailable
            then []
            else record {
              payload = degraded_payload (length unavailable % 2 ^ 32);
              cursor = m.cursor;
            }
              ∷ [],
      )

  unfoldable pub apply :
      AggregateSourceMessage Event → AggregateReadMerger → AggregateReadMerger × List (Frame Event)
  apply (event source i) m = apply_event i m
  apply (caught_up source heads) m = apply_caught_up source heads m
  apply (degraded source) m = apply_degraded source m

  -- The frames of a sequence of messages.
  unfoldable pub run_messages :
      List (AggregateSourceMessage Event)
      → AggregateReadMerger
      → AggregateReadMerger × List (Frame Event)
  run_messages [] m = (m, [])
  run_messages (message ∷ messages) m =
      let (m', frames) = apply message m in
      let (m'', rest) = run_messages messages m' in (m'', frames ++ rest)
