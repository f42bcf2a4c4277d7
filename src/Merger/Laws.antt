-- ===== src/Merger/Laws.antt =====
-- When a subscription is told that it has caught up.
use eventfs.Prelude.{
  ℕ, suc, ◌+◌, ◌≡◌, refl, ap, none, some, List, [], ◌∷◌, ◌++◌, eq_refl, nat_ord, Bool, true, false,
  Option-cases, inl, inr, arith,
}
use eventfs.BTreeMap.{BTreeSet, get}
use eventfs.BTreeMap.Laws.{get-insert, get-remove}
use eventfs.Merger.{
  AggregateCursor, AggregateSourceMessage, event, caught_up, degraded, event_payload,
  caught_up_payload, recovered_payload, degraded_payload, Frame, AggregateReadMerger, new,
  apply_event, apply_caught_up, apply_degraded, apply, run_messages,
}

module _ {Event : Type 0} where
  abbrev pub count_caught_up : List (Frame Event) → ℕ
  count_caught_up [] = 0
  count_caught_up (frame ∷ frames) =
      let rest = count_caught_up frames in
      elim frame.payload [
        | caught_up_payload ↦ suc rest
        | event_payload e ↦ rest
        | recovered_payload ↦ rest
        | degraded_payload n ↦ rest
      ]

  count-append :
      (a b : List (Frame Event)) → count_caught_up (a ++ b) ≡ count_caught_up a + count_caught_up b
  count-append [] b = omega arith
  count-append (frame ∷ a) b = ground (arith, count-append a b)

abbrev pub as_number : Bool → ℕ
as_number false = 0
as_number true = 1

-- Sources that are unavailable are pending.
pub record IsTracked (m : AggregateReadMerger) : Type 0 where
  pub waits : (s : ℕ) → get s m.unavailable ≡ some tt → get s m.pending ≡ some tt

get_nil : (s : ℕ) → get {V = Unit {0}} s [] ≡ none
unfolding get
get_nil s = refl

nothing_there : (m : BTreeSet ℕ) → ((s : ℕ) → get s m ≡ none) → m ≡ []
unfolding get
nothing_there [] h = refl
nothing_there ((k, v) ∷ m) h = ground (arith, h k, eq_refl k)

module _ {Event : Type 0} where
  apply-IsTracked :
      (message : AggregateSourceMessage Event) (m : AggregateReadMerger)
      → IsTracked m
      → IsTracked (apply message m).0
  unfolding apply apply_event apply_caught_up apply_degraded
  apply-IsTracked (event source i) m w = record { waits = λ s h. ground (arith, w.waits s) }
  apply-IsTracked (caught_up source heads) m w = record {
    waits = λ s h.
        ground (arith, w.waits s, get-remove s source m.pending, get-remove s source m.unavailable);
  }
  apply-IsTracked (degraded source) m w = record {
    waits = λ s h.
        ground (
          arith,
          w.waits s,
          get-insert s source tt m.pending,
          get-insert s source tt m.unavailable,
        );
  }

  count-apply :
      (message : AggregateSourceMessage Event) (m : AggregateReadMerger)
      → as_number m.caught_up_sent + count_caught_up (apply message m).1
        ≡ as_number (apply message m).0.caught_up_sent
  unfolding apply apply_event apply_caught_up apply_degraded
  count-apply (event source i) m = ground arith
  count-apply (caught_up source heads) m = ground arith
  count-apply (degraded source) m = ground arith

  -- A caught-up frame leaves nothing to wait for.
  complete_lem :
      (message : AggregateSourceMessage Event) (m : AggregateReadMerger)
      → count_caught_up (apply message m).1 ≡ 1
      → (apply message m).0.pending ≡ []
  unfolding apply apply_event apply_caught_up apply_degraded
  complete_lem (event source i) m h = ground arith
  complete_lem (caught_up source heads) m h = ground arith
  complete_lem (degraded source) m h = ground arith

  run_messages-IsTracked :
      (messages : List (AggregateSourceMessage Event)) (m : AggregateReadMerger)
      → IsTracked m
      → IsTracked (run_messages messages m).0
  unfolding run_messages
  run_messages-IsTracked [] m w = w
  run_messages-IsTracked (message ∷ messages) m w =
      run_messages-IsTracked messages (apply message m).0 (apply-IsTracked message m w)

  count-run_messages :
      (messages : List (AggregateSourceMessage Event)) (m : AggregateReadMerger)
      → as_number m.caught_up_sent + count_caught_up (run_messages messages m).1
        ≡ as_number (run_messages messages m).0.caught_up_sent
  unfolding run_messages
  count-run_messages [] m = omega arith
  count-run_messages (message ∷ messages) m = omega (
    arith,
    count-apply message m,
    count-run_messages messages (apply message m).0,
    count-append (apply message m).1 (run_messages messages (apply message m).0).1,
  )

  -- When a message is answered with a caught-up frame, no frame before was one, and no source is
  -- pending or unavailable any more, whatever messages came before.
  pub caught_up_once :
      (cursor : AggregateCursor) (source_ids : BTreeSet ℕ)
      → (messages : List (AggregateSourceMessage Event)) (message : AggregateSourceMessage Event)
      → let before = run_messages messages (new cursor source_ids) in
        let after = apply message before.0 in
        count_caught_up after.1 ≡ 1
        → (count_caught_up before.1 ≡ 0) × (after.0.pending ≡ []) × (after.0.unavailable ≡ [])
  unfolding new
  caught_up_once cursor source_ids messages message h =
      let fresh : IsTracked (new cursor source_ids) = record {
        waits = λ s e. unfold get in ground arith;
      } in
      let before = run_messages messages (new cursor source_ids) in
      let after = apply message before.0 in
      let tracked =
        apply-IsTracked message before.0
          (run_messages-IsTracked messages (new cursor source_ids) fresh) in
      let complete = complete_lem message before.0 h in
      (
        ground (
          arith,
          count-apply message before.0,
          count-run_messages messages (new cursor source_ids),
        ),
        complete,
        nothing_there after.0.unavailable (λ s. elim (Option-cases (get s after.0.unavailable)) [
          | inl none_there ↦ none_there
          | inr (u, there) ↦
              ground (arith, tracked.waits s there, ap (λ z. get s z) complete, get_nil s)
        ]),
      )
