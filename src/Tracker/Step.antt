-- ===== src/Tracker/Step.antt =====
-- src/gateway/sequence_tracker.cpp: what one call of `track` does to the source and the others.
use net_node_gateway.Prelude.{ℕ, ◌+◌, ◌^◌, ◌<◌, ◌≡◌, ◌≢◌, ◌⊎◌, true, ◌==◌, if◌then◌else◌, arith}
use net_node_gateway.Prelude.Map
use net_node_gateway.Tracker.{
  first, ok, gap, reorder, duplicate, SourceState, SequenceTracker, source_state, track_source,
  track, reset,
}

-- The answer to a frame of a known source that has not wrapped.
pub track_source-result :
    (src_id seq : ℕ) (s : SourceState)
    → s.initialized ≡ true
    → seq + 1 < 2 ^ 32
    → let (ev, s') = track_source src_id seq s in
      (s'.initialized ≡ true)
      × ((seq ≡ s.next_expected)
            × (ev.result ≡ ok)
            × (ev.gap_size ≡ 0)
            × (s'.next_expected ≡ seq + 1)
          ⊎ (s.next_expected < seq)
            × (ev.result ≡ gap)
            × (s.next_expected + ev.gap_size ≡ seq)
            × (s'.next_expected ≡ seq + 1)
          ⊎ (seq < s.next_expected)
            × ((ev.result ≡ reorder) ⊎ (ev.result ≡ duplicate))
            × (ev.gap_size ≡ 0)
            × (s'.next_expected ≡ s.next_expected))
unfolding track_source
track_source-result src_id seq s i h = ground arith

-- A frame changes the state of its own source only, and its event names that source.
pub source_state-track :
    (t : SequenceTracker) (src_id seq other : ℕ)
    → source_state (track t src_id seq).1 other ≡ (
        if src_id == other
        then (track_source src_id seq (source_state t src_id)).1
        else source_state t other)
unfolding track
source_state-track t src_id seq other =
    ground
      (arith, Map.find-insert src_id other (track_source src_id seq (source_state t src_id)).1 t)

-- After `reset` of a source its next frame is the first one again, with no gap; the other sources
-- keep their states.
pub track-reset :
    (t : SequenceTracker) (src_id seq other : ℕ)
    → ((track (reset t src_id) src_id seq).0.result ≡ first)
      × (src_id ≢ other → source_state (reset t src_id) other ≡ source_state t other)
unfolding track reset track_source
track-reset t src_id seq other = (
  ground (arith, Map.find-erase src_id src_id t),
  λ ne. ground (arith, Map.find-erase src_id other t),
)
