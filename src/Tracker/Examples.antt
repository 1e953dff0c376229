-- ===== src/Tracker/Examples.antt =====
-- The tracker at concrete values.
use net_node_gateway.Prelude.{
  ℕ, ◌+◌, ◌-◌, ◌^◌, ◌≡◌, refl, true, ◌&&◌, none, List, [], ◌∷◌, map, ltb, ◌==◌, if◌then◌else◌,
  arith,
}
use net_node_gateway.Tracker.{
  SeqResult, first, ok, gap, reorder, duplicate, SourceState, empty_tracker, track_source, track,
  no_bits,
}
use net_node_gateway.Prelude.Map
use net_node_gateway.Tracker.Run.{verdict, run, spec_run, run_refines_spec}
use net_node_gateway.Tracker.Window.{in_order_stream, repeat_in_order_stream}

abbrev at_10 : SourceState
at_10 = record { next_expected = 10; initialized = true; seen_window = no_bits }

abbrev ahead : ℕ
ahead = 12

abbrev source_1 : ℕ
source_1 = 1

abbrev at_end : SourceState
at_end = record { next_expected = 2 ^ 32 - 1; initialized = true; seen_window = no_bits }

-- two sources, one with a gap and a late frame
abbrev two_sources : List (ℕ × ℕ)
two_sources = (1, 5) ∷ (2, 100) ∷ (1, 6) ∷ (1, 9) ∷ (2, 101) ∷ (1, 7) ∷ []

-- the answers to these numbers of one source, from an empty tracker
abbrev results : List ℕ → List SeqResult
results seqs = map (λ ev. ev.result) (run empty_tracker (map (λ seq. (1, seq)) seqs))

results_in_order : results (7 ∷ 8 ∷ 9 ∷ 9 ∷ []) ≡ first ∷ ok ∷ ok ∷ duplicate ∷ []
unfolding run track track_source Map.find Map.insert
results_in_order = refl

-- The frame 7 arrives for the first time and is reported as a duplicate.
results_lost_then_late :
    results (0 ∷ 10 ∷ 5 ∷ 11 ∷ 7 ∷ []) ≡ first ∷ gap ∷ reorder ∷ ok ∷ duplicate ∷ []
unfolding run track track_source Map.find Map.insert
results_lost_then_late = refl

run_refines_spec_example :
    map verdict (run empty_tracker two_sources) ≡ spec_run (λ _. none) two_sources
run_refines_spec_example = run_refines_spec two_sources (ground arith)

repeat_in_order_stream_example :
    (track_source 1 (20 + (5 - 2)) (in_order_stream 1 20 5)).0.result
    ≡ (if 2 == 0 && ltb 0 5 then duplicate else reorder)
repeat_in_order_stream_example = repeat_in_order_stream 1 20 5 2 (omega arith) (omega arith)
