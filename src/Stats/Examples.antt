-- ===== src/Stats/Examples.antt =====
-- The statistics at a concrete history.
use net_node_gateway.Prelude.{◌%◌, ◌^◌, ◌≡◌, refl, List, [], ◌∷◌}
use net_node_gateway.Prelude.Map
use net_node_gateway.Stats.{empty_stats, get_source_stats}
use net_node_gateway.Stats.Ledger.{
  Call, rx, malformed, gap, crc_fail, replay, apply, tally, at_source, latest, rx_weight,
  gap_weight, reorder_weight, duplicate_weight, faulty_weight, source_ledger,
}

abbrev calls : List Call
calls = rx 1 10 1000 ∷ rx 1 14 1001 ∷ gap 1 3 ∷ rx 2 1 1002 ∷ malformed 0 ∷ crc_fail 0 ∷ []

-- A checksum failure, reported by two calls, counts twice in the malformed frames of source 0.
source_0_counts_twice : (get_source_stats (replay empty_stats calls) 0).malformed ≡ 2
unfolding replay apply get_source_stats Map.find Map.insert
source_0_counts_twice = refl

source_ledger_example :
    record (get_source_stats (replay empty_stats calls) 1) { src_id = 1 } ≡ record {
      src_id = 1;
      rx_count = tally (at_source 1 rx_weight) calls % 2 ^ 64;
      malformed = tally (at_source 1 faulty_weight) calls % 2 ^ 64;
      gaps = tally (at_source 1 gap_weight) calls % 2 ^ 64;
      reorders = tally (at_source 1 reorder_weight) calls % 2 ^ 64;
      duplicates = tally (at_source 1 duplicate_weight) calls % 2 ^ 64;
      last_seq = (latest 1 (0, 0) calls).0;
      last_ts_ns = (latest 1 (0, 0) calls).1;
    }
source_ledger_example = source_ledger calls 1
