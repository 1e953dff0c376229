-- ===== src/Stats/Ledger/Calls.antt =====
-- src/gateway/stats_manager.cpp: a call of a recording method, and what it counts for.
use net_node_gateway.Prelude.{ℕ, ◌+◌, List, [], ◌∷◌, ◌==◌, if◌then◌else◌}
use net_node_gateway.Stats.{
  StatsManager, update_source, record_rx, record_malformed, record_gap, record_reorder,
  record_duplicate, record_crc_fail,
}

-- A call of one of the six recording methods.
pub data Call : Type 0 where
  rx : ℕ → ℕ → ℕ → Call
  malformed reorder duplicate crc_fail : ℕ → Call
  gap : ℕ → ℕ → Call

unfoldable pub apply : StatsManager → Call → StatsManager
unfolding update_source record_rx record_malformed record_gap record_reorder record_duplicate
    record_crc_fail
apply m (rx src_id seq ts_ns) = record_rx m src_id seq ts_ns
apply m (malformed src_id) = record_malformed m src_id
apply m (reorder src_id) = record_reorder m src_id
apply m (duplicate src_id) = record_duplicate m src_id
apply m (crc_fail src_id) = record_crc_fail m src_id
apply m (gap src_id gap_size) = record_gap m src_id gap_size

unfoldable pub replay : StatsManager → List Call → StatsManager
replay m [] = m
replay m (c ∷ cs) = replay (apply m c) cs

-- How often, or how much, the calls of a history count for.
abbrev pub tally : (Call → ℕ) → List Call → ℕ
tally weight [] = 0
tally weight (c ∷ cs) = weight c + tally weight cs

abbrev pub rx_weight : Call → ℕ
rx_weight (rx src_id seq ts_ns) = 1
rx_weight _ = 0

abbrev pub malformed_weight : Call → ℕ
malformed_weight (malformed src_id) = 1
malformed_weight _ = 0

abbrev pub gap_weight : Call → ℕ
gap_weight (gap src_id gap_size) = gap_size
gap_weight _ = 0

abbrev pub reorder_weight : Call → ℕ
reorder_weight (reorder src_id) = 1
reorder_weight _ = 0

abbrev pub duplicate_weight : Call → ℕ
duplicate_weight (duplicate src_id) = 1
duplicate_weight _ = 0

abbrev pub crc_fail_weight : Call → ℕ
crc_fail_weight (crc_fail src_id) = 1
crc_fail_weight _ = 0

abbrev pub source_of : Call → ℕ
source_of (rx src_id seq ts_ns) = src_id
source_of (malformed src_id) = src_id
source_of (reorder src_id) = src_id
source_of (duplicate src_id) = src_id
source_of (crc_fail src_id) = src_id
source_of (gap src_id gap_size) = src_id

-- the same for one source
abbrev pub at_source : ℕ → (Call → ℕ) → Call → ℕ
at_source src_id weight c = if source_of c == src_id then weight c else 0
