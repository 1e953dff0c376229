-- ===== src/Stats/Ledger.antt =====
-- src/gateway/stats_manager.cpp: the counters against the history of the calls.
pub mod Calls
use net_node_gateway.Prelude.{
  ℕ, ◌+◌, ◌%◌, ◌^◌, ◌<◌, ◌≡◌, ap, ◌∙◌, List, [], ◌∷◌, ◌==◌, if◌then◌else◌, arith,
}
use net_node_gateway.Prelude.Map
use net_node_gateway.Stats.{
  GlobalStats, SourceStats, StatsManager, empty_stats, add_u64, created, update_source, record_rx,
  record_malformed, record_gap, record_reorder, record_duplicate, record_crc_fail, get_global_stats,
  get_source_stats,
}
unfoldable pub use net_node_gateway.Stats.Ledger.Calls.{apply, replay}
pub use net_node_gateway.Stats.Ledger.Calls.{
  Call, tally, rx_weight, malformed_weight, gap_weight, reorder_weight, duplicate_weight,
  crc_fail_weight, at_source, rx, malformed, reorder, duplicate, crc_fail, gap,
}
use net_node_gateway.Stats.Ledger.Calls.{source_of}

abbrev plus_global : GlobalStats → List Call → GlobalStats
plus_global g cs = record {
  rx_total = (g.rx_total + tally rx_weight cs) % 2 ^ 64;
  malformed_total = (g.malformed_total + tally malformed_weight cs) % 2 ^ 64;
  gap_total = (g.gap_total + tally gap_weight cs) % 2 ^ 64;
  reorder_total = (g.reorder_total + tally reorder_weight cs) % 2 ^ 64;
  duplicate_total = (g.duplicate_total + tally duplicate_weight cs) % 2 ^ 64;
  crc_fail_total = (g.crc_fail_total + tally crc_fail_weight cs) % 2 ^ 64;
}

record IsU64Global (g : GlobalStats) : Type 0 where
  rx : g.rx_total < 2 ^ 64
  malformed : g.malformed_total < 2 ^ 64
  gap : g.gap_total < 2 ^ 64
  reorder : g.reorder_total < 2 ^ 64
  duplicate : g.duplicate_total < 2 ^ 64
  crc_fail : g.crc_fail_total < 2 ^ 64

apply-IsU64Global :
    (m : StatsManager) (c : Call) → IsU64Global m.global → IsU64Global (apply m c).global
unfolding apply
apply-IsU64Global m (rx src_id seq ts_ns) h = ground arith
apply-IsU64Global m _ h = ground arith

apply-plus_global :
    (m : StatsManager) (c : Call) (cs : List Call)
    → plus_global (apply m c).global cs ≡ plus_global m.global (c ∷ cs)
unfolding apply
apply-plus_global m (rx src_id seq ts_ns) cs = ground arith
apply-plus_global m _ cs = ground arith

replay-global :
    (m : StatsManager) (cs : List Call)
    → IsU64Global m.global
    → (replay m cs).global ≡ plus_global m.global cs
unfolding replay
replay-global m [] h = ground arith
replay-global m (c ∷ cs) h =
    replay-global (apply m c) cs (apply-IsU64Global m c h) ∙ apply-plus_global m c cs

-- After any history of calls each global counter is the number of its calls, the gap counter the
-- sum of the gap sizes, all modulo 2 ^ 64.
pub global_ledger :
    (cs : List Call)
    → get_global_stats (replay empty_stats cs) ≡ record {
      rx_total = tally rx_weight cs % 2 ^ 64;
      malformed_total = tally malformed_weight cs % 2 ^ 64;
      gap_total = tally gap_weight cs % 2 ^ 64;
      reorder_total = tally reorder_weight cs % 2 ^ 64;
      duplicate_total = tally duplicate_weight cs % 2 ^ 64;
      crc_fail_total = tally crc_fail_weight cs % 2 ^ 64;
    }
unfolding get_global_stats
global_ledger cs = ground (arith, replay-global empty_stats cs (omega arith))

-- Malformed frames and checksum failures share one counter of the source.
abbrev pub faulty_weight : Call → ℕ
faulty_weight (malformed src_id) = 1
faulty_weight (crc_fail src_id) = 1
faulty_weight _ = 0

-- the last frame that a history records for a source, with its timestamp
abbrev pub latest : ℕ → ℕ × ℕ → List Call → ℕ × ℕ
latest src_id p [] = p
latest src_id p (rx other seq ts_ns ∷ cs) =
    latest src_id (if other == src_id then (seq, ts_ns) else p) cs
latest src_id p (_ ∷ cs) = latest src_id p cs

abbrev plus_source : ℕ → SourceStats → List Call → SourceStats
plus_source src_id s cs = record s {
  rx_count = (s.rx_count + tally (at_source src_id rx_weight) cs) % 2 ^ 64;
  malformed = (s.malformed + tally (at_source src_id faulty_weight) cs) % 2 ^ 64;
  gaps = (s.gaps + tally (at_source src_id gap_weight) cs) % 2 ^ 64;
  reorders = (s.reorders + tally (at_source src_id reorder_weight) cs) % 2 ^ 64;
  duplicates = (s.duplicates + tally (at_source src_id duplicate_weight) cs) % 2 ^ 64;
  last_seq = (latest src_id (s.last_seq, s.last_ts_ns) cs).0;
  last_ts_ns = (latest src_id (s.last_seq, s.last_ts_ns) cs).1;
}

record IsU64Source (s : SourceStats) : Type 0 where
  rx : s.rx_count < 2 ^ 64
  malformed : s.malformed < 2 ^ 64
  gaps : s.gaps < 2 ^ 64
  reorders : s.reorders < 2 ^ 64
  duplicates : s.duplicates < 2 ^ 64

-- the entry of a source, as `get_or_create_source` would give it
abbrev row : StatsManager → ℕ → SourceStats
row m src_id = created src_id (Map.find src_id m.sources)

row-update_source :
    (f : SourceStats → SourceStats) (src_id other : ℕ) (m : StatsManager)
    → row (update_source f src_id m) other
      ≡ (if src_id == other then f (row m other) else row m other)
unfolding update_source
row-update_source f src_id other m =
    ground (arith, Map.find-insert src_id other (f (row m src_id)) m.sources)

abbrev note : Call → SourceStats → SourceStats
note (rx src_id seq ts_ns) s = record s {
  rx_count = add_u64 s.rx_count 1;
  last_seq = seq;
  last_ts_ns = ts_ns;
}
note (malformed src_id) s = record s { malformed = add_u64 s.malformed 1 }
note (reorder src_id) s = record s { reorders = add_u64 s.reorders 1 }
note (duplicate src_id) s = record s { duplicates = add_u64 s.duplicates 1 }
note (crc_fail src_id) s = record s { malformed = add_u64 s.malformed 1 }
note (gap src_id gap_size) s = record s { gaps = add_u64 s.gaps gap_size }

row-apply :
    (m : StatsManager) (c : Call) (src_id : ℕ)
    → row (apply m c) src_id
      ≡ (if source_of c == src_id then note c (row m src_id) else row m src_id)
unfolding apply
row-apply m (rx other seq ts_ns) src_id =
    row-update_source (note (rx other seq ts_ns)) other src_id m
row-apply m (malformed other) src_id = row-update_source (note (malformed other)) other src_id m
row-apply m (reorder other) src_id = row-update_source (note (reorder other)) other src_id m
row-apply m (duplicate other) src_id = row-update_source (note (duplicate other)) other src_id m
row-apply m (crc_fail other) src_id = row-update_source (note (crc_fail other)) other src_id m
row-apply m (gap other size) src_id = row-update_source (note (gap other size)) other src_id m

plus-note :
    (s : SourceStats) (c : Call) (src_id : ℕ) (cs : List Call)
    → plus_source src_id (if source_of c == src_id then note c s else s) cs
      ≡ plus_source src_id s (c ∷ cs)
plus-note s (rx other seq ts_ns) src_id cs = ground arith
plus-note s _ src_id cs = ground arith

note-IsU64Source :
    (s : SourceStats) (c : Call) (src_id : ℕ)
    → IsU64Source s
    → IsU64Source (if source_of c == src_id then note c s else s)
note-IsU64Source s (rx other seq ts_ns) src_id h = ground arith
note-IsU64Source s _ src_id h = ground arith

replay-row :
    (m : StatsManager) (cs : List Call) (src_id : ℕ)
    → IsU64Source (row m src_id)
    → row (replay m cs) src_id ≡ plus_source src_id (row m src_id) cs
unfolding replay
replay-row m [] src_id h = ground arith
replay-row m (c ∷ cs) src_id h =
    replay-row (apply m c) cs src_id (rw (row-apply m c src_id) (note-IsU64Source _ c src_id h))
    ∙ rw (row-apply m c src_id) (plus-note (row m src_id) c src_id cs)

row-get_source_stats :
    (m : StatsManager) (src_id : ℕ)
    → record (get_source_stats m src_id) { src_id = src_id }
      ≡ record (row m src_id) { src_id = src_id }
unfolding get_source_stats
row-get_source_stats m src_id = ground arith

-- After any history of calls the statistics of a source are those of its own calls: the counters
-- are the numbers of its calls modulo 2 ^ 64, malformed frames and checksum failures together, and
-- the last number and timestamp are those of its last received frame. The id is left aside here.
pub source_ledger :
    (cs : List Call) (src_id : ℕ)
    → record (get_source_stats (replay empty_stats cs) src_id) { src_id = src_id } ≡ record {
      src_id = src_id;
      rx_count = tally (at_source src_id rx_weight) cs % 2 ^ 64;
      malformed = tally (at_source src_id faulty_weight) cs % 2 ^ 64;
      gaps = tally (at_source src_id gap_weight) cs % 2 ^ 64;
      reorders = tally (at_source src_id reorder_weight) cs % 2 ^ 64;
      duplicates = tally (at_source src_id duplicate_weight) cs % 2 ^ 64;
      last_seq = (latest src_id (0, 0) cs).0;
      last_ts_ns = (latest src_id (0, 0) cs).1;
    }
source_ledger cs src_id =
    row-get_source_stats (replay empty_stats cs) src_id
    ∙ ap (λ (s : SourceStats). record s { src_id = src_id })
        (replay-row empty_stats cs src_id (unfold Map.find in omega arith))
    ∙ unfold Map.find in ground arith
