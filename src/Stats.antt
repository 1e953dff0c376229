-- ===== src/Stats.antt =====
-- src/gateway/stats_manager.cpp and stats_manager.h: the counters. Each method holds the mutex for
-- its whole body, so a method is one step on the state. A `uint64_t` counter wraps at 2 ^ 64.
pub mod Ledger
pub mod Health
mod Examples
use net_node_gateway.Prelude.{
  ℕ, ◌+◌, ◌%◌, ◌^◌, Bool, ◌||◌, Option, none, some, List, [], ◌∷◌, map, ltb, if◌then◌else◌,
}
use net_node_gateway.Prelude.Map

pub record GlobalStats : Type 0 where
  pub rx_total : ℕ
  pub malformed_total : ℕ
  pub gap_total : ℕ
  pub reorder_total : ℕ
  pub duplicate_total : ℕ
  pub crc_fail_total : ℕ

pub record SourceStats : Type 0 where
  pub src_id : ℕ
  pub rx_count : ℕ
  pub malformed : ℕ
  pub gaps : ℕ
  pub reorders : ℕ
  pub duplicates : ℕ
  pub last_seq : ℕ
  pub last_ts_ns : ℕ

pub data HealthState : Type 0 where
  ok degraded error : HealthState

pub record StatsManager : Type 0 where
  pub global : GlobalStats
  pub sources : List (ℕ × SourceStats)

abbrev pub zero_global : GlobalStats
zero_global = record {
  rx_total = 0;
  malformed_total = 0;
  gap_total = 0;
  reorder_total = 0;
  duplicate_total = 0;
  crc_fail_total = 0;
}

abbrev pub zero_source : SourceStats
zero_source = record {
  src_id = 0;
  rx_count = 0;
  malformed = 0;
  gaps = 0;
  reorders = 0;
  duplicates = 0;
  last_seq = 0;
  last_ts_ns = 0;
}

abbrev pub empty_stats : StatsManager
empty_stats = record { global = zero_global; sources = [] }

abbrev pub add_u64 : ℕ → ℕ → ℕ
add_u64 a b = (a + b) % 2 ^ 64

-- What the reference that `get_or_create_source` returns refers to; a new entry carries its id.
abbrev pub created : ℕ → Option SourceStats → SourceStats
created src_id none = record zero_source { src_id = src_id }
created src_id (some s) = s

unfoldable pub get_or_create_source : StatsManager → ℕ → SourceStats
get_or_create_source m src_id = created src_id (Map.find src_id m.sources)

-- A write through that reference.
unfoldable pub update_source : (SourceStats → SourceStats) → ℕ → StatsManager → StatsManager
unfolding get_or_create_source
update_source f src_id m = record m {
  sources = Map.insert src_id (f (get_or_create_source m src_id)) m.sources;
}

unfoldable pub record_rx : StatsManager → ℕ → ℕ → ℕ → StatsManager
record_rx m src_id seq ts_ns =
    update_source
      (λ s. record s { rx_count = add_u64 s.rx_count 1; last_seq = seq; last_ts_ns = ts_ns }) src_id
      (record m { global = record m.global { rx_total = add_u64 m.global.rx_total 1 } })

unfoldable pub record_malformed : StatsManager → ℕ → StatsManager
record_malformed m src_id =
    update_source (λ s. record s { malformed = add_u64 s.malformed 1 }) src_id
      (record m {
        global = record m.global { malformed_total = add_u64 m.global.malformed_total 1 };
      })

unfoldable pub record_gap : StatsManager → ℕ → ℕ → StatsManager
record_gap m src_id gap_size =
    update_source (λ s. record s { gaps = add_u64 s.gaps gap_size }) src_id
      (record m { global = record m.global { gap_total = add_u64 m.global.gap_total gap_size } })

unfoldable pub record_reorder : StatsManager → ℕ → StatsManager
record_reorder m src_id =
    update_source (λ s. record s { reorders = add_u64 s.reorders 1 }) src_id
      (record m { global = record m.global { reorder_total = add_u64 m.global.reorder_total 1 } })

unfoldable pub record_duplicate : StatsManager → ℕ → StatsManager
record_duplicate m src_id =
    update_source (λ s. record s { duplicates = add_u64 s.duplicates 1 }) src_id
      (record m {
        global = record m.global { duplicate_total = add_u64 m.global.duplicate_total 1 };
      })

unfoldable pub record_crc_fail : StatsManager → ℕ → StatsManager
record_crc_fail m src_id =
    update_source (λ s. record s { malformed = add_u64 s.malformed 1 }) src_id
      (record m { global = record m.global { crc_fail_total = add_u64 m.global.crc_fail_total 1 } })

unfoldable pub get_global_stats : StatsManager → GlobalStats
get_global_stats m = m.global

abbrev pub or_zero : Option SourceStats → SourceStats
or_zero none = zero_source
or_zero (some s) = s

unfoldable pub get_source_stats : StatsManager → ℕ → SourceStats
get_source_stats m src_id = or_zero (Map.find src_id m.sources)

-- The order of the result is the order of the hash table in the source, and no order here.
unfoldable pub get_all_source_stats : StatsManager → List SourceStats
get_all_source_stats m = map (λ p. p.1) m.sources

unfoldable pub get_health : StatsManager → HealthState
get_health m =
    if ltb 0 m.global.malformed_total || ltb 0 m.global.crc_fail_total
    then error
    else if ltb 0 m.global.gap_total || ltb 0 m.global.reorder_total
    then degraded
    else ok

unfoldable pub reset : StatsManager → StatsManager
reset m = empty_stats
