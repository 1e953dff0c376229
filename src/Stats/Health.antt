-- ===== src/Stats/Health.antt =====
-- src/gateway/stats_manager.cpp: the health state against the history of the calls.
use net_node_gateway.Prelude.{◌+◌, ◌^◌, ◌<◌, ◌≡◌, ◌↔◌, List, arith}
use net_node_gateway.Stats.{ok, degraded, error, empty_stats, get_health, get_global_stats}
use net_node_gateway.Stats.Ledger.{
  Call, replay, tally, malformed_weight, crc_fail_weight, gap_weight, reorder_weight, global_ledger,
}

-- While no counter has wrapped, the health is error exactly after a malformed frame or a checksum
-- failure, else degraded exactly after a gap or a reorder, and otherwise ok. Duplicates and
-- received frames leave it alone.
pub get_health_ledger :
    (cs : List Call)
    → tally malformed_weight cs + tally crc_fail_weight cs < 2 ^ 64
    → tally gap_weight cs + tally reorder_weight cs < 2 ^ 64
    → let faults = tally malformed_weight cs + tally crc_fail_weight cs in
      let anomalies = tally gap_weight cs + tally reorder_weight cs in
      let health = get_health (replay empty_stats cs) in
      ((health ≡ error) ↔ (0 < faults))
      × ((health ≡ degraded) ↔ ((faults ≡ 0) × (0 < anomalies)))
      × ((health ≡ ok) ↔ ((faults ≡ 0) × (anomalies ≡ 0)))
unfolding get_health get_global_stats
get_health_ledger cs h k = ground (arith, global_ledger cs)
