-- ===== src/Gateway/Damage.antt =====
-- src/gateway/gateway.cpp: a frame that was damaged on its way.
use net_node_gateway.Prelude.{
  ℕ, ◌+◌, ◌≤◌, ◌≡◌, ◌≢◌, refl, subst, sym, true, List, ◌++◌, All, length,
}
use net_node_gateway.Prelude.Pack.{IsByte}
use net_node_gateway.Protocol.{deserialize_header}
use net_node_gateway.Parser.{ParseError, ParsedFrame, ok, parse_frame}
use net_node_gateway.Parser.Corruption.{parse_frame_detects_burst}
use net_node_gateway.Tracker.{SequenceTracker}
use net_node_gateway.Stats.{
  StatsManager, get_global_stats, add_u64, record_malformed, record_crc_fail, update_source,
}
use net_node_gateway.Stats.Ledger.{replay, apply}
use net_node_gateway.Gateway.{Outside, Gateway, process_frame, no_frame}
use net_node_gateway.Gateway.Core.{Core, frame_calls, tracker_after, process_frame-core}

-- What a refused frame leaves behind.
abbrev Refused : SequenceTracker → StatsManager → Core → Type 0
Refused t m c =
    (c.tracker ≡ t)
    × ((get_global_stats c.stats).rx_total ≡ (get_global_stats m).rx_total)
    × ((get_global_stats c.stats).malformed_total ≡ add_u64 (get_global_stats m).malformed_total 1)

refused :
    (t : SequenceTracker) (m : StatsManager) (ts : ℕ) (p : ParseError × ParsedFrame)
    → p.0 ≢ ok
    → (tracker_after t p ≡ t)
      × ((get_global_stats (replay m (frame_calls t ts p))).rx_total
          ≡ (get_global_stats m).rx_total)
      × ((get_global_stats (replay m (frame_calls t ts p))).malformed_total
          ≡ add_u64 (get_global_stats m).malformed_total 1)
unfolding replay apply record_malformed record_crc_fail update_source get_global_stats
refused t m ts (ParseError.ok, f) ne = absurd (ne refl)
refused t m ts (ParseError.too_short, f) ne = (refl, refl, refl)
refused t m ts (ParseError.bad_version, f) ne = (refl, refl, refl)
refused t m ts (ParseError.bad_msg_type, f) ne = (refl, refl, refl)
refused t m ts (ParseError.payload_too_long, f) ne = (refl, refl, refl)
refused t m ts (ParseError.truncated, f) ne = (refl, refl, refl)
refused t m ts (ParseError.crc_mismatch, f) ne = (refl, refl, refl)

module _ {ℓ} {W : Type ℓ} (o : Outside W) where
  -- A gateway with checksums enabled gets a frame that was acceptable until up to four consecutive
  -- bytes of its header and payload were changed, though not the stated payload length: the tracker
  -- stays as it was, the frame does not count as received, and it counts once as malformed.
  pub process_frame-damaged :
      (g : Gateway W) (rx_timestamp_ns : ℕ) (xs us vs ys : List ℕ)
      → g.config.crc_enabled ≡ true
      → All IsByte xs
      → All IsByte us
      → All IsByte vs
      → All IsByte ys
      → length us ≡ length vs
      → length us ≤ 4
      → us ≢ vs
      → (deserialize_header (xs ++ us ++ ys)).payload_len
        ≡ (deserialize_header (xs ++ vs ++ ys)).payload_len
      → length xs + length us ≤ 18 + (deserialize_header (xs ++ us ++ ys)).payload_len
      → (parse_frame (xs ++ us ++ ys) true no_frame).0 ≡ ok
      → let g' = process_frame o g (xs ++ vs ++ ys) rx_timestamp_ns in
        (g'.tracker ≡ g.tracker)
        × ((get_global_stats g'.stats).rx_total ≡ (get_global_stats g.stats).rx_total)
        × ((get_global_stats g'.stats).malformed_total
            ≡ add_u64 (get_global_stats g.stats).malformed_total 1)
  process_frame-damaged g ts xs us vs ys c hx hu hv hy e l ne same inside good =
      let damaged = xs ++ vs ++ ys in
      subst (Refused g.tracker g.stats) (sym (process_frame-core o g damaged ts)) (
        refused g.tracker g.stats ts (parse_frame damaged g.config.crc_enabled no_frame)
          (λ accepted.
            parse_frame_detects_burst xs us vs ys no_frame no_frame hx hu hv hy e l ne same inside
              good (subst (λ b. (parse_frame damaged b no_frame).0 ≡ ok) c accepted)))
