-- ===== src/Gateway/Accounting.antt =====
-- src/gateway/gateway.cpp: what the counters say after any frames.
use net_node_gateway.Prelude.{
  ℕ, suc, ◌+◌, ◌%◌, ◌^◌, ◌<◌, ◌≤◌, ◌≡◌, refl, sym, ap, ◌∙◌, Bool, List, [], ◌∷◌, ◌++◌, length,
  arith,
}
use net_node_gateway.Parser.{ParseError, ParsedFrame, parse_frame}
use net_node_gateway.Tracker.{SeqResult, SequenceTracker}
use net_node_gateway.Tracker
use net_node_gateway.Stats.{StatsManager, GlobalStats, empty_stats, get_global_stats}
use net_node_gateway.Stats.Ledger.{
  Call, apply, replay, tally, rx_weight, malformed_weight, crc_fail_weight, gap_weight,
  reorder_weight, duplicate_weight, global_ledger,
}
use net_node_gateway.Gateway.{Outside, Gateway, process_frame, process_all, no_frame}
use net_node_gateway.Gateway.Core.{verdict_calls, frame_calls, tracker_after, process_frame-core}

-- The calls of all the frames.
abbrev pub history : Bool → SequenceTracker → List (List ℕ × ℕ) → List Call
history crc_enabled t [] = []
history crc_enabled t ((frame, ts) ∷ frames) =
    let p = parse_frame frame crc_enabled no_frame in
    frame_calls t ts p ++ history crc_enabled (tracker_after t p) frames

replay-append :
    (cs ds : List Call) (m : StatsManager) → replay m (cs ++ ds) ≡ replay (replay m cs) ds
unfolding replay
replay-append [] ds m = refl
replay-append (c ∷ cs) ds m = replay-append cs ds (apply m c)

pub tally-append : (w : Call → ℕ) (cs ds : List Call) → tally w (cs ++ ds) ≡ tally w cs + tally w ds
tally-append w [] ds = omega arith
tally-append w (c ∷ cs) ds = omega (arith, tally-append w cs ds)

-- What one frame counts for.
abbrev BalancedCalls : List Call → ℕ → Type 0
BalancedCalls cs n =
    (tally rx_weight cs + tally malformed_weight cs ≡ n)
    × (tally crc_fail_weight cs ≤ tally malformed_weight cs)
    × (tally reorder_weight cs + tally duplicate_weight cs ≤ tally rx_weight cs)

verdict_calls-tally :
    (src_id gap_size : ℕ) (r : SeqResult)
    → let cs = verdict_calls src_id gap_size r in
      (tally rx_weight cs + tally malformed_weight cs + tally crc_fail_weight cs ≡ 0)
      × (tally reorder_weight cs + tally duplicate_weight cs ≤ 1)
verdict_calls-tally src_id gap_size SeqResult.first = (omega arith, omega arith)
verdict_calls-tally src_id gap_size SeqResult.ok = (omega arith, omega arith)
verdict_calls-tally src_id gap_size SeqResult.gap = (omega arith, omega arith)
verdict_calls-tally src_id gap_size SeqResult.reorder = (omega arith, omega arith)
verdict_calls-tally src_id gap_size SeqResult.duplicate = (omega arith, omega arith)

frame_calls-BalancedCalls :
    (t : SequenceTracker) (ts : ℕ) (p : ParseError × ParsedFrame)
    → BalancedCalls (frame_calls t ts p) 1
frame_calls-BalancedCalls t ts (ParseError.ok, parsed) =
    let ev = (Tracker.track t parsed.header.src_id parsed.header.seq).0 in
    let (a, b) = verdict_calls-tally parsed.header.src_id ev.gap_size ev.result in
    (omega arith, omega arith, omega arith)
frame_calls-BalancedCalls t ts (ParseError.too_short, parsed) =
    (omega arith, omega arith, omega arith)
frame_calls-BalancedCalls t ts (ParseError.bad_version, parsed) =
    (omega arith, omega arith, omega arith)
frame_calls-BalancedCalls t ts (ParseError.bad_msg_type, parsed) =
    (omega arith, omega arith, omega arith)
frame_calls-BalancedCalls t ts (ParseError.payload_too_long, parsed) =
    (omega arith, omega arith, omega arith)
frame_calls-BalancedCalls t ts (ParseError.truncated, parsed) =
    (omega arith, omega arith, omega arith)
frame_calls-BalancedCalls t ts (ParseError.crc_mismatch, parsed) =
    (omega arith, omega arith, omega arith)

append-BalancedCalls :
    (cs ds : List Call) (n m k : ℕ)
    → n + m ≡ k
    → BalancedCalls cs n
    → BalancedCalls ds m
    → BalancedCalls (cs ++ ds) k
append-BalancedCalls cs ds n m k e (a, b, c) (a', b', c') = (
  omega (arith, tally-append rx_weight cs ds, tally-append malformed_weight cs ds),
  omega (arith, tally-append crc_fail_weight cs ds, tally-append malformed_weight cs ds),
  omega (
    arith,
    tally-append reorder_weight cs ds,
    tally-append duplicate_weight cs ds,
    tally-append rx_weight cs ds,
  ),
)

history-BalancedCalls :
    (crc_enabled : Bool) (t : SequenceTracker) (frames : List (List ℕ × ℕ))
    → BalancedCalls (history crc_enabled t frames) (length frames)
history-BalancedCalls crc_enabled t [] = (omega arith, omega arith, omega arith)
history-BalancedCalls crc_enabled t ((frame, ts) ∷ frames) =
    let p = parse_frame frame crc_enabled no_frame in
    append-BalancedCalls (frame_calls t ts p) (history crc_enabled (tracker_after t p) frames) 1
      (length frames) (suc (length frames)) (omega arith) (frame_calls-BalancedCalls t ts p)
      (history-BalancedCalls crc_enabled (tracker_after t p) frames)

abbrev ledger : List Call → GlobalStats
ledger cs = record {
  rx_total = tally rx_weight cs % 2 ^ 64;
  malformed_total = tally malformed_weight cs % 2 ^ 64;
  gap_total = tally gap_weight cs % 2 ^ 64;
  reorder_total = tally reorder_weight cs % 2 ^ 64;
  duplicate_total = tally duplicate_weight cs % 2 ^ 64;
  crc_fail_total = tally crc_fail_weight cs % 2 ^ 64;
}

-- the counters of a ledger without a wrap
accounted :
    (s : GlobalStats) (cs : List Call) (n : ℕ)
    → s ≡ ledger cs
    → BalancedCalls cs n
    → n < 2 ^ 64
    → (s.rx_total + s.malformed_total ≡ n)
      × (s.crc_fail_total ≤ s.malformed_total)
      × (s.reorder_total + s.duplicate_total ≤ s.rx_total)
accounted s cs n e (a, b, c) k = ground arith

module _ {ℓ} {W : Type ℓ} (o : Outside W) where
  pub stats-process_all :
      (g : Gateway W) (frames : List (List ℕ × ℕ))
      → (process_all o g frames).stats
        ≡ replay g.stats (history g.config.crc_enabled g.tracker frames)
  unfolding process_all replay
  stats-process_all g [] = refl
  stats-process_all g ((frame, ts) ∷ frames) =
      let p = parse_frame frame g.config.crc_enabled no_frame in
      stats-process_all (process_frame o g frame ts) frames
      ∙ ap (λ c. replay c.stats (history c.config.crc_enabled c.tracker frames))
          (process_frame-core o g frame ts)
      ∙ sym (
          replay-append (frame_calls g.tracker ts p)
            (history g.config.crc_enabled (tracker_after g.tracker p) frames) g.stats)

  -- Starting from empty statistics and for fewer than 2 ^ 64 frames, every frame is counted once: as
  -- received or as malformed. At most the malformed ones are checksum failures, and at most the
  -- received ones are reorders or duplicates.
  pub process_all-accounting :
      (g : Gateway W) (frames : List (List ℕ × ℕ))
      → g.stats ≡ empty_stats
      → length frames < 2 ^ 64
      → let s = get_global_stats (process_all o g frames).stats in
        (s.rx_total + s.malformed_total ≡ length frames)
        × (s.crc_fail_total ≤ s.malformed_total)
        × (s.reorder_total + s.duplicate_total ≤ s.rx_total)
  process_all-accounting g frames e k =
      let cs = history g.config.crc_enabled g.tracker frames in
      let counts =
        ap get_global_stats (stats-process_all g frames ∙ ap (λ m. replay m cs) e)
        ∙ global_ledger cs in
      accounted (get_global_stats (process_all o g frames).stats) cs (length frames) counts
        (history-BalancedCalls g.config.crc_enabled g.tracker frames) k
