-- ===== src/Simulator/Reception/Awaited.antt =====
-- src/gateway/sequence_tracker.cpp and stats_manager.cpp: what the tracker and the counters make of the
-- frame that a source is awaited to send.
use net_node_gateway.Prelude.{
  ℕ, ◌+◌, ◌^◌, ◌<◌, ◌≡◌, ◌⊎◌, inr, refl, sym, ap, ◌∙◌, subst, true, false, List, [], ◌∷◌, ◌++◌,
  arith, if◌then◌else◌, ==_refl,
}
use net_node_gateway.Parser.{ParsedFrame, ok}
use net_node_gateway.Tracker.{
  SourceState, SequenceTracker, source_state, track_source, track, SeqResult,
}
use net_node_gateway.Tracker.Step.{source_state-track}
use net_node_gateway.Stats.Ledger.{
  Call, rx, tally, rx_weight, malformed_weight, gap_weight, reorder_weight, duplicate_weight,
  crc_fail_weight,
}
use net_node_gateway.Gateway.Core.{verdict_calls, frame_calls}
use net_node_gateway.Gateway.Accounting.{tally-append}

-- how often the calls report something wrong
abbrev pub trouble : List Call → ℕ
trouble cs =
    tally malformed_weight cs
    + tally crc_fail_weight cs
    + tally gap_weight cs
    + tally reorder_weight cs
    + tally duplicate_weight cs

abbrev pub Clean : List Call → ℕ → Type 0
Clean cs n = (tally rx_weight cs ≡ n) × (trouble cs ≡ 0)

pub Clean-append :
    (cs ds : List Call) (n m k : ℕ) → n + m ≡ k → Clean cs n → Clean ds m → Clean (cs ++ ds) k
Clean-append cs ds n m k e (a, b) (c, d) = (
  omega (arith, tally-append rx_weight cs ds),
  omega (
    arith,
    tally-append malformed_weight cs ds,
    tally-append crc_fail_weight cs ds,
    tally-append gap_weight cs ds,
    tally-append reorder_weight cs ds,
    tally-append duplicate_weight cs ds,
  ),
)

-- The tracker has not seen the source, or waits for this number.
abbrev pub Awaits : SourceState → ℕ → Type 0
Awaits s seq = (s.initialized ≡ false) ⊎ ((s.initialized ≡ true) × (s.next_expected ≡ seq))

awaited :
    (src_id seq : ℕ) (s : SourceState)
    → seq + 1 < 2 ^ 32
    → Awaits s seq
    → let (ev, s') = track_source src_id seq s in
      ((ev.result ≡ SeqResult.first) ⊎ (ev.result ≡ SeqResult.ok))
      × (s'.initialized ≡ true)
      × (s'.next_expected ≡ seq + 1)
unfolding track_source
awaited src_id seq s h a = ground arith

quiet :
    (src_id gap_size : ℕ) (r : SeqResult)
    → (r ≡ SeqResult.first) ⊎ (r ≡ SeqResult.ok)
    → verdict_calls src_id gap_size r ≡ []
quiet src_id gap_size SeqResult.first e = refl
quiet src_id gap_size SeqResult.ok e = refl
quiet src_id gap_size SeqResult.gap e = absurd (ground arith)
quiet src_id gap_size SeqResult.reorder e = absurd (ground arith)
quiet src_id gap_size SeqResult.duplicate e = absurd (ground arith)

pub followed :
    (t : SequenceTracker) (src_id seq : ℕ)
    → seq + 1 < 2 ^ 32
    → Awaits (source_state t src_id) seq
    → Awaits (source_state (track t src_id seq).1 src_id) (seq + 1)
followed t src_id seq h w =
    let (result, initialized, next) = awaited src_id seq (source_state t src_id) h w in
    subst (λ s. Awaits s (seq + 1))
      (sym (
        source_state-track t src_id seq src_id
        ∙ ap
            (λ b.
              if b
              then (track_source src_id seq (source_state t src_id)).1
              else source_state t src_id)
            (==_refl src_id)))
      (inr (initialized, next))

pub accepted :
    (t : SequenceTracker) (ts : ℕ) (out : ParsedFrame)
    → out.header.seq + 1 < 2 ^ 32
    → Awaits (source_state t out.header.src_id) out.header.seq
    → Clean (frame_calls t ts (ok, out)) 1
unfolding track
accepted t ts out h w =
    let src_id = out.header.src_id in
    let ev = (track_source src_id out.header.seq (source_state t src_id)).0 in
    let none =
      quiet src_id ev.gap_size ev.result
        (awaited src_id out.header.seq (source_state t src_id) h w).0 in
    subst (λ cs. Clean (rx src_id out.header.seq ts ∷ cs) 1) (sym none) (omega arith, omega arith)
