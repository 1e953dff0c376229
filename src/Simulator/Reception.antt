-- ===== src/Simulator/Reception.antt =====
-- src/sensor_sim/measurement_generator.cpp and src/gateway/gateway.cpp together: what a gateway makes
-- of the frames of one generator.
pub mod Awaited
use net_node_gateway.Prelude.{
  ℕ, suc, ◌+◌, ◌%◌, ◌^◌, ◌<◌, ◌≡◌, ◌⊎◌, inl, inr, refl, sym, ap, ◌∙◌, subst, true, false, some,
  List, [], ◌∷◌, ◌++◌, length, map, append-nil, arith, if◌then◌else◌, ==_refl,
}
use net_node_gateway.Prelude.Map
use net_node_gateway.Parser.{ParseError, ParsedFrame, ok, truncated, parse_frame}
use net_node_gateway.Protocol.{deserialize_header}
use net_node_gateway.Parser.Frames.{frame_body, frame_bytes}
use net_node_gateway.Parser.Accepts.{parse_frame-frame_bytes, header_back, length-body}
use net_node_gateway.Tracker.{
  SourceState, SequenceTracker, empty_tracker, source_state, track_source, track, SeqResult,
}
use net_node_gateway.Tracker.Step.{source_state-track}
use net_node_gateway.Stats.{empty_stats, get_global_stats}
use net_node_gateway.Stats.Ledger.{
  Call, rx, malformed, replay, tally, rx_weight, malformed_weight, gap_weight, reorder_weight,
  duplicate_weight, crc_fail_weight, global_ledger,
}
use net_node_gateway.Gateway.{Outside, Gateway, process_all, no_frame}
use net_node_gateway.Gateway.Core.{verdict_calls, frame_calls, tracker_after}
use net_node_gateway.Gateway.Accounting.{history, tally-append, stats-process_all}
use net_node_gateway.Simulator.Measurements.{Frame}
use net_node_gateway.Simulator.Measurements.Numbered.{IsNumberedFrame, IsNumbered}
use net_node_gateway.Simulator.Reception.Awaited.{
  trouble, Clean, Clean-append, Awaits, followed, accepted,
}

parsed_frame : {src_id seq : ℕ} {frame : Frame} → IsNumberedFrame src_id seq frame → ParsedFrame
parsed_frame f = record {
  header = f.header;
  payload_ptr = some (f.payload ++ ([] ++ []));
  crc = 0;
  has_crc = false;
}

parse_numbered :
    (src_id seq : ℕ) (frame : Frame) (f : IsNumberedFrame src_id seq frame)
    → parse_frame frame false no_frame ≡ (ok, parsed_frame f)
unfolding parsed_frame
parse_numbered src_id seq frame f =
    ap (λ b. parse_frame b false no_frame) (f.bytes ∙ sym (append-nil _))
    ∙ parse_frame-frame_bytes f.header f.payload [] f.fits false no_frame

-- One numbered frame that is awaited.
one_frame :
    (t : SequenceTracker) (ts src_id seq : ℕ) (frame : Frame)
    → seq + 1 < 2 ^ 32
    → IsNumberedFrame src_id seq frame
    → Awaits (source_state t src_id) seq
    → let p = parse_frame frame false no_frame in
      Clean (frame_calls t ts p) 1 × Awaits (source_state (tracker_after t p) src_id) (seq + 1)
unfolding parsed_frame
one_frame t ts src_id seq frame h f w =
    let w' : Awaits (source_state t f.header.src_id) f.header.seq =
      subst (λ n. Awaits (source_state t n) f.header.seq) (sym f.source)
        (subst (Awaits (source_state t src_id)) (sym f.number) w) in
    let h' : f.header.seq + 1 < 2 ^ 32 = omega (arith, f.number) in
    let next = followed t f.header.src_id f.header.seq h' w' in
    rw (parse_numbered src_id seq frame f) (
      accepted t ts (parsed_frame f) h' w',
      subst (λ n. Awaits (source_state (track t f.header.src_id f.header.seq).1 n) (seq + 1))
          f.source
          (subst
            (λ n.
              Awaits (source_state (track t f.header.src_id f.header.seq).1 f.header.src_id)
                (n + 1))
            f.number next),
    )

all_frames :
    (frames : List (Frame × ℕ)) (t : SequenceTracker) (src_id seq : ℕ)
    → seq + length frames < 2 ^ 32
    → IsNumbered src_id seq (map (λ f. f.0) frames)
    → Awaits (source_state t src_id) seq
    → Clean (history false t frames) (length frames)
all_frames [] t src_id seq h n w = (omega arith, omega arith)
all_frames ((frame, ts) ∷ frames) t src_id seq h (f, n) w =
    let p = parse_frame frame false no_frame in
    let (clean, w') = one_frame t ts src_id seq frame (omega arith) f w in
    Clean-append (frame_calls t ts p) (history false (tracker_after t p) frames) 1 (length frames)
      (suc (length frames)) (omega arith) clean
      (all_frames frames (tracker_after t p) src_id (seq + 1) (omega arith)
        (subst (λ m. IsNumbered src_id m (map (λ f. f.0) frames)) (omega arith) n) w')

-- With checksums enabled such a frame is four bytes short.
parse_short :
    (src_id seq : ℕ) (frame : Frame)
    → IsNumberedFrame src_id seq frame
    → (parse_frame frame true no_frame).0 ≡ truncated
unfolding parse_frame
parse_short src_id seq frame f =
    let whole : frame ≡ frame_bytes f.header f.payload false ++ [] = f.bytes ∙ sym (append-nil _) in
    ground (
      arith,
      f.fits.version,
      f.fits.known_type,
      f.fits.payload_fits,
      ap deserialize_header whole ∙ header_back f.header f.payload [] f.fits false,
      ap length f.bytes,
      ap length (append-nil (frame_body f.header f.payload)),
      length-body f.header f.payload [] f.fits,
    )

truncated_calls :
    (t : SequenceTracker) (ts : ℕ) (e : ParseError) (out : ParsedFrame)
    → e ≡ truncated
    → frame_calls t ts (e, out) ≡ malformed 0 ∷ []
truncated_calls t ts ParseError.truncated out e = refl
truncated_calls t ts _ out e = absurd cc

refused_frames :
    (frames : List (Frame × ℕ)) (t : SequenceTracker) (src_id seq : ℕ)
    → IsNumbered src_id seq (map (λ f. f.0) frames)
    → let cs = history true t frames in
      (tally rx_weight cs ≡ 0)
      × (tally malformed_weight cs ≡ length frames)
      × (tally crc_fail_weight cs ≡ 0)
refused_frames [] t src_id seq n = (omega arith, omega arith, omega arith)
refused_frames ((frame, ts) ∷ frames) t src_id seq (f, n) =
    let p = parse_frame frame true no_frame in
    let rest = refused_frames frames (tracker_after t p) src_id ((seq + 1) % 2 ^ 32) n in
    let one = truncated_calls t ts p.0 p.1 (parse_short src_id seq frame f) in
    rw one (omega (arith, rest), omega (arith, rest), omega (arith, rest))

module _ {ℓ} {W : Type ℓ} (o : Outside W) where
  -- A gateway with checksums disabled that has seen nothing yet receives the frames of a generator, all
  -- of them and in order, whose numbers stay below 2 ^ 32: it counts each of them as received, and
  -- none as malformed, missing, reordered or repeated.
  pub process_all-IsNumbered :
      (g : Gateway W) (frames : List (Frame × ℕ)) (src_id seq : ℕ)
      → g.config.crc_enabled ≡ false
      → g.tracker ≡ empty_tracker
      → g.stats ≡ empty_stats
      → seq + length frames < 2 ^ 32
      → IsNumbered src_id seq (map (λ f. f.0) frames)
      → get_global_stats (process_all o g frames).stats ≡ record {
        rx_total = length frames;
        malformed_total = 0;
        gap_total = 0;
        reorder_total = 0;
        duplicate_total = 0;
        crc_fail_total = 0;
      }
  unfolding Map.find
  process_all-IsNumbered g frames src_id seq c t m h n =
      let cs = history false empty_tracker frames in
      let (received, clean) = all_frames frames empty_tracker src_id seq h n (inl refl) in
      ap get_global_stats (stats-process_all o g frames)
      ∙ ap (λ b. get_global_stats (replay g.stats (history b g.tracker frames))) c
      ∙ ap (λ u. get_global_stats (replay g.stats (history false u frames))) t
      ∙ ap (λ u. get_global_stats (replay u cs)) m
      ∙ global_ledger cs
      ∙ ground arith

  -- A gateway with checksums enabled, the default, refuses every frame of a generator: the generator
  -- appends no checksum. Each frame is counted as malformed and none as received, for fewer than
  -- 2 ^ 64 frames.
  pub process_all-refuses :
      (g : Gateway W) (frames : List (Frame × ℕ)) (src_id seq : ℕ)
      → g.config.crc_enabled ≡ true
      → g.stats ≡ empty_stats
      → length frames < 2 ^ 64
      → IsNumbered src_id seq (map (λ f. f.0) frames)
      → let s = get_global_stats (process_all o g frames).stats in
        (s.rx_total ≡ 0) × (s.malformed_total ≡ length frames) × (s.crc_fail_total ≡ 0)
  process_all-refuses g frames src_id seq c m h n =
      let cs = history true g.tracker frames in
      let (received, refused, failed) = refused_frames frames g.tracker src_id seq n in
      rw
        (ap get_global_stats (stats-process_all o g frames)
          ∙ ap (λ b. get_global_stats (replay g.stats (history b g.tracker frames))) c
          ∙ ap (λ u. get_global_stats (replay u cs)) m
          ∙ global_ledger cs)
        (omega arith, omega arith, omega arith)
