-- ===== src/Tracker/Run.antt =====
-- src/gateway/sequence_tracker.cpp: a whole stream of frames against its specification, which
-- keeps one number for each source, the one after the highest that has arrived.
use net_node_gateway.Prelude.{
  ℕ, ◌+◌, ◌-◌, ◌^◌, ◌<◌, ◌≡◌, refl, ap₂, true, false, Option, none, some, List, [], ◌∷◌, All, map,
  ltb, ◌==◌, if◌then◌else◌, arith, Bool-cases, inl, inr,
}
use net_node_gateway.Prelude.Map
use net_node_gateway.Tracker.{
  SeqResult, SeqEvent, first, ok, gap, reorder, duplicate, SourceState, SequenceTracker,
  empty_tracker, source_state, track_source, track,
}
use net_node_gateway.Tracker.Step.{source_state-track}

-- What a frame says of its stream. A late frame is one below the highest so far.
pub data Verdict : Type 0 where
  opened in_order late : Verdict
  skipped : ℕ → Verdict

abbrev pub verdict_of : SeqResult → ℕ → Verdict
verdict_of first n = opened
verdict_of ok n = in_order
verdict_of gap n = skipped n
verdict_of reorder n = late
verdict_of duplicate n = late

abbrev pub verdict : SeqEvent → Verdict
verdict ev = verdict_of ev.result ev.gap_size

-- The specification: `none` before the first frame, then the number expected next.
abbrev pub spec_source : Option ℕ → ℕ → Verdict × Option ℕ
spec_source none seq = (opened, some (seq + 1))
spec_source (some n) seq =
    if seq == n
    then (in_order, some (seq + 1))
    else if ltb n seq
    then (skipped (seq - n), some (seq + 1))
    else (late, some n)

abbrev pub Expected : Type 0
Expected = ℕ → Option ℕ

abbrev pub update : Expected → ℕ → Option ℕ → Expected
update m src_id n other = if src_id == other then n else m other

unfoldable pub spec_run : Expected → List (ℕ × ℕ) → List Verdict
spec_run m [] = []
spec_run m ((src_id, seq) ∷ frames) =
    let (v, n) = spec_source (m src_id) seq in v ∷ spec_run (update m src_id n) frames

-- The tracker on a stream of frames, each with its source and number.
unfoldable pub run : SequenceTracker → List (ℕ × ℕ) → List SeqEvent
run t [] = []
run t ((src_id, seq) ∷ frames) = let (ev, t') = track t src_id seq in ev ∷ run t' frames

abbrev SourceAgrees : SourceState → Option ℕ → Type 0
SourceAgrees s none = s.initialized ≡ false
SourceAgrees s (some n) = (s.initialized ≡ true) × (s.next_expected ≡ n)

abbrev pub Agrees : SequenceTracker → Expected → Type 0
Agrees t m = (src_id : ℕ) → SourceAgrees (source_state t src_id) (m src_id)

source_refines :
    (src_id seq : ℕ) (s : SourceState) (m : Option ℕ)
    → seq + 1 < 2 ^ 32
    → SourceAgrees s m
    → let (ev, s') = track_source src_id seq s in
      let (v, m') = spec_source m seq in (verdict ev ≡ v) × SourceAgrees s' m'
unfolding track_source
source_refines src_id seq s none h a = ground arith
source_refines src_id seq s (some n) h a = ground arith

track_refines :
    (t : SequenceTracker) (m : Expected) (src_id seq : ℕ)
    → seq + 1 < 2 ^ 32
    → Agrees t m
    → let (ev, t') = track t src_id seq in
      let (v, n) = spec_source (m src_id) seq in (verdict ev ≡ v) × Agrees t' (update m src_id n)
track_refines t m src_id seq h a = (
  unfold track in here.0,
  λ other.
      rw (source_state-track t src_id seq other)
        (elim (Bool-cases (src_id == other)) [ inl e ↦ rw e here.1 | inr e ↦ rw e (a other) ]),
)
  where
    here :
        let (ev, s') = track_source src_id seq (source_state t src_id) in
        let (v, m') = spec_source (m src_id) seq in (verdict ev ≡ v) × SourceAgrees s' m'
    here = source_refines src_id seq (source_state t src_id) (m src_id) h (a src_id)

run_refines :
    (frames : List (ℕ × ℕ)) (t : SequenceTracker) (m : Expected)
    → All (λ f. f.1 + 1 < 2 ^ 32) frames
    → Agrees t m
    → map verdict (run t frames) ≡ spec_run m frames
unfolding run spec_run
run_refines [] t m h a = refl
run_refines ((src_id, seq) ∷ frames) t m (p, h) a =
    let step = track_refines t m src_id seq p a in ap₂ ◌∷◌ step.0 (run_refines frames _ _ h step.1)

-- On every stream of any number of interleaved sources, started with an empty tracker and with no
-- number equal to 2 ^ 32 - 1, the answers first, ok, gap with its size, and late (reorder or
-- duplicate) are those of the specification.
pub run_refines_spec :
    (frames : List (ℕ × ℕ))
    → All (λ f. f.1 + 1 < 2 ^ 32) frames
    → map verdict (run empty_tracker frames) ≡ spec_run (λ _. none) frames
run_refines_spec frames h =
    run_refines frames empty_tracker (λ _. none) h (λ src_id. unfold Map.find in refl)

-- What a source's answers add up to: each `ok` counts one number, each `gap` its size and one.
abbrev pub advance_of : SeqResult → ℕ → ℕ
advance_of ok n = 1
advance_of gap n = n + 1
advance_of _ n = 0

unfoldable pub run_source : ℕ → List ℕ → SourceState → List SeqEvent × SourceState
run_source src_id [] s = ([], s)
run_source src_id (seq ∷ seqs) s =
    let (ev, s') = track_source src_id seq s in
    let (evs, last) = run_source src_id seqs s' in (ev ∷ evs, last)

abbrev pub advances : List SeqEvent → ℕ
advances [] = 0
advances (ev ∷ evs) = advance_of ev.result ev.gap_size + advances evs

advance-track_source :
    (src_id seq : ℕ) (s : SourceState)
    → s.initialized ≡ true
    → seq + 1 < 2 ^ 32
    → let (ev, s') = track_source src_id seq s in
      (s'.initialized ≡ true)
      × (s'.next_expected ≡ s.next_expected + advance_of ev.result ev.gap_size)
unfolding track_source
advance-track_source src_id seq s i h = ground arith

-- From a known source on, the number expected next moves by one for each frame in order, and for
-- each gap by one more than the size that is reported: the sizes count the numbers left out.
pub next_expected-run_source :
    (src_id : ℕ) (seqs : List ℕ) (s : SourceState)
    → s.initialized ≡ true
    → All (λ seq. seq + 1 < 2 ^ 32) seqs
    → let (evs, last) = run_source src_id seqs s in
      last.next_expected ≡ s.next_expected + advances evs
unfolding run_source
next_expected-run_source src_id [] s i h = omega arith
next_expected-run_source src_id (seq ∷ seqs) s i (p, h) =
    let step = advance-track_source src_id seq s i p in
    omega
      (arith, step.1, next_expected-run_source src_id seqs (track_source src_id seq s).1 step.0 h)
