-- ===== src/Gateway/Drained.antt =====
-- src/gateway/gateway.cpp: the loop of `run` in replay mode.
use net_node_gateway.Prelude.{
  ℕ, zero, suc, ◌≤◌, ◌<◌, ◌≡◌, refl, sym, ap, ◌∙◌, true, false, ◌&&◌, some, List, [], ◌∷◌, ◌++◌,
  map, length, All, arith, Bool-cases, inl, inr, if◌then◌else◌,
}
use net_node_gateway.Parser.{parse_frame}
use net_node_gateway.Stats.Ledger.{replay}
use net_node_gateway.Recorder.{record_frame}
use net_node_gateway.Recorder.Behaviour.{entries}
use net_node_gateway.Replay.{ReplayFrameSource, receive, open_file}
use net_node_gateway.Replay.Drain.{drain, IsRecordable, IsCut, drain-open_file}
use net_node_gateway.Gateway.{Outside, Gateway, no_frame}
use net_node_gateway.Gateway.Core.{Core, core, frame_calls, tracker_after, process_frame-core}
use net_node_gateway.Gateway.Source.{replay_source, run_loop, process_now}

-- `core_after` on cores
abbrev pub core_step : Core → List ℕ → ℕ → Core
core_step c frame ts =
    let parsed = parse_frame frame c.config.crc_enabled no_frame in
    record {
      config = c.config;
      tracker = tracker_after c.tracker parsed;
      stats = replay c.stats (frame_calls c.tracker ts parsed);
      recorder =
          if c.config.record_enabled && c.recorder.file.is_open
          then (record_frame c.recorder ts frame).0
          else c.recorder;
    }

-- The frames one after the other, each with its time of arrival.
abbrev pub core_steps : Core → List (List ℕ × ℕ) → Core
core_steps c [] = c
core_steps c ((frame, ts) ∷ frames) = core_steps (core_step c frame ts) frames

receive-done :
    (s : ReplayFrameSource) (now : ℕ)
    → s.done ≡ true
    → ((receive s now).0.found ≡ false) × ((receive s now).1 ≡ s)
unfolding receive
receive-done s now d = ground arith

abbrev now0 : ℕ → ℕ
now0 i = 0

drain_zero : (s : ReplayFrameSource) → drain 0 now0 s ≡ ([], s)
unfolding drain
drain_zero s = refl

drain_done : (n : ℕ) (s : ReplayFrameSource) → s.done ≡ true → drain (suc n) now0 s ≡ ([], s)
unfolding drain
drain_done n s d = ground arith

drain_end :
    (n : ℕ) (s : ReplayFrameSource)
    → s.done ≡ false
    → (receive s 0).0.found ≡ false
    → drain (suc n) now0 s ≡ ([], (receive s 0).1)
unfolding drain
drain_end n s d e = ground arith

drain_frame :
    (n : ℕ) (s : ReplayFrameSource)
    → s.done ≡ false
    → (receive s 0).0.found ≡ true
    → drain (suc n) now0 s
      ≡ (let after = drain n now0 (receive s 0).1 in ((receive s 0).0.buf ∷ after.0, after.1))
unfolding drain
drain_frame n s d e = ground arith

module _ {ℓ} {W : Type ℓ} (o : Outside W) where
  loop_end :
      (m : ℕ) (g : Gateway W) (s : ReplayFrameSource)
      → (receive s 0).0.found ≡ false
      → (receive s 0).1.done ≡ true
      → run_loop o replay_source (suc m) g s ≡ (g, (receive s 0).1)
  unfolding run_loop
  loop_end m g s e d = ground arith

  loop_frame :
      (m : ℕ) (g : Gateway W) (s : ReplayFrameSource)
      → (receive s 0).0.found ≡ true
      → run_loop o replay_source (suc m) g s
        ≡ run_loop o replay_source m
            (process_now o replay_source g (receive s 0).0.buf)
            (receive s 0).1
  unfolding run_loop
  loop_frame m g s e = ground arith

  -- What the loop does to the core while the source drains.
  Drained : ℕ → Gateway W → List (List ℕ) → ReplayFrameSource → Type 0
  Drained m g frames s =
      (arrived : List (List ℕ × ℕ)) × (map (λ a. a.0) arrived ≡ frames)
      × (core (run_loop o replay_source m g s).0 ≡ core_steps (core g) arrived)

  run_loop-done :
      (m : ℕ) (g : Gateway W) (s : ReplayFrameSource)
      → s.done ≡ true
      → core (run_loop o replay_source m g s).0 ≡ core g
  unfolding run_loop
  run_loop-done zero g s d = refl
  run_loop-done (suc m) g s d =
      let (e, same) = receive-done s 0 d in
      ap (λ p. core p.0) (loop_end m g s e (ap (λ s. s.done) same ∙ d))

  run_loop-drain :
      (n m : ℕ) (g : Gateway W) (s : ReplayFrameSource)
      → n ≤ m
      → (drain n now0 s).1.done ≡ true
      → Drained m g (drain n now0 s).0 s
  unfolding Drained
  run_loop-drain zero m g s h d = (
    [],
    sym (ap (λ p. p.0) (drain_zero s)),
    run_loop-done m g s (sym (ap (λ p. p.1.done) (drain_zero s)) ∙ d),
  )
  run_loop-drain (suc n) zero g s h d = absurd (omega arith)
  run_loop-drain (suc n) (suc m) g s h d = elim (Bool-cases s.done) [
    | inl e ↦ ([], sym (ap (λ p. p.0) (drain_done n s e)), run_loop-done (suc m) g s e)
    | inr e ↦ elim (Bool-cases (receive s 0).0.found) [
      | inl f ↦
          (let (arrived, frames, cores) =
              run_loop-drain n m (process_now o replay_source g (receive s 0).0.buf) (receive s 0).1
                (omega arith) (sym (ap (λ p. p.1.done) (drain_frame n s e f)) ∙ d) in
            (
              (((receive s 0).0.buf, (o.steady_now g.world).0) ∷ arrived),
              ap (◌∷◌ (receive s 0).0.buf) frames ∙ sym (ap (λ p. p.0) (drain_frame n s e f)),
              ap (λ p. core p.0) (loop_frame m g s f)
                  ∙ cores
                  ∙ ap (λ c. core_steps c arrived)
                      (process_frame-core o (record g { world = (o.steady_now g.world).1 })
                        (receive s 0).0.buf (o.steady_now g.world).0),
            ))
      | inr f ↦ (
        [],
        sym (ap (λ p. p.0) (drain_end n s e f)),
        ap (λ p. core p.0) (loop_end m g s f (sym (ap (λ p. p.1.done) (drain_end n s e f)) ∙ d)),
      )
    ]
  ]

  -- A gateway in replay mode on a recording of frames, broken off or not inside one more entry, takes
  -- in exactly the recorded frames in their order, each at some time of arrival: its configuration,
  -- tracker, statistics and recorder are those after these frames, provided that `stop` is not called
  -- before the loop has found `should_stop_` unset once more than there are frames.
  pub run_loop-recording :
      (fs : List (ℕ × List ℕ)) (cut : List ℕ) (m : ℕ) (g : Gateway W) (s : ReplayFrameSource)
      → All IsRecordable fs
      → IsCut cut
      → length fs < m
      → (arrived : List (List ℕ × ℕ)) × (map (λ a. a.0) arrived ≡ map (λ f. f.1) fs)
        × (core (run_loop o replay_source m g (open_file s (some (entries fs ++ cut))).0).0
            ≡ core_steps (core g) arrived)
  unfolding Drained
  run_loop-recording fs cut m g s ok c h =
      let (frames, done, count) = drain-open_file fs cut now0 s ok c in
      let (arrived, e, cores) =
        run_loop-drain (suc (length fs)) m g (open_file s (some (entries fs ++ cut))).0
          (omega arith) done in
      (arrived, e ∙ frames, cores)
