-- ===== src/Simulator/Faults/Conserved.antt =====
-- src/sensor_sim/fault_injector.cpp: how many frames leave the injector.
use net_node_gateway.Prelude.{
  ℕ, zero, suc, ◌+◌, ◌*◌, ◌^◌, ◌≤◌, ◌<◌, ◌≡◌, refl, true, false, List, [], ◌∷◌, length, arith,
  Bool-cases, inl, inr, leb, if◌then◌else◌,
}
use net_node_gateway.Simulator.Machine.{Arithmetic, Random}
use net_node_gateway.Simulator.Measurements.{Frame}
use net_node_gateway.Simulator.Faults.{
  FaultConfig, FaultStats, FaultInjector, Batch, no_faults, insert_at, pct, corrupt_frame, corrupt,
  collect, insert_all, duplicate, lose, reorder_loop, reorder, pass, passes, apply, inc,
}

length-insert_at :
    (i : ℕ) (x : Frame) (frames : List Frame) → length (insert_at i x frames) ≡ suc (length frames)
unfolding insert_at
length-insert_at zero x frames = refl
length-insert_at (suc i) x [] = refl
length-insert_at (suc i) x (frame ∷ frames) = omega (arith, length-insert_at i x frames)

module _ {D R N : Type 0} (a : Arithmetic D) (r : Random D R N) where
  corrupt-length :
      (limit : D) (frames : List Frame) (rng : R) (st : FaultStats)
      → let b = corrupt a r limit frames rng st in
        (length b.frames ≡ length frames)
        × (b.stats.dropped ≡ st.dropped)
        × (b.stats.duplicated ≡ st.duplicated)
  unfolding corrupt
  corrupt-length limit [] rng st = (refl, refl, refl)
  corrupt-length limit (frame ∷ frames) rng st =
      let (frame', (rng', hit)) = corrupt_frame a r limit frame rng in
      let st' = if hit then record st { corrupted = inc st.corrupted } else st in
      ground (arith, corrupt-length limit frames rng' st')

  collect-length :
      (limit : D) (frames : List Frame) (rng : R) (st : FaultStats)
      → st.duplicated + length frames < 2 ^ 32
      → let b = collect a r limit frames rng st in
        (length b.frames + st.duplicated ≡ b.stats.duplicated)
        × (length b.frames ≤ length frames)
        × (b.stats.dropped ≡ st.dropped)
  unfolding collect
  collect-length limit [] rng st h = (omega arith, omega arith, refl)
  collect-length limit (frame ∷ frames) rng st h =
      let (x, rng') = pct a r rng in
      elim (Bool-cases (a.lt x limit)) [
        | inl e ↦
            (let ih =
                collect-length limit frames rng' (record st { duplicated = inc st.duplicated })
                  (omega arith) in
              ground (arith, ih))
        | inr e ↦ (let ih = collect-length limit frames rng' st (omega arith) in ground (arith, ih))
      ]

  insert_all-length :
      (extras frames : List Frame) (rng : R)
      → length (insert_all a r extras frames rng).0 ≡ length extras + length frames
  unfolding insert_all
  insert_all-length [] frames rng = omega arith
  insert_all-length (dup ∷ extras) frames rng =
      let (pos, rng') = r.uniform_int 0 (length frames) rng in
      omega (
        arith,
        insert_all-length extras (insert_at pos dup frames) rng',
        length-insert_at pos dup frames,
      )

  lose-length :
      (limit : D) (frames : List Frame) (rng : R) (st : FaultStats)
      → st.dropped + length frames < 2 ^ 32
      → let b = lose a r limit frames rng st in
        (length b.frames + b.stats.dropped ≡ length frames + st.dropped)
        × (b.stats.duplicated ≡ st.duplicated)
  unfolding lose
  lose-length limit [] rng st h = (omega arith, refl)
  lose-length limit (frame ∷ frames) rng st h =
      let (x, rng') = pct a r rng in
      elim (Bool-cases (a.lt x limit)) [
        | inl e ↦
            (let ih =
                lose-length limit frames rng' (record st { dropped = inc st.dropped })
                  (omega arith) in
              ground (arith, ih))
        | inr e ↦ (let ih = lose-length limit frames rng' st (omega arith) in ground (arith, ih))
      ]

  reorder_loop-length :
      (fuel : ℕ) (limit : D) (frames : List Frame) (rng : R) (st : FaultStats)
      → let b = reorder_loop a r fuel limit frames rng st in
        (length b.frames ≡ length frames)
        × (b.stats.dropped ≡ st.dropped)
        × (b.stats.duplicated ≡ st.duplicated)
  unfolding reorder_loop
  reorder_loop-length zero limit frames rng st = (refl, refl, refl)
  reorder_loop-length (suc fuel) limit [] rng st = (refl, refl, refl)
  reorder_loop-length (suc fuel) limit (x ∷ []) rng st = (refl, refl, refl)
  reorder_loop-length (suc fuel) limit (x ∷ y ∷ frames) rng st =
      let (u, rng') = pct a r rng in
      ground (
        arith,
        reorder_loop-length fuel limit frames rng' (record st { reordered = inc st.reordered }),
        reorder_loop-length fuel limit (y ∷ frames) rng' st,
      )

  -- A pass that its percentage switches off leaves the batch as it was.
  pass_lem :
      (P : Batch R → Type 0) (f : D → List Frame → R → FaultStats → Batch R) (limit : D)
      (b : Batch R)
      → P b
      → P (f limit b.frames b.rng b.stats)
      → P (pass a r f limit b)
  pass_lem P f limit b s t =
      elim (a.lt (a.literal 0 0) limit)
        as (λ on. P (if on then f limit b.frames b.rng b.stats else b)) [ true ↦ t | false ↦ s ]

  abbrev Extended : ℕ → Batch R → Type 0
  Extended n b =
      (length b.frames ≡ n + b.stats.duplicated) × (b.stats.dropped ≡ 0) × (b.stats.duplicated ≤ n)

  -- what a batch says of n frames that came in
  abbrev Balances : ℕ → Batch R → Type 0
  Balances n b =
      (length b.frames + b.stats.dropped ≡ n + b.stats.duplicated) × (b.stats.duplicated ≤ n)

  duplicate-Extended :
      (n : ℕ) (limit : D) (b : Batch R)
      → n < 2 ^ 32
      → length b.frames ≡ n
      → b.stats.dropped ≡ 0
      → b.stats.duplicated ≡ 0
      → Extended n (duplicate a r limit b.frames b.rng b.stats)
  unfolding duplicate
  duplicate-Extended n limit b h l d u =
      let extras = collect a r limit b.frames b.rng b.stats in
      let counted = collect-length limit b.frames b.rng b.stats (omega arith) in
      let placed = insert_all-length extras.frames b.frames extras.rng in
      ground (arith, counted, placed)

  passes-Balances :
      (config : FaultConfig D) (b : Batch R)
      → 2 * length b.frames < 2 ^ 32
      → b.stats.dropped ≡ 0
      → b.stats.duplicated ≡ 0
      → Balances (length b.frames) (passes a r config b)
  unfolding reorder
  passes-Balances config b h d u =
      let n = length b.frames in
      let c = pass a r (corrupt a r) config.corrupt_pct b in
      let kept : (length c.frames ≡ n) × (c.stats.dropped ≡ 0) × (c.stats.duplicated ≡ 0) =
        pass_lem (λ b'. (length b'.frames ≡ n) × (b'.stats.dropped ≡ 0) × (b'.stats.duplicated ≡ 0))
          (corrupt a r) config.corrupt_pct b (refl, d, u)
          (ground (arith, corrupt-length config.corrupt_pct b.frames b.rng b.stats)) in
      let e = pass a r (duplicate a r) config.duplicate_pct c in
      let extended : Extended n e =
        pass_lem (Extended n) (duplicate a r) config.duplicate_pct c (ground (arith, kept))
          (duplicate-Extended n config.duplicate_pct c (omega arith) kept.0 kept.1 kept.2) in
      let l = pass a r (lose a r) config.loss_pct e in
      let lossy : Balances n l =
        pass_lem (Balances n) (lose a r) config.loss_pct e (ground (arith, extended)) (
          ground (
            arith,
            lose-length config.loss_pct e.frames e.rng e.stats (omega (arith, extended)),
            extended,
          )) in
      let reordered : Balances n (pass a r (reorder a r) config.reorder_pct l) =
        pass_lem (Balances n) (reorder a r) config.reorder_pct l lossy (
          ground (
            arith,
            lossy,
            reorder_loop-length (length l.frames) config.reorder_pct l.frames l.rng l.stats,
          )) in
      elim (leb 2 (length l.frames))
        as (λ two. Balances n (if two then pass a r (reorder a r) config.reorder_pct l else l)) [
          | true ↦ reordered
          | false ↦ lossy
        ]

  -- Whatever the percentages and the random engine, as many frames leave the injector and are dropped
  -- by it, as its statistics count them, as came in and were duplicated, and at most each frame is
  -- duplicated once. Fewer than 2 ^ 31 frames come in, so that no counter wraps.
  pub apply-Balances :
      (i : FaultInjector D R) (frames : List Frame)
      → 2 * length frames < 2 ^ 32
      → let (out, i') = apply a r i frames in
        (length out + i'.last_stats.dropped ≡ length frames + i'.last_stats.duplicated)
        × (i'.last_stats.duplicated ≤ length frames)
  unfolding apply
  apply-Balances i [] h = (refl, omega arith)
  apply-Balances i (frame ∷ frames) h =
      passes-Balances i.config (record { frames = frame ∷ frames; rng = i.rng; stats = no_faults })
        h refl refl
