-- ===== src/Simulator/Faults/Origin.antt =====
-- src/sensor_sim/fault_injector.cpp: which frames leave the injector.
use net_node_gateway.Prelude.{
  mem-onto, is_empty, ℕ, zero, suc, ◌-◌, ◌≤◌, ◌<◌, ◌≡◌, refl, sym, subst, ◌⊎◌, inl, inr, Bool, true,
  false, not, ◌&&◌, List, [], ◌∷◌, length, arith, Bool-cases, if◌then◌else◌, leb,
}
use mathlib.Core.List.{Memᴰ}
use net_node_gateway.Simulator.Machine.{Arithmetic, Random}
use net_node_gateway.Simulator.Measurements.{Frame}
use net_node_gateway.Simulator.Faults.{
  FaultConfig, FaultStats, FaultInjector, Batch, no_faults, flip, insert_at, pct, corrupt_frame,
  corrupt, collect, insert_all, duplicate, lose, reorder_loop, reorder, pass, passes, apply, inc,
}

-- A frame of the list, or one of them with a single byte inverted.
pub data IsFrom (frames : List Frame) (x : Frame) : Type 0 where
  intact : Memᴰ x frames → IsFrom frames x
  inverted :
      (frame : Frame) (i : ℕ)
      → Memᴰ frame frames
      → i < length frame
      → x ≡ flip frame i
      → IsFrom frames x

-- Every frame of the first list stands in the second.
abbrev Within : List Frame → List Frame → Type 0
Within xs ys = (x : Frame) → Memᴰ x xs → Memᴰ x ys

mem-insert_at :
    (i : ℕ) (y : Frame) (frames : List Frame) (x : Frame)
    → Memᴰ x (insert_at i y frames)
    → (x ≡ y) ⊎ Memᴰ x frames
unfolding insert_at
mem-insert_at zero y frames x (Memᴰ.head e) = inl e
mem-insert_at zero y frames x (Memᴰ.tail m) = inr m
mem-insert_at (suc i) y [] x (Memᴰ.head e) = inl e
mem-insert_at (suc i) y [] x (Memᴰ.tail m) = inr m
mem-insert_at (suc i) y (frame ∷ frames) x (Memᴰ.head e) = inr (Memᴰ.head e)
mem-insert_at (suc i) y (frame ∷ frames) x (Memᴰ.tail m) = elim (mem-insert_at i y frames x m) [
  | inl e ↦ inl e
  | inr n ↦ inr (Memᴰ.tail n)
]

keeps : {frames : List Frame} (frame x : Frame) → IsFrom frames x → IsFrom (frame ∷ frames) x
keeps frame x (intact m) = intact (Memᴰ.tail m)
keeps frame x (inverted y i m h e) = inverted y i (Memᴰ.tail m) h e

not-is_empty : (frame : Frame) → is_empty frame ≡ false → length frame - 1 < length frame
not-is_empty [] e = absurd cc
not-is_empty (b ∷ bs) e = omega arith

mem-either :
    (hit : Bool) (x : Frame) (xs ys : List Frame)
    → Memᴰ x (if hit then xs else ys)
    → Memᴰ x xs ⊎ Memᴰ x ys
mem-either true x xs ys m = inl m
mem-either false x xs ys m = inr m

mem-either_batch :
    {R : Type 0} (hit : Bool) (x : Frame) (b c : Batch R)
    → Memᴰ x (if hit then b else c).frames
    → Memᴰ x b.frames ⊎ Memᴰ x c.frames
mem-either_batch true x b c m = inl m
mem-either_batch false x b c m = inr m

module _ {D R N : Type 0} (a : Arithmetic D) (r : Random D R N) where
  corrupt_frame-IsFrom :
      (limit : D) (frame : Frame) (rng : R) (frames : List Frame)
      → IsFrom (frame ∷ frames) (corrupt_frame a r limit frame rng).0
  unfolding corrupt_frame
  corrupt_frame-IsFrom limit frame rng frames =
      let (x, rng') = pct a r rng in
      let (i, rng'') = r.uniform_int 0 (length frame - 1) rng' in
      let within : i ≤ length frame - 1 =
        r.uniform_int-upper 0 (length frame - 1) rng' (omega arith) in
      elim (Bool-cases (a.lt x limit && not (is_empty frame))) [
        | inl e ↦ rw e (
            inverted frame i (Memᴰ.head refl)
              (omega (arith, within, not-is_empty frame (ground arith))) refl)
        | inr e ↦ rw e (intact (Memᴰ.head refl))
      ]

  corrupt-IsFrom :
      (limit : D) (frames : List Frame) (rng : R) (st : FaultStats) (x : Frame)
      → Memᴰ x (corrupt a r limit frames rng st).frames
      → IsFrom frames x
  unfolding corrupt
  corrupt-IsFrom limit [] rng st x m = intact m
  corrupt-IsFrom limit (frame ∷ frames) rng st x (Memᴰ.head e) =
      subst (IsFrom (frame ∷ frames)) (sym e) (corrupt_frame-IsFrom limit frame rng frames)
  corrupt-IsFrom limit (frame ∷ frames) rng st x (Memᴰ.tail m) =
      let (frame', (rng', hit)) = corrupt_frame a r limit frame rng in
      let st' = if hit then record st { corrupted = inc st.corrupted } else st in
      keeps frame x (corrupt-IsFrom limit frames rng' st' x m)

  collect-Within :
      (limit : D) (frames : List Frame) (rng : R) (st : FaultStats)
      → Within (collect a r limit frames rng st).frames frames
  unfolding collect
  collect-Within limit [] rng st x m = m
  collect-Within limit (frame ∷ frames) rng st x m =
      let (u, rng') = pct a r rng in
      let hit = a.lt u limit in
      let st' = if hit then record st { duplicated = inc st.duplicated } else st in
      let rest = collect a r limit frames rng' st' in
      let within = collect-Within limit frames rng' st' x in
      elim (mem-either hit x (frame ∷ rest.frames) rest.frames m) [
        | inl n ↦ mem-onto frame x rest.frames frames within n
        | inr n ↦ Memᴰ.tail (within n)
      ]

  insert_all-Within :
      (extras frames : List Frame) (rng : R) (all : List Frame)
      → Within extras all
      → Within frames all
      → Within (insert_all a r extras frames rng).0 all
  unfolding insert_all
  insert_all-Within [] frames rng all es fs = fs
  insert_all-Within (dup ∷ extras) frames rng all es fs =
      let (pos, rng') = r.uniform_int 0 (length frames) rng in
      insert_all-Within extras (insert_at pos dup frames) rng' all (λ x m. es x (Memᴰ.tail m))
        (λ x m. elim (mem-insert_at pos dup frames x m) [
          | inl e ↦ es x (Memᴰ.head e)
          | inr n ↦ fs x n
        ])

  lose-Within :
      (limit : D) (frames : List Frame) (rng : R) (st : FaultStats)
      → Within (lose a r limit frames rng st).frames frames
  unfolding lose
  lose-Within limit [] rng st x m = m
  lose-Within limit (frame ∷ frames) rng st x m =
      let (u, rng') = pct a r rng in
      let hit = a.lt u limit in
      let st' = if hit then record st { dropped = inc st.dropped } else st in
      let rest = lose a r limit frames rng' st' in
      let within = lose-Within limit frames rng' st' x in
      elim (mem-either hit x rest.frames (frame ∷ rest.frames) m) [
        | inl n ↦ Memᴰ.tail (within n)
        | inr n ↦ mem-onto frame x rest.frames frames within n
      ]

  reorder_loop-Within :
      (fuel : ℕ) (limit : D) (frames : List Frame) (rng : R) (st : FaultStats)
      → Within (reorder_loop a r fuel limit frames rng st).frames frames
  unfolding reorder_loop
  reorder_loop-Within zero limit frames rng st x m = m
  reorder_loop-Within (suc fuel) limit [] rng st x m = m
  reorder_loop-Within (suc fuel) limit (y ∷ []) rng st x m = m
  reorder_loop-Within (suc fuel) limit (y ∷ z ∷ frames) rng st x m =
      let (u, rng') = pct a r rng in
      let st' = record st { reordered = inc st.reordered } in
      let swapped = reorder_loop a r fuel limit frames rng' st' in
      let kept = reorder_loop a r fuel limit (z ∷ frames) rng' st in
      elim (mem-either_batch (a.lt u limit) x (record swapped { frames = z ∷ y ∷ swapped.frames })
        (record kept { frames = y ∷ kept.frames }) m) [
          | inl (Memᴰ.head e) ↦ Memᴰ.tail (Memᴰ.head e)
          | inl (Memᴰ.tail (Memᴰ.head e)) ↦ Memᴰ.head e
          | inl (Memᴰ.tail (Memᴰ.tail n)) ↦
              Memᴰ.tail (Memᴰ.tail (reorder_loop-Within fuel limit frames rng' st' x n))
          | inr n ↦
              mem-onto y x kept.frames (z ∷ frames)
                (reorder_loop-Within fuel limit (z ∷ frames) rng' st x) n
        ]

  pass-IsFrom :
      (frames : List Frame) (f : D → List Frame → R → FaultStats → Batch R) (limit : D)
      (b : Batch R)
      → ((x : Frame) → Memᴰ x b.frames → IsFrom frames x)
      → Within (f limit b.frames b.rng b.stats).frames b.frames
      → (x : Frame) → Memᴰ x (pass a r f limit b).frames
      → IsFrom frames x
  pass-IsFrom frames f limit b s t =
      elim (a.lt (a.literal 0 0) limit)
        as (λ on.
          (x : Frame)
          → Memᴰ x (if on then f limit b.frames b.rng b.stats else b).frames
          → IsFrom frames x) [ true ↦ (λ x m. s x (t x m)) | false ↦ s ]

  passes-IsFrom :
      (config : FaultConfig D) (b : Batch R) (x : Frame)
      → Memᴰ x (passes a r config b).frames
      → IsFrom b.frames x
  unfolding reorder duplicate
  passes-IsFrom config b =
      let c = pass a r (corrupt a r) config.corrupt_pct b in
      let damaged : (x : Frame) → Memᴰ x c.frames → IsFrom b.frames x =
        elim (a.lt (a.literal 0 0) config.corrupt_pct)
          as (λ on.
            (x : Frame)
            → Memᴰ x
                (if on then corrupt a r config.corrupt_pct b.frames b.rng b.stats else b).frames
            → IsFrom b.frames x) [
              | true ↦ corrupt-IsFrom config.corrupt_pct b.frames b.rng b.stats
              | false ↦ (λ x m. intact m)
            ] in
      let extras = collect a r config.duplicate_pct c.frames c.rng c.stats in
      let e = pass a r (duplicate a r) config.duplicate_pct c in
      let doubled = pass-IsFrom b.frames (duplicate a r) config.duplicate_pct c damaged (
        insert_all-Within extras.frames c.frames extras.rng c.frames
          (collect-Within config.duplicate_pct c.frames c.rng c.stats) (λ x m. m)) in
      let l = pass a r (lose a r) config.loss_pct e in
      let lossy =
        pass-IsFrom b.frames (lose a r) config.loss_pct e doubled
          (lose-Within config.loss_pct e.frames e.rng e.stats) in
      elim (leb 2 (length l.frames))
        as (λ two.
          (x : Frame)
          → Memᴰ x (if two then pass a r (reorder a r) config.reorder_pct l else l).frames
          → IsFrom b.frames x) [
            | true ↦
                pass-IsFrom b.frames (reorder a r) config.reorder_pct l lossy
                  (reorder_loop-Within (length l.frames) config.reorder_pct l.frames l.rng l.stats)
            | false ↦ lossy
          ]

  -- Whatever the percentages and the random engine, every frame that leaves the injector is one of
  -- the frames that came in, or one of them with a single one of its bytes inverted.
  pub apply-IsFrom :
      (i : FaultInjector D R) (frames : List Frame) (x : Frame)
      → Memᴰ x (apply a r i frames).0
      → IsFrom frames x
  unfolding apply
  apply-IsFrom i [] x m = intact m
  apply-IsFrom i (frame ∷ frames) x m =
      passes-IsFrom i.config (record { frames = frame ∷ frames; rng = i.rng; stats = no_faults }) x
        m
