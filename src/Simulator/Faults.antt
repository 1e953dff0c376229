-- ===== src/Simulator/Faults.antt =====
-- src/sensor_sim/fault_injector.cpp and fault_injector.h: damage to a batch of frames.
pub mod Conserved
pub mod Origin
use net_node_gateway.Prelude.{
  is_empty, ℕ, zero, suc, ◌+◌, ◌-◌, ◌%◌, ◌^◌, bit_xor, Bool, true, false, not, ◌&&◌, List, [], ◌∷◌,
  length, get_or, set, leb, ltb, if◌then◌else◌,
}
use net_node_gateway.Simulator.Machine.{Arithmetic, Random}
use net_node_gateway.Simulator.Measurements.{Frame}

pub record FaultConfig (D : Type 0) : Type 0 where
  pub loss_pct : D
  pub reorder_pct : D
  pub duplicate_pct : D
  pub corrupt_pct : D

pub record FaultStats : Type 0 where
  pub dropped : ℕ
  pub reordered : ℕ
  pub duplicated : ℕ
  pub corrupted : ℕ

abbrev pub no_faults : FaultStats
no_faults = record { dropped = 0; reordered = 0; duplicated = 0; corrupted = 0 }

pub record FaultInjector (D R : Type 0) : Type 0 where
  pub config : FaultConfig D
  pub rng : R
  pub last_stats : FaultStats

abbrev pub new_injector : {D R : Type 0} → FaultConfig D → R → FaultInjector D R
new_injector config rng = record { config = config; rng = rng; last_stats = no_faults }

-- `++` on a `uint32_t`
abbrev pub inc : ℕ → ℕ
inc n = (n + 1) % 2 ^ 32

-- `frame[i] ^= 0xFF`
unfoldable pub flip : Frame → ℕ → Frame
flip frame i = set frame i (bit_xor (get_or frame i 0) 0xFF)

-- `insert` before the position
unfoldable pub insert_at : ℕ → Frame → List Frame → List Frame
insert_at zero x frames = x ∷ frames
insert_at (suc i) x [] = x ∷ []
insert_at (suc i) x (frame ∷ frames) = frame ∷ insert_at i x frames

-- The batch, the engine and the counters, as each pass leaves them.
pub record Batch (R : Type 0) : Type 0 where
  pub frames : List Frame
  pub rng : R
  pub stats : FaultStats

module _ {D R N : Type 0} (a : Arithmetic D) (r : Random D R N) where
  abbrev pub pct : R → D × R
  pct rng = r.uniform_real (a.literal 0 0) (a.literal 100 0) rng

  -- One round of the first loop.
  unfoldable pub corrupt_frame : D → Frame → R → Frame × (R × Bool)
  unfolding flip
  corrupt_frame limit frame rng =
      let (x, rng') = pct rng in
      let (i, rng'') = r.uniform_int 0 (length frame - 1) rng' in
      if a.lt x limit && not (is_empty frame)
      then (flip frame i, (rng'', true))
      else (frame, (rng', false))

  unfoldable pub corrupt : D → List Frame → R → FaultStats → Batch R
  corrupt limit [] rng st = record { frames = []; rng = rng; stats = st }
  corrupt limit (frame ∷ frames) rng st =
      let (frame', (rng', hit)) = corrupt_frame limit frame rng in
      let rest =
        corrupt limit frames rng'
          (if hit then record st { corrupted = inc st.corrupted } else st) in
      record rest { frames = frame' ∷ rest.frames }

  -- The loop that collects `extras`, which are the frames of its result.
  unfoldable pub collect : D → List Frame → R → FaultStats → Batch R
  collect limit [] rng st = record { frames = []; rng = rng; stats = st }
  collect limit (frame ∷ frames) rng st =
      let (x, rng') = pct rng in
      let hit = a.lt x limit in
      let rest =
        collect limit frames rng'
          (if hit then record st { duplicated = inc st.duplicated } else st) in
      record rest { frames = if hit then frame ∷ rest.frames else rest.frames }

  unfoldable pub insert_all : List Frame → List Frame → R → List Frame × R
  unfolding insert_at
  insert_all [] frames rng = (frames, rng)
  insert_all (dup ∷ extras) frames rng =
      let (pos, rng') = r.uniform_int 0 (length frames) rng in
      insert_all extras (insert_at pos dup frames) rng'

  unfoldable pub duplicate : D → List Frame → R → FaultStats → Batch R
  duplicate limit frames rng st =
      let extras = collect limit frames rng st in
      let (frames', rng') = insert_all extras.frames frames extras.rng in
      record { frames = frames'; rng = rng'; stats = extras.stats }

  unfoldable pub lose : D → List Frame → R → FaultStats → Batch R
  lose limit [] rng st = record { frames = []; rng = rng; stats = st }
  lose limit (frame ∷ frames) rng st =
      let (x, rng') = pct rng in
      let hit = a.lt x limit in
      let rest =
        lose limit frames rng' (if hit then record st { dropped = inc st.dropped } else st) in
      record rest { frames = if hit then rest.frames else frame ∷ rest.frames }

  abbrev pub prepend : Frame → Batch R → Batch R
  prepend frame b = record b { frames = frame ∷ b.frames }

  -- The fuel is the number of frames: each round moves past one at least.
  unfoldable pub reorder_loop : ℕ → D → List Frame → R → FaultStats → Batch R
  reorder_loop zero limit frames rng st = record { frames = frames; rng = rng; stats = st }
  reorder_loop (suc fuel) limit [] rng st = record { frames = []; rng = rng; stats = st }
  reorder_loop (suc fuel) limit (x ∷ []) rng st = record { frames = x ∷ []; rng = rng; stats = st }
  reorder_loop (suc fuel) limit (x ∷ y ∷ frames) rng st =
      let (u, rng') = pct rng in
      let swapped =
        reorder_loop fuel limit frames rng' (record st { reordered = inc st.reordered }) in
      let kept = reorder_loop fuel limit (y ∷ frames) rng' st in
      if a.lt u limit then prepend y (prepend x swapped) else prepend x kept

  unfoldable pub reorder : D → List Frame → R → FaultStats → Batch R
  unfolding reorder_loop
  reorder limit frames rng st = reorder_loop (length frames) limit frames rng st

  -- A pass that its percentage switches on.
  abbrev pub pass : (D → List Frame → R → FaultStats → Batch R) → D → Batch R → Batch R
  pass f limit b = if a.lt (a.literal 0 0) limit then f limit b.frames b.rng b.stats else b

  abbrev pub passes : FaultConfig D → Batch R → Batch R
  passes config b =
      let lossy =
        pass lose config.loss_pct
          (pass duplicate config.duplicate_pct (pass corrupt config.corrupt_pct b)) in
      if leb 2 (length lossy.frames) then pass reorder config.reorder_pct lossy else lossy

  unfoldable pub apply : FaultInjector D R → List Frame → List Frame × FaultInjector D R
  unfolding corrupt duplicate lose reorder
  apply i [] = ([], record i { last_stats = no_faults })
  apply i (frame ∷ frames) =
      let b =
        passes i.config (record { frames = frame ∷ frames; rng = i.rng; stats = no_faults }) in
      (b.frames, record i { rng = b.rng; last_stats = b.stats })
