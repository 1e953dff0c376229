-- ===== src/Simulator/World/Azimuth.antt =====
-- src/sensor_sim/world_model.cpp: which objects a tick leaves, and where.
use net_node_gateway.Prelude.{
  mem-onto, ℕ, zero, suc, ◌≤◌, ◌<◌, ◌≡◌, refl, sym, ap, ◌∙◌, subst, ◌↔◌, inl, inr, true, false,
  some, List, [], ◌∷◌, All, arith, Bool-cases,
}
use mathlib.Core.List.{Memᴰ}
use net_node_gateway.Simulator.{WorldObject}
use net_node_gateway.Simulator.Machine.{Arithmetic}
use net_node_gateway.Simulator.World.{
  WorldModel, min_range_m, zero_deg, full_turn, raise, reduce, settle, radial, turned, with_azimuth,
  move, move_all, is_gone, remove_gone, tick,
}

module _ {D : Type 0} (a : Arithmetic D) where
  -- What adding and subtracting 360.0 does to the numbers that are `Near`, those of moderate size: each
  -- stays near and comes nearer to the first turn, and subtracting does not pass zero.
  pub record IsWinding (Near : D → Type 0) (turns : D → ℕ) : Type 0 where
    pub climbs :
        (x : D)
        → Near x
        → a.lt x (zero_deg a) ≡ true
        → Near (a.add x (full_turn a)) × (turns (a.add x (full_turn a)) < turns x)
    pub falls :
        (x : D)
        → Near x
        → a.le (full_turn a) x ≡ true
        → Near (a.sub x (full_turn a)) × (turns (a.sub x (full_turn a)) < turns x)
    pub stays :
        (x : D)
        → Near x
        → a.le (full_turn a) x ≡ true
        → a.lt (a.sub x (full_turn a)) (zero_deg a) ≡ false

  abbrev pub InTurn : D → Type 0
  InTurn x = (a.lt x (zero_deg a) ≡ false) × (a.le (full_turn a) x ≡ false)

  module _ {Near : D → Type 0} {turns : D → ℕ} (w : IsWinding Near turns) where
    raise-stops :
        (fuel : ℕ) (x : D)
        → Near x
        → turns x ≤ fuel
        → (y : D) × (raise a fuel x ≡ some y)
          × Near y
          × (a.lt y (zero_deg a) ≡ false)
          × (turns y ≤ turns x)
    unfolding raise
    raise-stops zero x n h = elim (Bool-cases (a.lt x (zero_deg a))) [
      | inl e ↦ absurd (omega (arith, (w.climbs x n e).1))
      | inr e ↦ (x, rw e refl, n, e, omega arith)
    ]
    raise-stops (suc fuel) x n h = elim (Bool-cases (a.lt x (zero_deg a))) [
      | inl e ↦
          (let (near, less) = w.climbs x n e in
            let (y, q, m, low, few) =
              raise-stops fuel (a.add x (full_turn a)) near (omega (arith, less)) in
            (y, rw e q, m, low, omega (arith, less, few)))
      | inr e ↦ (x, rw e refl, n, e, omega arith)
    ]

    reduce-stops :
        (fuel : ℕ) (x : D)
        → Near x
        → turns x ≤ fuel
        → a.lt x (zero_deg a) ≡ false
        → (y : D) × (reduce a fuel x ≡ some y) × InTurn y
    unfolding reduce
    reduce-stops zero x n h low = elim (Bool-cases (a.le (full_turn a) x)) [
      | inl e ↦ absurd (omega (arith, (w.falls x n e).1))
      | inr e ↦ (x, rw e refl, (low, e))
    ]
    reduce-stops (suc fuel) x n h low = elim (Bool-cases (a.le (full_turn a) x)) [
      | inl e ↦
          (let (near, less) = w.falls x n e in
            let (y, q, s) =
              reduce-stops fuel (a.sub x (full_turn a)) near (omega (arith, less))
                (w.stays x n e) in
            (y, rw e q, s))
      | inr e ↦ (x, rw e refl, (low, e))
    ]

    settle-stops :
        (fuel : ℕ) (x : D)
        → Near x
        → turns x ≤ fuel
        → (y : D) × (settle a fuel x ≡ some y) × InTurn y
    unfolding settle
    settle-stops fuel x n h =
        let (y, e, near, low, few) = raise-stops fuel x n h in
        let (z, q, s) = reduce-stops fuel y near (omega (arith, few)) low in
        (z, rw (e, settle) q, s)

  -- an object that neither is too close nor has expired
  abbrev pub Remains : D → WorldObject D → Type 0
  Remains now obj =
      (a.lt obj.range_m (min_range_m a) ≡ false)
      × (a.lt (a.add obj.spawn_time_s obj.lifetime_s) now ≡ false)

  is_gone_iff : (now : D) (obj : WorldObject D) → (is_gone a now obj ≡ false) ↔ Remains now obj
  unfolding is_gone
  is_gone_iff now obj = ground arith

  not-gone :
      (now : D) (obj x : WorldObject D) (objects : List (WorldObject D))
      → is_gone a now obj ≡ true
      → Memᴰ x (obj ∷ objects)
      → Remains now x
      → Memᴰ x objects
  not-gone now obj x objects e (Memᴰ.head q) s =
      let kept = (is_gone_iff now x).1 s in absurd (cc (ap (is_gone a now) q))
  not-gone now obj x objects e (Memᴰ.tail m) s = m

  still-there :
      (now : D) (obj x : WorldObject D) (xs objects : List (WorldObject D))
      → is_gone a now obj ≡ false
      → (Memᴰ x xs → Memᴰ x objects × Remains now x)
      → Memᴰ x (obj ∷ xs)
      → Memᴰ x (obj ∷ objects) × Remains now x
  still-there now obj x xs objects e f (Memᴰ.head q) =
      (Memᴰ.head q, (is_gone_iff now x).0 (ap (is_gone a now) q ∙ e))
  still-there now obj x xs objects e f (Memᴰ.tail m) = let (n, s) = f m in (Memᴰ.tail n, s)

  mem-remove_gone :
      (now : D) (objects : List (WorldObject D)) (x : WorldObject D)
      → Memᴰ x (remove_gone a now objects) ↔ (Memᴰ x objects × Remains now x)
  unfolding remove_gone
  mem-remove_gone now [] x = (λ m. elim m [ ], λ m. m.0)
  mem-remove_gone now (obj ∷ objects) x =
      let (into, back) = mem-remove_gone now objects x in
      let rest = remove_gone a now objects in
      elim (Bool-cases (is_gone a now obj)) [
        | inl e ↦ rw e (
          λ m. let (n, s) = into m in (Memᴰ.tail n, s),
          λ p. back (not-gone now obj x objects e p.0 p.1, p.1),
        )
        | inr e ↦ rw e (
          λ m. still-there now obj x rest objects e into m,
          λ p. mem-onto obj x objects rest (λ m. back (m, p.1)) p.0,
        )
      ]

  -- an object that has been moved as the loop does it, and has its azimuth in range if it is far
  abbrev pub IsMoved : D → WorldObject D → WorldObject D → Type 0
  IsMoved dt obj obj' =
      (obj'.id ≡ obj.id)
      × (obj'.range_m ≡ radial a dt obj)
      × (a.lt (min_range_m a) obj'.range_m ≡ true → InTurn obj'.azimuth_deg)

  module _ {Near : D → Type 0} {turns : D → ℕ} (w : IsWinding Near turns) where
    -- Fuel for the azimuth of an object that the loops are run for.
    abbrev pub HasFuel : ℕ → D → WorldObject D → Type 0
    HasFuel fuel dt obj =
        a.lt (min_range_m a) (radial a dt obj) ≡ true
        → Near (turned a dt obj) × (turns (turned a dt obj) ≤ fuel)

    move-InTurn :
        (fuel : ℕ) (dt : D) (obj : WorldObject D)
        → HasFuel fuel dt obj
        → (obj' : WorldObject D) × (move a fuel dt obj ≡ some obj') × IsMoved dt obj obj'
    unfolding move
    move-InTurn fuel dt obj enough =
        let nearer = record obj { range_m = radial a dt obj } in
        elim (Bool-cases (a.lt (min_range_m a) (radial a dt obj))) [
          | inl e ↦
              (let (near, few) = enough e in
                let (x, q, s) = settle-stops w fuel (turned a dt obj) near few in
                (
                  record nearer { azimuth_deg = x },
                  rw e (ap (with_azimuth a nearer) q),
                  (refl, refl, λ far. s),
                ))
          | inr e ↦ (nearer, rw e refl, (refl, refl, λ far. absurd cc))
        ]

    -- Every object has moved, in their order.
    move_all-InTurn :
        (fuel : ℕ) (dt : D) (objects : List (WorldObject D))
        → All (HasFuel fuel dt) objects
        → (moved : List (WorldObject D)) × (move_all a fuel dt objects ≡ some moved)
          × ((x : WorldObject D)
              → Memᴰ x moved
              → (obj : WorldObject D) × Memᴰ obj objects × IsMoved dt obj x)
    unfolding move_all
    move_all-InTurn fuel dt [] enough = ([], refl, λ x m. elim m [ ])
    move_all-InTurn fuel dt (obj ∷ objects) (one, rest) =
        let (obj', e, moved) = move-InTurn fuel dt obj one in
        let (objects', es, all) = move_all-InTurn fuel dt objects rest in
        (obj' ∷ objects', rw (e, es) refl, found obj obj' objects objects' moved all)
      where
        found :
            (obj obj' : WorldObject D) (objects objects' : List (WorldObject D))
            → IsMoved dt obj obj'
            → ((x : WorldObject D)
                → Memᴰ x objects'
                → (o : WorldObject D) × Memᴰ o objects × IsMoved dt o x)
            → (x : WorldObject D) → Memᴰ x (obj' ∷ objects')
            → (o : WorldObject D) × Memᴰ o (obj ∷ objects) × IsMoved dt o x
        found obj obj' objects objects' moved all x (Memᴰ.head q) =
            (obj, Memᴰ.head refl, subst (IsMoved dt obj) (sym q) moved)
        found obj obj' objects objects' moved all x (Memᴰ.tail m) =
            let (o, n, p) = all x m in (o, Memᴰ.tail n, p)

    -- A tick ends: where adding and subtracting 360 keeps the azimuths of the objects that are farther
    -- than 50 m near and brings each nearer to the first turn, as many rounds of the two loops as `turns`
    -- counts for it are enough. An object left after the tick is one of before, with the range that it has
    -- moved to, is neither closer than 50 m nor past its lifetime, and if it is farther than 50 m, its
    -- azimuth is from 0 up to and less than 360.
    pub tick-InTurn :
        (fuel : ℕ) (dt now : D) (v : WorldModel D)
        → All (HasFuel fuel dt) v.objects
        → (v' : WorldModel D) × (tick a fuel dt now v ≡ some v')
          × ((x : WorldObject D)
              → Memᴰ x v'.objects
              → Remains now x × ((obj : WorldObject D) × Memᴰ obj v.objects × IsMoved dt obj x))
    unfolding tick
    tick-InTurn fuel dt now v enough =
        let (moved, e, all) = move_all-InTurn fuel dt v.objects enough in
        (
          record v { objects = remove_gone a now moved },
          rw e refl,
          λ x m. let (n, s) = (mem-remove_gone now moved x).0 m in (s, all x n),
        )
