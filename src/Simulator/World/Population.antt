-- ===== src/Simulator/World/Population.antt =====
-- src/sensor_sim/world_model.cpp and object_generator.cpp together: the objects of a world that takes
-- them from one generator.
use net_node_gateway.Prelude.{
  ℕ, suc, ◌+◌, ◌^◌, ◌≤◌, ◌<◌, ◌≡◌, refl, sym, ap, subst, ◌∙◌, inl, inr, Bool, true, false, Option,
  none, some, List, [], ◌∷◌, ◌++◌, length, arith, All, All-append, if◌then◌else◌,
}
use mathlib.Core.List.{Memᴰ}
use mathlib.Core.Option.{some-injective}
use net_node_gateway.Types.{TrackClass}
use net_node_gateway.Simulator.{WorldObject}
use net_node_gateway.Simulator.Machine.{Arithmetic, Random}
use net_node_gateway.Simulator.Objects.{ObjectGenerator, make_object, maybe_spawn}
use net_node_gateway.Simulator.Objects.Spawned.{
  HasIdsFrom, IsAllowed, make_object-IsAllowed, make_object_lem, maybe_spawn-cases,
}
use net_node_gateway.Simulator.World.{
  WorldModel, add_object, radial, turned, settle, min_range_m, with_azimuth, move, onto, move_all,
  is_gone, remove_gone, left_over, tick,
}

-- `if (spawned) world.add_object(*spawned)`
abbrev pub add_spawned : {D : Type 0} → WorldModel D → Option (WorldObject D) → WorldModel D
add_spawned w none = w
add_spawned w (some obj) = add_object w obj

module _ {D : Type 0} where
  -- strictly ascending ids, from the first number on and below the second
  abbrev pub Ascends : ℕ → List (WorldObject D) → ℕ → Type 0
  Ascends lo [] hi = lo ≤ hi
  Ascends lo (obj ∷ objects) hi = (lo ≤ obj.id) × Ascends (obj.id + 1) objects hi

  pub Ascends-lower :
      (k lo : ℕ) (objects : List (WorldObject D)) (hi : ℕ)
      → k ≤ lo
      → Ascends lo objects hi
      → Ascends k objects hi
  Ascends-lower k lo [] hi h s = omega arith
  Ascends-lower k lo (obj ∷ objects) hi h (l, s) = (omega arith, s)

  Ascends-add :
      (lo : ℕ) (objects : List (WorldObject D)) (hi : ℕ) (obj : WorldObject D)
      → obj.id ≡ hi
      → Ascends lo objects hi
      → Ascends lo (objects ++ obj ∷ []) (hi + 1)
  Ascends-add lo [] hi obj e s = (omega arith, omega (arith, e))
  Ascends-add lo (x ∷ objects) hi obj e (l, s) = (l, Ascends-add (x.id + 1) objects hi obj e s)

  pub HasIdsFrom-Ascends :
      (n : ℕ) (objects : List (WorldObject D))
      → HasIdsFrom n objects
      → Ascends n objects (n + length objects)
  HasIdsFrom-Ascends n [] s = omega arith
  HasIdsFrom-Ascends n (obj ∷ objects) (e, s) = (
    omega (arith, e),
    subst (λ k. Ascends k objects (n + suc (length objects))) (sym (ap (λ m. m + 1) e))
        (subst (Ascends (n + 1) objects) (omega arith) (HasIdsFrom-Ascends (n + 1) objects s)),
  )

  -- The objects of the world have ascending ids below the generator's next one, and classes of its
  -- profile.
  pub record IsPopulated {R : Type 0} (g : ObjectGenerator D R) (w : WorldModel D) : Type 0 where
    pub ascends : Ascends 0 w.objects g.next_id
    pub allowed : All (IsAllowed g.profile.allowed_types) w.objects

module _ {D : Type 0} (a : Arithmetic D) where
  with_azimuth-id :
      (obj obj' : WorldObject D) (azimuth : Option D)
      → with_azimuth a obj azimuth ≡ some obj'
      → (obj'.id ≡ obj.id) × (obj'.classification ≡ obj.classification)
  with_azimuth-id obj obj' none e = absurd cc
  with_azimuth-id obj obj' (some x) e =
      let same = some-injective (record obj { azimuth_deg = x }) obj' e in
      (
        sym (ap (λ (o : WorldObject D). o.id) same),
        sym (ap (λ (o : WorldObject D). o.classification) same),
      )

  move-id :
      (fuel : ℕ) (dt : D) (obj obj' : WorldObject D)
      → move a fuel dt obj ≡ some obj'
      → (obj'.id ≡ obj.id) × (obj'.classification ≡ obj.classification)
  unfolding move
  move-id fuel dt obj obj' e =
      let nearer = record obj { range_m = radial a dt obj } in
      far (a.lt (min_range_m a) (radial a dt obj)) e
    where
      far :
          (b : Bool)
          → (let nearer = record obj { range_m = radial a dt obj } in
              if b then with_azimuth a nearer (settle a fuel (turned a dt obj)) else some nearer)
            ≡ some obj'
          → (obj'.id ≡ obj.id) × (obj'.classification ≡ obj.classification)
      far true e =
          with_azimuth-id (record obj { range_m = radial a dt obj }) obj'
            (settle a fuel (turned a dt obj)) e
      far false e =
          let same = some-injective (record obj { range_m = radial a dt obj }) obj' e in
          (
            sym (ap (λ (o : WorldObject D). o.id) same),
            sym (ap (λ (o : WorldObject D). o.classification) same),
          )

  -- Where all of the objects have moved, each has.
  pub move_all-some :
      (fuel : ℕ) (dt : D) (obj : WorldObject D) (objects moved : List (WorldObject D))
      → move_all a fuel dt (obj ∷ objects) ≡ some moved
      → (obj' : WorldObject D) × (rest : List (WorldObject D)) × (move a fuel dt obj ≡ some obj')
        × (move_all a fuel dt objects ≡ some rest)
        × (moved ≡ obj' ∷ rest)
  unfolding move_all
  move_all-some fuel dt obj objects moved e =
      both (move a fuel dt obj) (move_all a fuel dt objects) e
    where
      both :
          (o : Option (WorldObject D)) (os : Option (List (WorldObject D)))
          → onto a o os ≡ some moved
          → (obj' : WorldObject D) × (rest : List (WorldObject D)) × (o ≡ some obj')
            × (os ≡ some rest)
            × (moved ≡ obj' ∷ rest)
      both none os e = absurd cc
      both (some o) none e = absurd cc
      both (some o) (some os) e = (o, os, refl, refl, some-injective moved (o ∷ os) (sym e))

  Ascends-moved :
      (fuel : ℕ) (dt now : D) (lo : ℕ) (objects moved : List (WorldObject D)) (hi : ℕ)
      → move_all a fuel dt objects ≡ some moved
      → Ascends lo objects hi
      → Ascends lo (remove_gone a now moved) hi
  unfolding remove_gone move_all
  Ascends-moved fuel dt now lo [] moved hi e s =
      subst (λ os. Ascends lo (remove_gone a now os) hi) (some-injective [] moved e) s
  Ascends-moved fuel dt now lo (obj ∷ objects) moved hi e (l, s) =
      let (obj', rest, first, others, all) = move_all-some fuel dt obj objects moved e in
      let left = remove_gone a now rest in
      let same = (move-id fuel dt obj obj' first).0 in
      let ih = Ascends-moved fuel dt now (obj.id + 1) objects rest hi others s in
      subst (λ os. Ascends lo (remove_gone a now os) hi) (sym all)
        (elim (is_gone a now obj') as (λ b. Ascends lo (if b then left else obj' ∷ left) hi) [
          | true ↦ Ascends-lower lo (obj.id + 1) left hi (omega arith) ih
          | false ↦ (omega (arith, same), subst (λ n. Ascends (n + 1) left hi) (sym same) ih)
        ])

  IsAllowed-moved :
      (fuel : ℕ) (dt now : D) (types : List TrackClass) (objects moved : List (WorldObject D))
      → move_all a fuel dt objects ≡ some moved
      → All (IsAllowed types) objects
      → All (IsAllowed types) (remove_gone a now moved)
  unfolding remove_gone move_all
  IsAllowed-moved fuel dt now types [] moved e s =
      subst (λ os. All (IsAllowed types) (remove_gone a now os)) (some-injective [] moved e) s
  IsAllowed-moved fuel dt now types (obj ∷ objects) moved e (p, s) =
      let (obj', rest, first, others, all) = move_all-some fuel dt obj objects moved e in
      let left = remove_gone a now rest in
      let same = (move-id fuel dt obj obj' first).1 in
      let ih = IsAllowed-moved fuel dt now types objects rest others s in
      subst (λ os. All (IsAllowed types) (remove_gone a now os)) (sym all)
        (elim (is_gone a now obj')
          as (λ b. All (IsAllowed types) (if b then left else obj' ∷ left)) [
            | true ↦ ih
            | false ↦ (subst (λ c. Memᴰ c types) (sym same) p, ih)
          ])

  -- A world that has been ticked has all its objects moved, and some of them removed.
  pub tick-some :
      (fuel : ℕ) (dt now : D) (w w' : WorldModel D)
      → tick a fuel dt now w ≡ some w'
      → (moved : List (WorldObject D)) × (move_all a fuel dt w.objects ≡ some moved)
        × (w'.objects ≡ remove_gone a now moved)
  unfolding tick
  tick-some fuel dt now w w' e = left (move_all a fuel dt w.objects) e
    where
      left :
          (o : Option (List (WorldObject D)))
          → left_over a now w o ≡ some w'
          → (moved : List (WorldObject D)) × (o ≡ some moved)
            × (w'.objects ≡ remove_gone a now moved)
      left none e = absurd cc
      left (some moved) e = (
        moved,
        refl,
        ap (λ (v : WorldModel D). v.objects)
            (some-injective w' (record w { objects = remove_gone a now moved }) (sym e)),
      )

  module _ {R N : Type 0} (r : Random D R N) where
    added-IsPopulated :
        (g g1 : ObjectGenerator D R) (w : WorldModel D) (now : D)
        → 0 < length g.profile.allowed_types
        → g.next_id + 1 < 2 ^ 32
        → IsPopulated g w
        → g1.next_id ≡ g.next_id
        → g1.profile ≡ g.profile
        → let (obj, g') = make_object a r g1 now in
          IsPopulated g' (add_object w obj)
          × (g'.profile ≡ g.profile)
          × (g'.next_id ≤ g.next_id + 1)
    added-IsPopulated g g1 w now h k p n same =
        let (obj, g') = make_object a r g1 now in
        let (id, next, profile, time) = make_object_lem a r g1 now in
        let types = g.profile.allowed_types in
        let one : IsAllowed types obj =
          subst (λ q. IsAllowed q.allowed_types obj) same
            (make_object-IsAllowed a r g1 now
              (subst (λ q. 0 < length q.allowed_types) (sym same) h)) in
        (
          record {
            ascends =
                subst (Ascends 0 (w.objects ++ obj ∷ [])) (omega (arith, next, n))
                  (Ascends-add 0 w.objects g.next_id obj (id ∙ n) p.ascends);
            allowed =
                subst (λ q. All (IsAllowed q.allowed_types) (w.objects ++ obj ∷ []))
                  (sym (profile ∙ same))
                  (All-append (IsAllowed types) w.objects (obj ∷ []) p.allowed (one, tt));
          },
          profile ∙ same,
          omega (arith, next, n),
        )

    spawn-IsPopulated :
        (g : ObjectGenerator D R) (w : WorldModel D) (now : D)
        → 0 < length g.profile.allowed_types
        → g.next_id + 1 < 2 ^ 32
        → IsPopulated g w
        → let (spawned, g') = maybe_spawn a r g now in
          IsPopulated g' (add_spawned w spawned)
          × (g'.profile ≡ g.profile)
          × (g'.next_id ≤ g.next_id + 1)
    spawn-IsPopulated g w now h k p = elim (maybe_spawn-cases a r g now) [
      | inl e ↦ rw e (p, refl, omega arith)
      | inr (g1, e1, e2, e) ↦ rw e (added-IsPopulated g g1 w now h k p e1 e2)
    ]

    -- One tick of the simulation, which may spawn an object and then moves all of them and removes some.
    pub tick-IsPopulated :
        (fuel : ℕ) (g : ObjectGenerator D R) (w w' : WorldModel D) (dt now : D)
        → 0 < length g.profile.allowed_types
        → g.next_id + 1 < 2 ^ 32
        → IsPopulated g w
        → let (spawned, g') = maybe_spawn a r g now in
          tick a fuel dt now (add_spawned w spawned) ≡ some w'
          → IsPopulated g' w' × (g'.profile ≡ g.profile) × (g'.next_id ≤ g.next_id + 1)
    tick-IsPopulated fuel g w w' dt now h k p e =
        let (spawned, g') = maybe_spawn a r g now in
        let (q, same, next) = spawn-IsPopulated g w now h k p in
        let before = add_spawned w spawned in
        let (moved, all, left) = tick-some fuel dt now before w' e in
        let types = g'.profile.allowed_types in
        (
          record {
            ascends =
                subst (λ os. Ascends 0 os g'.next_id) (sym left)
                  (Ascends-moved fuel dt now 0 before.objects moved g'.next_id all q.ascends);
            allowed =
                subst (All (IsAllowed types)) (sym left)
                  (IsAllowed-moved fuel dt now types before.objects moved all q.allowed);
          },
          same,
          next,
        )
