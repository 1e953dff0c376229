-- ===== src/Simulator/Objects/Spawned.antt =====
-- src/sensor_sim/object_generator.cpp: how many objects a generator makes, and which.
use net_node_gateway.Prelude.{
  ℕ, zero, suc, ◌+◌, ◌%◌, ◌^◌, ◌≤◌, ◌<◌, ◌≡◌, refl, sym, subst, ◌∙◌, ◌⊎◌, inl, inr, false, none,
  some, List, [], ◌∷◌, length, get_or, arith, All, leb, Bool-cases,
}
use mathlib.Core.List.{Memᴰ}
use net_node_gateway.Types.{TrackClass, unknown}
use net_node_gateway.Simulator.{WorldObject}
use net_node_gateway.Simulator.Machine.{Arithmetic, Random}
use net_node_gateway.Simulator.Objects.{
  ScenarioProfile, ObjectGenerator, size_pred, make_object, make_objects, generate_initial,
  maybe_spawn,
}

-- What a profile must say for a run: a class, and bounds that are no negative numbers and in order.
pub record IsSound {D : Type 0} (profile : ScenarioProfile D) : Type 0 where
  pub types : 0 < length profile.allowed_types
  pub order : profile.min_objects ≤ profile.max_objects
  pub small : profile.max_objects < 2 ^ 31

get_or-Mem :
    (types : List TrackClass) (i : ℕ) → i < length types → Memᴰ (get_or types i unknown) types
get_or-Mem [] i h = absurd (omega arith)
get_or-Mem (t ∷ types) zero h = Memᴰ.head refl
get_or-Mem (t ∷ types) (suc i) h = Memᴰ.tail (get_or-Mem types i (omega arith))

module _ {D : Type 0} where
  -- the ids are consecutive from the number
  abbrev pub HasIdsFrom : ℕ → List (WorldObject D) → Type 0
  HasIdsFrom n [] = Unit
  HasIdsFrom n (obj ∷ objects) = (obj.id ≡ n) × HasIdsFrom (n + 1) objects

  abbrev pub IsAllowed : List TrackClass → WorldObject D → Type 0
  IsAllowed types obj = Memᴰ obj.classification types

module _ {D R : Type 0} where
  -- What a batch of new objects says.
  pub record IsBatch (g : ObjectGenerator D R) (objects : List (WorldObject D))
      (g' : ObjectGenerator D R) : Type 0 where
    pub ids : HasIdsFrom g.next_id objects
    pub next : g'.next_id ≡ g.next_id + length objects
    pub profile : g'.profile ≡ g.profile
    pub allowed : All (IsAllowed g.profile.allowed_types) objects

module _ {D R N : Type 0} (a : Arithmetic D) (r : Random D R N) where
  pub make_object-IsAllowed :
      (g : ObjectGenerator D R) (now : D)
      → 0 < length g.profile.allowed_types
      → IsAllowed g.profile.allowed_types (make_object a r g now).0
  unfolding make_object
  make_object-IsAllowed g now h =
      let types = g.profile.allowed_types in
      let last = size_pred (length types) in
      let within = r.uniform_int-upper 0 last g.rng (omega arith) in
      get_or-Mem types (r.uniform_int 0 last g.rng).0 (ground (arith, within))

  pub make_object_lem :
      (g : ObjectGenerator D R) (now : D)
      → let (obj, g') = make_object a r g now in
        (obj.id ≡ g.next_id)
        × (g'.next_id ≡ (g.next_id + 1) % 2 ^ 32)
        × (g'.profile ≡ g.profile)
        × (obj.spawn_time_s ≡ now)
  unfolding make_object
  make_object_lem g now = (refl, refl, refl, refl)

  make_objects-IsBatch :
      (count : ℕ) (g : ObjectGenerator D R)
      → 0 < length g.profile.allowed_types
      → g.next_id + count < 2 ^ 32
      → let (objects, g') = make_objects a r count g in
        IsBatch g objects g' × (length objects ≡ count)
  unfolding make_objects
  make_objects-IsBatch zero g h k =
      (record { ids = tt; next = omega arith; profile = refl; allowed = tt }, refl)
  make_objects-IsBatch (suc count) g h k =
      let (obj, g') = make_object a r g (a.literal 0 0) in
      let (id, next, profile, time) = make_object_lem g (a.literal 0 0) in
      let next' : g'.next_id ≡ g.next_id + 1 = omega (arith, next) in
      let h' : 0 < length g'.profile.allowed_types =
        subst (λ p. 0 < length p.allowed_types) (sym profile) h in
      let (rest, size) = make_objects-IsBatch count g' h' (omega (arith, next')) in
      let (objects, g'') = make_objects a r count g' in
      (
        record {
          ids = (id, subst (λ n. HasIdsFrom n objects) next' rest.ids);
          next = omega (arith, next', rest.next);
          profile = rest.profile ∙ profile;
          allowed = (
            make_object-IsAllowed g (a.literal 0 0) h,
            subst (λ p. All (IsAllowed p.allowed_types) objects) profile rest.allowed,
          );
        },
        omega (arith, size),
      )

  -- The initial objects: where the profile names a class and its bounds are no negative numbers and in
  -- order, there are at least as many objects as the lower bound and at most as many as the upper, their
  -- ids are consecutive from the generator's next one, which then is the number after the last of them,
  -- and each has a class of the profile. The ids stay below 2 ^ 32.
  pub generate_initial-IsBatch :
      (g : ObjectGenerator D R)
      → 0 < length g.profile.allowed_types
      → g.profile.min_objects ≤ g.profile.max_objects
      → g.profile.max_objects < 2 ^ 31
      → g.next_id + g.profile.max_objects < 2 ^ 32
      → (objects : List (WorldObject D)) × (g' : ObjectGenerator D R) × (generate_initial a r g
          ≡ some (objects, g'))
        × (g.profile.min_objects ≤ length objects)
        × (length objects ≤ g.profile.max_objects)
        × IsBatch g objects g'
  unfolding generate_initial
  generate_initial-IsBatch g types order small room =
      let lo = g.profile.min_objects in
      let hi = g.profile.max_objects in
      let (count, rng) = r.uniform_int lo hi g.rng in
      let lower : lo ≤ count = r.uniform_int-lower lo hi g.rng order in
      let upper : count ≤ hi = r.uniform_int-upper lo hi g.rng order in
      let g1 = record g { rng = rng } in
      let (batch, size) = make_objects-IsBatch count g1 types (omega (arith, upper)) in
      let (objects, g') = make_objects a r count g1 in
      let fits : leb (2 ^ 31) count ≡ false = ground (arith, upper) in
      (
        objects,
        g',
        rw fits refl,
        omega (arith, lower, size),
        omega (arith, upper, size),
        record {
          ids = batch.ids;
          next = batch.next;
          profile = batch.profile;
          allowed = batch.allowed;
        },
      )

  -- What a spawn leaves.
  pub maybe_spawn-cases :
      (g : ObjectGenerator D R) (now : D)
      → ((maybe_spawn a r g now ≡ (none, g)))
        ⊎ ((g1 : ObjectGenerator D R) × (g1.next_id ≡ g.next_id)
            × (g1.profile ≡ g.profile)
            × (maybe_spawn a r g now
                ≡ (some (make_object a r g1 now).0, (make_object a r g1 now).1)))
  unfolding maybe_spawn
  maybe_spawn-cases g now =
      let g1 = record g { last_spawn_time = now } in
      elim (Bool-cases (a.le g.profile.spawn_rate_hz (a.literal 0 0))) [
        | inl e ↦ inl (rw e refl)
        | inr e ↦
            elim (Bool-cases (
              a.le (a.div (a.literal 1 0) g.profile.spawn_rate_hz) (a.sub now g.last_spawn_time))) [
                | inl f ↦ inr (g1, refl, refl, rw e (rw f refl))
                | inr f ↦ inl (rw e (rw f refl))
              ]
      ]
