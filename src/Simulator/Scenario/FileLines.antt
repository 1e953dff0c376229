-- ===== src/Simulator/Scenario/FileLines.antt =====
-- src/sensor_sim/scenario_loader.cpp: the lines of a scenario file, in the form of the files of the
-- repository.
use net_node_gateway.Prelude.{ℕ, ◌≡◌, refl, ◌∙◌, false, Option, some, List, [], ◌∷◌, ◌++◌, All}
use net_node_gateway.Prelude.Text.{codes}
use net_node_gateway.Types.{TrackClass}
use net_node_gateway.Simulator.Objects.{ScenarioProfile}
use net_node_gateway.Simulator.Scenario.Text.{quote, comma, line_feed, has}
use net_node_gateway.Simulator.Scenario.Text.Laws.{has-append, IsPlain, plain-line_feed}
use net_node_gateway.Simulator.Scenario.Printed.{classes, array, classes-free}
use net_node_gateway.Simulator.Scenario.Fields.{field_line}

module _ {D : Type 0} (stod : List ℕ → Option D) (write : D → List ℕ) where
  -- A number whose text, without blanks and commas, is read as that number.
  abbrev pub IsWritten : D → Type 0
  IsWritten x = IsPlain (write x) × (stod (write x) ≡ some x)

  -- The lines of the file of a profile, in the order of the files of the repository; `fewest` and
  -- `most` are the numbers of its objects.
  abbrev pub file_lines : ScenarioProfile D → D → D → List (List ℕ)
  file_lines p fewest most =
      codes "{"
      ∷ field_line (codes "name") (quote ∷ (p.name ++ quote ∷ comma ∷ []))
      ∷ field_line (codes "min_objects") (write fewest ++ comma ∷ [])
      ∷ field_line (codes "max_objects") (write most ++ comma ∷ [])
      ∷ field_line (codes "allowed_types") (array p.allowed_types)
      ∷ field_line (codes "spawn_rate_hz") (write p.spawn_rate_hz ++ comma ∷ [])
      ∷ field_line (codes "min_range_m") (write p.min_range_m ++ comma ∷ [])
      ∷ field_line (codes "max_range_m") (write p.max_range_m ++ comma ∷ [])
      ∷ field_line (codes "min_speed_mps") (write p.min_speed_mps ++ comma ∷ [])
      ∷ field_line (codes "max_speed_mps") (write p.max_speed_mps ++ comma ∷ [])
      ∷ field_line (codes "hostile_probability") (write p.hostile_probability)
      ∷ codes "}"
      ∷ []

  -- The numbers of a file.
  abbrev pub numbers : ScenarioProfile D → D → D → List D
  numbers p fewest most =
      fewest ∷ most ∷ p.spawn_rate_hz ∷ p.min_range_m ∷ p.max_range_m ∷ p.min_speed_mps
      ∷ p.max_speed_mps ∷ p.hostile_probability ∷ []

  line-free :
      (c : ℕ) (key value : List ℕ)
      → has c (codes "    \"") ≡ false
      → has c (codes "\": ") ≡ false
      → has c key ≡ false
      → has c value ≡ false
      → has c (field_line key value) ≡ false
  line-free c key value p q h k =
      has-append c (codes "    \"") (key ++ (codes "\": " ++ value))
      ∙ rw (p, has-append c key (codes "\": " ++ value), h, has-append c (codes "\": ") value, q, k)

  number-free :
      (key : List ℕ) (x : D)
      → has line_feed key ≡ false
      → IsWritten x
      → has line_feed (field_line key (write x ++ comma ∷ [])) ≡ false
  unfolding has
  number-free key x h (plain, read) =
      line-free line_feed key (write x ++ comma ∷ []) refl refl h
        (has-append line_feed (write x) (comma ∷ []) ∙ rw (plain-line_feed (write x) plain.1))

  name-free :
      (name : List ℕ)
      → has line_feed name ≡ false
      → has line_feed (field_line (codes "name") (quote ∷ (name ++ quote ∷ comma ∷ []))) ≡ false
  unfolding has
  name-free name h =
      line-free line_feed (codes "name") (quote ∷ (name ++ quote ∷ comma ∷ [])) refl refl refl
        (has-append line_feed name (quote ∷ comma ∷ []) ∙ rw h)

  types-free :
      (ts : List TrackClass) → has line_feed (field_line (codes "allowed_types") (array ts)) ≡ false
  unfolding has
  types-free ts =
      line-free line_feed (codes "allowed_types") (array ts) refl refl refl
        (has-append line_feed (classes ts) (93 ∷ comma ∷ []) ∙ rw (classes-free ts).1)

  last-free :
      (x : D)
      → IsWritten x
      → has line_feed (field_line (codes "hostile_probability") (write x)) ≡ false
  unfolding has
  last-free x (plain, read) =
      line-free line_feed (codes "hostile_probability") (write x) refl refl refl
        (plain-line_feed (write x) plain.1)

  pub file_lines-free :
      (p : ScenarioProfile D) (fewest most : D)
      → has line_feed p.name ≡ false
      → All IsWritten (numbers p fewest most)
      → All (λ l. has line_feed l ≡ false) (file_lines p fewest most)
  unfolding has
  file_lines-free p fewest most name
        (f, (m, (rate, (near, (far, (slow, (fast, (hostile, end)))))))) =
      (
        refl,
        (
          name-free p.name name,
          (
            number-free (codes "min_objects") fewest refl f,
            (
              number-free (codes "max_objects") most refl m,
              (
                types-free p.allowed_types,
                (
                  number-free (codes "spawn_rate_hz") p.spawn_rate_hz refl rate,
                  (
                    number-free (codes "min_range_m") p.min_range_m refl near,
                    (
                      number-free (codes "max_range_m") p.max_range_m refl far,
                      (
                        number-free (codes "min_speed_mps") p.min_speed_mps refl slow,
                        (
                          number-free (codes "max_speed_mps") p.max_speed_mps refl fast,
                          (last-free p.hostile_probability hostile, (refl, tt)),
                        ),
                      ),
                    ),
                  ),
                ),
              ),
            ),
          ),
        ),
      )
