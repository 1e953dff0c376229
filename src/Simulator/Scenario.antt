-- ===== src/Simulator/Scenario.antt =====
-- src/sensor_sim/scenario_loader.cpp: the files that describe a scenario. A throw is a `failed` with
-- what is wrong; `std::stod` is a parameter.
pub mod Text
pub mod Sound
pub mod Printed
pub mod Fields
pub mod Keys
pub mod FileLines
pub mod RoundTrip
use net_node_gateway.Prelude.{
  ℕ, zero, suc, ◌-◌, ◌+◌, Bool, true, false, Option, none, some, List, [], ◌∷◌, ◌++◌, length, take,
  drop, ltb, leb, ◌==◌, ◌&&◌, ◌||◌, if◌then◌else◌,
}
use net_node_gateway.Prelude.Text.{codes, text_eq}
use net_node_gateway.Types.{
  TrackClass, unknown, fixed_wing, rotary_wing, uav_small, uav_large, missile, rocket_artillery,
  bird, decoy,
}
use net_node_gateway.Simulator.Machine.{Arithmetic}
use net_node_gateway.Simulator.Objects.{ScenarioProfile}
use net_node_gateway.Simulator.Scenario.Text.{
  quote, has, trim, index_of, before, after, behind, before_last, pop_comma, pieces, strings, comma,
  line_feed,
}

-- the messages of the exceptions, with the text that they quote
pub data LoadError : Type 0 where
  cannot_open invalid_string invalid_number invalid_array unknown_class : List ℕ → LoadError
  missing_name missing_types : LoadError

pub data Result (A : Type 0) : Type 0 where
  loaded : A → Result A
  failed : LoadError → Result A

-- What follows a call that may throw.
abbrev pub and_then : {A B : Type 0} → Result A → (A → Result B) → Result B
and_then (loaded x) f = f x
and_then (failed e) f = failed e

unfoldable pub extract_string : List ℕ → Result (List ℕ)
extract_string s = elim (after quote s) [
  | none ↦ failed (invalid_string s)
  | some rest ↦ elim (before_last quote rest) [
    | none ↦ failed (invalid_string s)
    | some text ↦ loaded text
  ]
]

-- `substr` past '[' and up to ']', or up to the end where ']' stands before '['
abbrev pub inner : List ℕ → ℕ → ℕ → List ℕ
inner s opening closing =
    let rest = drop (opening + 1) s in
    if ltb opening closing then take (closing - opening - 1) rest else rest

unfoldable pub extract_string_array : List ℕ → Result (List (List ℕ))
unfolding index_of strings pieces
extract_string_array s = elim (index_of 91 s) [
  | none ↦ failed (invalid_array s)
  | some opening ↦ elim (index_of 93 s) [
    | none ↦ failed (invalid_array s)
    | some closing ↦ loaded (strings (pieces comma (inner s opening closing)))
  ]
]

unfoldable pub string_to_track_class : List ℕ → Result TrackClass
unfolding text_eq
string_to_track_class s =
    if text_eq s (codes "UNKNOWN")
    then loaded unknown
    else if text_eq s (codes "FIXED_WING")
    then loaded fixed_wing
    else if text_eq s (codes "ROTARY_WING")
    then loaded rotary_wing
    else if text_eq s (codes "UAV_SMALL")
    then loaded uav_small
    else if text_eq s (codes "UAV_LARGE")
    then loaded uav_large
    else if text_eq s (codes "MISSILE")
    then loaded missile
    else if text_eq s (codes "ROCKET_ARTILLERY")
    then loaded rocket_artillery
    else if text_eq s (codes "BIRD")
    then loaded bird
    else if text_eq s (codes "DECOY")
    then loaded decoy
    else failed (unknown_class s)

-- The loop that appends the classes.
unfoldable pub push_types : List TrackClass → List (List ℕ) → Result (List TrackClass)
unfolding string_to_track_class
push_types types [] = loaded types
push_types types (s ∷ rest) =
    and_then (string_to_track_class s) (λ c. push_types (types ++ c ∷ []) rest)

-- The loop that reads on to a line with ']', and the lines behind it.
unfoldable pub gather : List ℕ → List (List ℕ) → List ℕ × List (List ℕ)
unfolding has trim
gather text [] = (text, [])
gather text (line ∷ lines) =
    let rest = gather (text ++ 32 ∷ trim line) lines in
    if has 93 text then (text, line ∷ lines) else rest

-- `if (line.empty() || line[0] == '{' || line[0] == '}') continue`
abbrev pub is_skipped : List ℕ → Bool
is_skipped [] = true
is_skipped (c ∷ cs) = c == 123 || c == 125

module _ {D : Type 0} (a : Arithmetic D) (stod : List ℕ → Option D) where
  abbrev pub empty_profile : ScenarioProfile D
  empty_profile = record {
    name = [];
    min_objects = 0;
    max_objects = 0;
    allowed_types = [];
    spawn_rate_hz = a.literal 0 0;
    min_range_m = a.literal 0 0;
    max_range_m = a.literal 0 0;
    min_speed_mps = a.literal 0 0;
    max_speed_mps = a.literal 0 0;
    hostile_probability = a.literal 0 0;
  }

  unfoldable pub extract_number : List ℕ → Result D
  unfolding trim pop_comma
  extract_number s =
      let t = trim (pop_comma (trim s)) in
      elim (stod t) [ none ↦ failed (invalid_number t) | some x ↦ loaded x ]

  -- The branches on the key but that of the types; an unknown key is passed over.
  unfoldable pub set_field : List ℕ → List ℕ → ScenarioProfile D → Result (ScenarioProfile D)
  unfolding extract_string extract_number text_eq
  set_field key value p =
      if text_eq key (codes "name")
      then and_then (extract_string value) (λ s. loaded (record p { name = s }))
      else if text_eq key (codes "min_objects")
      then and_then (extract_number value) (λ x. loaded (record p { min_objects = a.bits 4 x }))
      else if text_eq key (codes "max_objects")
      then and_then (extract_number value) (λ x. loaded (record p { max_objects = a.bits 4 x }))
      else if text_eq key (codes "spawn_rate_hz")
      then and_then (extract_number value) (λ x. loaded (record p { spawn_rate_hz = x }))
      else if text_eq key (codes "min_range_m")
      then and_then (extract_number value) (λ x. loaded (record p { min_range_m = x }))
      else if text_eq key (codes "max_range_m")
      then and_then (extract_number value) (λ x. loaded (record p { max_range_m = x }))
      else if text_eq key (codes "min_speed_mps")
      then and_then (extract_number value) (λ x. loaded (record p { min_speed_mps = x }))
      else if text_eq key (codes "max_speed_mps")
      then and_then (extract_number value) (λ x. loaded (record p { max_speed_mps = x }))
      else if text_eq key (codes "hostile_probability")
      then and_then (extract_number value) (λ x. loaded (record p { hostile_probability = x }))
      else loaded p

  -- The branch of the types: the profile, and the lines that are left.
  unfoldable pub load_types :
      List ℕ → List (List ℕ) → ScenarioProfile D → Result (ScenarioProfile D × List (List ℕ))
  unfolding gather extract_string_array push_types
  load_types value lines p =
      let (whole, rest) = gather value lines in
      and_then (extract_string_array whole) (λ types.
        and_then (push_types p.allowed_types types)
          (λ ts. loaded (record p { allowed_types = ts }, rest)))

  -- The branches on the key.
  unfoldable pub load_value :
      List ℕ
      → List ℕ
      → List (List ℕ)
      → ScenarioProfile D
      → Result (ScenarioProfile D × List (List ℕ))
  unfolding load_types set_field
  load_value key value lines p =
      if text_eq key (codes "allowed_types")
      then load_types value lines p
      else and_then (set_field key value p) (λ p'. loaded (p', lines))

  -- What stands before a colon; a line without one is passed over.
  unfoldable pub load_pair :
      Option (List ℕ)
      → List ℕ
      → List (List ℕ)
      → ScenarioProfile D
      → Result (ScenarioProfile D × List (List ℕ))
  unfolding load_value
  load_pair none line lines p = loaded (p, lines)
  load_pair (some start) line lines p =
      and_then (extract_string start) (λ key. load_value key (trim (behind 58 line)) lines p)

  unfoldable pub load_line :
      List ℕ → List (List ℕ) → ScenarioProfile D → Result (ScenarioProfile D × List (List ℕ))
  unfolding load_pair before
  load_line text lines p =
      let line = trim text in
      if is_skipped line then loaded (p, lines) else load_pair (before 58 line) line lines p

  -- The loop over the lines. Each round takes one or more, so as many rounds as lines are enough.
  unfoldable pub load_lines : ℕ → List (List ℕ) → ScenarioProfile D → Result (ScenarioProfile D)
  unfolding load_line
  load_lines fuel [] p = loaded p
  load_lines zero (line ∷ lines) p = loaded p
  load_lines (suc fuel) (line ∷ lines) p =
      and_then (load_line line lines p) (λ next. load_lines fuel next.1 next.0)

  -- The tests behind the loop.
  abbrev pub tested : List ℕ → List TrackClass → ScenarioProfile D → Result (ScenarioProfile D)
  tested [] types p = failed missing_name
  tested (c ∷ cs) [] p = failed missing_types
  tested (c ∷ cs) (t ∷ ts) p = loaded p

  abbrev pub checked : ScenarioProfile D → Result (ScenarioProfile D)
  checked p = tested p.name p.allowed_types p

  unfoldable pub load_scenario_from_string : List ℕ → Result (ScenarioProfile D)
  unfolding load_lines pieces
  load_scenario_from_string json_content =
      let lines = pieces line_feed json_content in
      and_then (load_lines (length lines) lines empty_profile) checked

  -- `file` is what the system finds under the path.
  unfoldable pub load_scenario : List ℕ → Option (List ℕ) → Result (ScenarioProfile D)
  unfolding load_scenario_from_string
  load_scenario json_path none = failed (cannot_open json_path)
  load_scenario json_path (some file) = load_scenario_from_string file
