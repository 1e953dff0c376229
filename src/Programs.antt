-- ===== src/Programs.antt =====
-- src/gateway/gateway_main.cpp, src/sensor_sim/sensor_sim_main.cpp, src/replay/replay_main.cpp: the
-- options of the programs. `std::stoi` and `std::stod` are parameters.
pub mod Options
pub mod Replayed
pub mod Simulated
pub mod GatewayMain
mod Examples
use net_node_gateway.Prelude.{
  ℕ, ◌%◌, ◌^◌, Bool, true, false, Option, none, some, List, [], ◌∷◌, if◌then◌else◌,
}
use net_node_gateway.Prelude.Text.{codes, text_eq}
use net_node_gateway.Types.{Severity, debug, info, warn, alarm, error, fatal}
use net_node_gateway.Gateway.Config.{GatewayConfig, default_config}

-- What the options of a program come to: the settings, the status of an early `return`, or an
-- exception that nothing catches.
pub data Parsed {ℓ} (A : Type ℓ) : Type ℓ where
  parsed : A → Parsed A
  exits : ℕ → Parsed A
  throws : Parsed A

-- What follows a number that is read from the value of an option.
abbrev pub with_number : {A B : Type 0} → Option A → (A → Parsed B) → Parsed B
with_number none f = throws
with_number (some n) f = f n

unfoldable pub parse_log_level : List ℕ → Severity
unfolding text_eq
parse_log_level level =
    if text_eq level (codes "DEBUG")
    then debug
    else if text_eq level (codes "INFO")
    then info
    else if text_eq level (codes "WARN")
    then warn
    else if text_eq level (codes "ALARM")
    then alarm
    else if text_eq level (codes "ERROR")
    then error
    else if text_eq level (codes "FATAL")
    then fatal
    else info

-- gateway_main.cpp: the options without a value, for the rest of the arguments.
unfoldable pub gateway_flag :
    (GatewayConfig → Parsed GatewayConfig) → List ℕ → GatewayConfig → Parsed GatewayConfig
unfolding text_eq
gateway_flag rest arg config =
    if text_eq arg (codes "--crc")
    then rest (record config { crc_enabled = true })
    else if text_eq arg (codes "--no-crc")
    then rest (record config { crc_enabled = false })
    else if text_eq arg (codes "--help")
    then exits 0
    else exits 1

-- gateway_main.cpp: the loop over the options. `stoi` gives an `int` as its image in 32 bits.
unfoldable pub gateway_options :
    (List ℕ → Option ℕ) → List (List ℕ) → GatewayConfig → Parsed GatewayConfig
unfolding gateway_flag parse_log_level
gateway_options stoi [] config = parsed config
gateway_options stoi (arg ∷ []) config = gateway_flag parsed arg config
gateway_options stoi (arg ∷ value ∷ args) config =
    let rest = gateway_options stoi args in
    let flagged = gateway_flag (gateway_options stoi (value ∷ args)) arg config in
    if text_eq arg (codes "--port")
    then with_number (stoi value) (λ n. rest (record config { udp_port = n % 2 ^ 16 }))
    else if text_eq arg (codes "--record")
    then rest (record config { record_enabled = true; record_path = value })
    else if text_eq arg (codes "--replay")
    then rest (record config { replay_path = value })
    else if text_eq arg (codes "--log-level")
    then rest (record config { log_level = parse_log_level value })
    else flagged

-- sensor_sim_main.cpp: the settings, with their defaults.
pub record SimSettings (D : Type 0) : Type 0 where
  pub profile_name : List ℕ
  pub profile_file : List ℕ
  pub host : List ℕ
  pub port : ℕ
  pub rate_hz : D
  pub duration_s : D
  pub seed : ℕ
  pub loss_pct : D
  pub reorder_pct : D
  pub duplicate_pct : D
  pub corrupt_pct : D

-- `std::stoi`, `std::stoul` and `std::stod`
pub record Numbers (D : Type 0) : Type 0 where
  pub stoi : List ℕ → Option ℕ
  pub stoul : List ℕ → Option ℕ
  pub stod : List ℕ → Option D

module _ {D : Type 0} (k : Numbers D) where
  -- The branches with a value; `none` is an option that is none of them.
  unfoldable pub sim_value :
      List ℕ
      → List ℕ
      → (SimSettings D → Parsed (SimSettings D))
      → SimSettings D
      → Option (Parsed (SimSettings D))
  unfolding text_eq
  sim_value arg value rest s =
      if text_eq arg (codes "--profile")
      then some (rest (record s { profile_name = value }))
      else if text_eq arg (codes "--profile-file")
      then some (rest (record s { profile_file = value }))
      else if text_eq arg (codes "--host")
      then some (rest (record s { host = value }))
      else if text_eq arg (codes "--port")
      then some (with_number (k.stoi value) (λ n. rest (record s { port = n % 2 ^ 16 })))
      else if text_eq arg (codes "--rate")
      then some (with_number (k.stod value) (λ x. rest (record s { rate_hz = x })))
      else if text_eq arg (codes "--duration")
      then some (with_number (k.stod value) (λ x. rest (record s { duration_s = x })))
      else if text_eq arg (codes "--seed")
      then some (with_number (k.stoul value) (λ n. rest (record s { seed = n % 2 ^ 32 })))
      else if text_eq arg (codes "--loss")
      then some (with_number (k.stod value) (λ x. rest (record s { loss_pct = x })))
      else if text_eq arg (codes "--reorder")
      then some (with_number (k.stod value) (λ x. rest (record s { reorder_pct = x })))
      else if text_eq arg (codes "--duplicate")
      then some (with_number (k.stod value) (λ x. rest (record s { duplicate_pct = x })))
      else if text_eq arg (codes "--corrupt")
      then some (with_number (k.stod value) (λ x. rest (record s { corrupt_pct = x })))
      else none

  -- `--help` and unknown options end the program.
  abbrev pub sim_flag : List ℕ → Parsed (SimSettings D)
  sim_flag arg = if text_eq arg (codes "--help") then exits 0 else exits 1

  unfoldable pub sim_options : List (List ℕ) → SimSettings D → Parsed (SimSettings D)
  unfolding sim_value
  sim_options [] s = parsed s
  sim_options (arg ∷ []) s = sim_flag arg
  sim_options (arg ∷ value ∷ args) s = elim (sim_value arg value (sim_options args) s) [
    | none ↦ sim_flag arg
    | some r ↦ r
  ]

-- replay_main.cpp: the settings.
pub record ReplaySettings (D : Type 0) : Type 0 where
  pub file_path : List ℕ
  pub speed : D
  pub host : List ℕ
  pub port : ℕ
  pub dry_run : Bool

module _ {D : Type 0} (k : Numbers D) where
  -- An unknown option is passed over.
  unfoldable pub replay_flag :
      (ReplaySettings D → Parsed (ReplaySettings D))
      → List ℕ
      → ReplaySettings D
      → Parsed (ReplaySettings D)
  unfolding text_eq
  replay_flag rest arg s =
      if text_eq arg (codes "--dry-run")
      then rest (record s { dry_run = true })
      else if text_eq arg (codes "--help")
      then exits 0
      else rest s

  unfoldable pub replay_options : List (List ℕ) → ReplaySettings D → Parsed (ReplaySettings D)
  unfolding replay_flag
  replay_options [] s = parsed s
  replay_options (arg ∷ []) s = replay_flag parsed arg s
  replay_options (arg ∷ value ∷ args) s =
      let rest = replay_options args in
      let flagged = replay_flag (replay_options (value ∷ args)) arg s in
      if text_eq arg (codes "--file")
      then rest (record s { file_path = value })
      else if text_eq arg (codes "--speed")
      then with_number (k.stod value) (λ x. rest (record s { speed = x }))
      else if text_eq arg (codes "--host")
      then rest (record s { host = value })
      else if text_eq arg (codes "--port")
      then with_number (k.stoi value) (λ n. rest (record s { port = n % 2 ^ 16 }))
      else flagged
