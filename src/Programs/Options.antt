-- ===== src/Programs/Options.antt =====
-- src/gateway/gateway_main.cpp: a configuration is what its options say.
use net_node_gateway.Prelude.{
  ℕ, ◌%◌, ◌^◌, ◌<◌, ◌≡◌, refl, sym, ap, ap₂, ◌∙◌, Bool, true, false, Option, some, List, [], ◌∷◌,
  ◌++◌, arith,
}
use net_node_gateway.Prelude.Text.{codes}
use net_node_gateway.Types.{Severity, debug, info, warn, alarm, fatal}
use net_node_gateway.Gateway.Config.{GatewayConfig, default_config}
use net_node_gateway.Programs.{parsed, with_number, parse_log_level, gateway_options}

abbrev pub level_name : Severity → List ℕ
level_name debug = codes "DEBUG"
level_name info = codes "INFO"
level_name warn = codes "WARN"
level_name alarm = codes "ALARM"
level_name Severity.error = codes "ERROR"
level_name fatal = codes "FATAL"

parse_log_level-level_name : (level : Severity) → parse_log_level (level_name level) ≡ level
unfolding parse_log_level
parse_log_level-level_name debug = refl
parse_log_level-level_name info = refl
parse_log_level-level_name warn = refl
parse_log_level-level_name alarm = refl
parse_log_level-level_name Severity.error = refl
parse_log_level-level_name fatal = refl

abbrev pub crc_option : Bool → List ℕ
crc_option true = codes "--crc"
crc_option false = codes "--no-crc"

abbrev pub record_options : Bool → List ℕ → List (List ℕ)
record_options true path = codes "--record" ∷ path ∷ []
record_options false path = []

-- The options that ask for a configuration, with the text of its port.
abbrev pub arguments : List ℕ → GatewayConfig → List (List ℕ)
arguments port config =
    (codes "--port" ∷ port ∷ crc_option config.crc_enabled ∷ [])
    ++ (record_options config.record_enabled config.record_path
        ++ (codes "--replay"
            ∷ config.replay_path
            ∷ codes "--log-level"
            ∷ level_name config.log_level
            ∷ []))

module _ (stoi : List ℕ → Option ℕ) where
  abbrev rest_of : GatewayConfig → List (List ℕ)
  rest_of config =
      crc_option config.crc_enabled
      ∷ (record_options config.record_enabled config.record_path
          ++ (codes "--replay"
              ∷ config.replay_path
              ∷ codes "--log-level"
              ∷ level_name config.log_level
              ∷ []))

  rest_options :
      (port : ℕ) (crc recording : Bool) (record_path replay_path : List ℕ) (level : Severity)
      → (recording ≡ false → record_path ≡ default_config.record_path)
      → let config : GatewayConfig = record {
        udp_port = port;
        crc_enabled = crc;
        record_enabled = recording;
        record_path = record_path;
        replay_path = replay_path;
        log_level = level;
      } in
        gateway_options stoi (rest_of config) (record default_config { udp_port = port })
        ≡ parsed config
  unfolding gateway_options
  rest_options port true true rp pp level h =
      ap
        (λ l. parsed (record {
          udp_port = port;
          crc_enabled = true;
          record_enabled = true;
          record_path = rp;
          replay_path = pp;
          log_level = l;
        }))
        (parse_log_level-level_name level)
  rest_options port false true rp pp level h =
      ap
        (λ l. parsed (record {
          udp_port = port;
          crc_enabled = false;
          record_enabled = true;
          record_path = rp;
          replay_path = pp;
          log_level = l;
        }))
        (parse_log_level-level_name level)
  rest_options port true false rp pp level h =
      ap₂
        (λ l p. parsed (record {
          udp_port = port;
          crc_enabled = true;
          record_enabled = false;
          record_path = p;
          replay_path = pp;
          log_level = l;
        }))
        (parse_log_level-level_name level) (sym (h refl))
  rest_options port false false rp pp level h =
      ap₂
        (λ l p. parsed (record {
          udp_port = port;
          crc_enabled = false;
          record_enabled = false;
          record_path = p;
          replay_path = pp;
          log_level = l;
        }))
        (parse_log_level-level_name level) (sym (h refl))

  -- A configuration is what the gateway reads from the options that ask for it, where its port is below
  -- 2 ^ 16, the text of the port is read as that number, and the path of the recording is the default
  -- one if nothing is recorded.
  pub gateway_options-arguments :
      (port : List ℕ) (config : GatewayConfig)
      → stoi port ≡ some config.udp_port
      → config.udp_port < 2 ^ 16
      → (config.record_enabled ≡ false → config.record_path ≡ default_config.record_path)
      → gateway_options stoi (arguments port config) default_config ≡ parsed config
  unfolding gateway_options
  gateway_options-arguments port config read small h =
      ap
        (λ o. with_number o (λ n.
          gateway_options stoi (rest_of config) (record default_config { udp_port = n % 2 ^ 16 })))
        read
      ∙ ap (λ n. gateway_options stoi (rest_of config) (record default_config { udp_port = n }))
          (omega arith)
      ∙ rest_options config.udp_port config.crc_enabled config.record_enabled config.record_path
          config.replay_path config.log_level h
