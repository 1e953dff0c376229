-- ===== src/Gateway/Config.antt =====
-- src/gateway/gateway.h: the configuration.
use net_node_gateway.Prelude.{ℕ, Bool, true, false, List, []}
use net_node_gateway.Prelude.Text.{codes}
use net_node_gateway.Types.{Severity, info}

pub record GatewayConfig : Type 0 where
  pub udp_port : ℕ
  pub crc_enabled : Bool
  pub record_enabled : Bool
  pub record_path : List ℕ
  pub replay_path : List ℕ
  pub log_level : Severity

abbrev pub default_config : GatewayConfig
default_config = record {
  udp_port = 5000;
  crc_enabled = true;
  record_enabled = false;
  record_path = codes "./recorded/session.bin";
  replay_path = [];
  log_level = info;
}
