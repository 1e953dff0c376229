-- ===== src/Commands.antt =====
-- src/control_node/command_handler.cpp and command_handler.h: the commands of the control plane. A
-- `std::string` is the list of its character codes. The handler shares the statistics and the
-- logger with the rest of the process: the statistics are an argument, the logger's level is kept
-- beside the handler's own fields.
pub mod Text
pub mod Config
pub mod Replies
pub mod Settings
mod Examples
use net_node_gateway.Prelude.{
  ℕ, Bool, true, false, Option, none, some, List, [], ◌∷◌, ◌++◌, ◌==◌, if◌then◌else◌, map,
}
use net_node_gateway.Prelude.Text.{codes, text_eq, decimal}
use net_node_gateway.Types.{Severity, debug, info, warn, alarm, error, fatal}
use net_node_gateway.Stats.{
  StatsManager, HealthState, ok, degraded, GlobalStats, get_health, get_global_stats,
}
use Text.{
  to_upper, upper, first_word, after_word, first_line, trim_front, trim, before_eq, after_eq,
  has_eq,
}
use Config.{TextMap, lookup, assign}

pub record CommandHandler : Type 0 where
  pub config : TextMap
  pub crc_enabled : Bool
  pub log_level : Severity

abbrev pub Reply : Type 0
Reply = List ℕ × CommandHandler

abbrev pub new_handler : Severity → CommandHandler
new_handler level = record { config = []; crc_enabled = true; log_level = level }

abbrev pub health_reply : HealthState → List ℕ
health_reply ok = codes "HEALTH OK"
health_reply degraded = codes "HEALTH DEGRADED"
health_reply HealthState.error = codes "HEALTH ERROR"

abbrev pub line : List ℕ → ℕ → List ℕ
line name n = name ++ decimal n

abbrev pub stats_reply : GlobalStats → List ℕ
stats_reply g =
    codes "STATS\n"
    ++ line (codes "rx_total=") g.rx_total
    ++ codes "\n"
    ++ line (codes "malformed_total=") g.malformed_total
    ++ codes "\n"
    ++ line (codes "gap_total=") g.gap_total
    ++ codes "\n"
    ++ line (codes "reorder_total=") g.reorder_total
    ++ codes "\n"
    ++ line (codes "duplicate_total=") g.duplicate_total
    ++ codes "\n"
    ++ line (codes "crc_fail_total=") g.crc_fail_total

unfoldable pub handle_get : StatsManager → List ℕ → List ℕ
handle_get stats args =
    let what = upper args in
    if text_eq what (codes "HEALTH")
    then health_reply (get_health stats)
    else if text_eq what (codes "STATS")
    then stats_reply (get_global_stats stats)
    else codes "ERR UNKNOWN_COMMAND"

-- The chain of tests for `LOG_LEVEL`; `none` is the last `else`.
abbrev pub level_of : List ℕ → Option Severity
level_of val_upper =
    if text_eq val_upper (codes "DEBUG")
    then some debug
    else if text_eq val_upper (codes "INFO")
    then some info
    else if text_eq val_upper (codes "WARN")
    then some warn
    else if text_eq val_upper (codes "ALARM")
    then some alarm
    else if text_eq val_upper (codes "ERROR")
    then some Severity.error
    else if text_eq val_upper (codes "FATAL")
    then some fatal
    else none

abbrev pub store_level : CommandHandler → List ℕ → List ℕ → Option Severity → Reply
store_level h key val_upper none = (codes "ERR INVALID_LOG_LEVEL", h)
store_level h key val_upper (some level) = (
  codes "OK LOG_LEVEL=" ++ val_upper,
  record h { config = assign key val_upper h.config; log_level = level },
)

unfoldable pub set_log_level : CommandHandler → List ℕ → List ℕ → Reply
set_log_level h key value =
    let val_upper = upper value in store_level h key val_upper (level_of val_upper)

unfoldable pub set_crc : CommandHandler → List ℕ → List ℕ → Reply
set_crc h key value =
    let val_upper = upper value in
    if text_eq val_upper (codes "ON")
    then (
      codes "OK CRC=ON",
      record h { config = assign key (codes "ON") h.config; crc_enabled = true },
    )
    else if text_eq val_upper (codes "OFF")
    then (
      codes "OK CRC=OFF",
      record h { config = assign key (codes "OFF") h.config; crc_enabled = false },
    )
    else (codes "ERR INVALID_CRC_VALUE", h)

unfoldable pub set_other : CommandHandler → List ℕ → List ℕ → Reply
set_other h key value =
    (codes "OK " ++ key ++ codes "=" ++ value, record h { config = assign key value h.config })

unfoldable pub handle_set : CommandHandler → List ℕ → Reply
unfolding set_log_level set_crc set_other
handle_set h args =
    if has_eq args
    then (let key = upper (trim (before_eq args)) in
        let value = trim (after_eq args) in
        if text_eq key (codes "LOG_LEVEL")
        then set_log_level h key value
        else if text_eq key (codes "CRC")
        then set_crc h key value
        else set_other h key value)
    else (codes "ERR INVALID_SET_SYNTAX", h)

unfoldable pub handle : StatsManager → CommandHandler → List ℕ → Reply
unfolding handle_get handle_set
handle stats h [] = (codes "ERR EMPTY_COMMAND", h)
handle stats h (c ∷ command) =
    let verb = upper (first_word (c ∷ command)) in
    let rest = trim_front (first_line (after_word (c ∷ command))) in
    if text_eq verb (codes "GET")
    then (handle_get stats rest, h)
    else if text_eq verb (codes "SET")
    then handle_set h rest
    else (codes "ERR UNKNOWN_COMMAND", h)

unfoldable pub get_config : CommandHandler → List ℕ → List ℕ
get_config h key = lookup key h.config
