-- ===== src/Logger.antt =====
-- src/common/logger.cpp and logger.h: the lines of the log. The stream is what has been written to
-- it, and `none` where no stream is set; the process holds one logger.
pub mod Lines
mod Examples
use net_node_gateway.Prelude.{
  repeat, ℕ, zero, suc, ◌-◌, List, [], ◌∷◌, ◌++◌, Option, none, some, length, take, min, ltb, ◌==◌,
  if◌then◌else◌,
}
use net_node_gateway.Prelude.Text.{codes, decimal}
use net_node_gateway.Types.{
  Severity, debug, info, warn, alarm, error, fatal, severity_value, EventCategory, tracking, threat,
  iff, engagement, network, health, control,
}

abbrev pub severity_str : Severity → List ℕ
severity_str debug = codes "DEBUG"
severity_str info = codes "INFO "
severity_str warn = codes "WARN "
severity_str alarm = codes "ALARM"
severity_str error = codes "ERROR"
severity_str fatal = codes "FATAL"

abbrev pub category_str : EventCategory → List ℕ
category_str tracking = codes "TRACKING  "
category_str threat = codes "THREAT    "
category_str iff = codes "IFF       "
category_str engagement = codes "ENGAGEMENT"
category_str network = codes "NETWORK   "
category_str health = codes "HEALTH    "
category_str control = codes "CONTROL   "

-- What the wall clock gives: the text of `put_time`, and the milliseconds.
pub record Stamp : Type 0 where
  pub date : List ℕ
  pub ms : ℕ

pub record Logger : Type 0 where
  pub level : Severity
  pub out : Option (List ℕ)

-- The stream is `std::cout` at first.
abbrev pub new_logger : Logger
new_logger = record { level = info; out = some [] }

unfoldable pub set_level : Logger → Severity → Logger
set_level l level = record l { level = level }

unfoldable pub get_level : Logger → Severity
get_level l = l.level

unfoldable pub set_output : Logger → List ℕ → Logger
set_output l os = record l { out = some os }

-- `evt_buf`: the first 20 characters of the name over 20 blanks
unfoldable pub evt_buf : List ℕ → List ℕ
evt_buf event_name =
    let name_len = min 20 (length event_name) in
    take name_len event_name ++ repeat (20 - name_len) b' '

-- What `<<` writes of an array of characters: those before the first NUL.
unfoldable pub c_string : List ℕ → List ℕ
c_string [] = []
c_string (c ∷ cs) = let rest = c_string cs in if c == 0 then [] else c ∷ rest

-- `setfill('0') << setw(3)`
unfoldable pub three_digits : ℕ → List ℕ
three_digits n = repeat (3 - length (decimal n)) b'0' ++ decimal n

unfoldable pub log_line : Stamp → Severity → EventCategory → List ℕ → List ℕ → List ℕ
unfolding evt_buf c_string three_digits
log_line t sev cat event_name detail =
    t.date
    ++ codes "."
    ++ three_digits t.ms
    ++ codes "Z"
    ++ codes " ["
    ++ severity_str sev
    ++ codes "] "
    ++ codes "["
    ++ category_str cat
    ++ codes "] "
    ++ c_string (evt_buf event_name)
    ++ detail
    ++ codes "\n"

module _ {ℓ} {W : Type ℓ} (wall_now : W → Stamp × W) where
  unfoldable pub log : Logger → W → Severity → EventCategory → List ℕ → List ℕ → Logger × W
  unfolding log_line
  log l w sev cat event_name detail =
      if ltb (severity_value sev) (severity_value l.level) then (l, w) else elim l.out [
        | none ↦ (l, w)
        | some written ↦
            (let (t, w') = wall_now w in
              (record l { out = some (written ++ log_line t sev cat event_name detail) }, w'))
      ]
