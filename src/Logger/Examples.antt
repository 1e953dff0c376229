-- ===== src/Logger/Examples.antt =====
-- A line of the log.
use net_node_gateway.Prelude.{◌≡◌, refl, ◌++◌, length, drop, arith}
use net_node_gateway.Prelude.Text.{codes, decimal}
use net_node_gateway.Types.{info, tracking}
use net_node_gateway.Logger.{Stamp, log_line, evt_buf, c_string, three_digits}
use net_node_gateway.Logger.Lines.{log_line-columns}

abbrev noon : Stamp
noon = record { date = codes "2025-07-15T12:00:00"; ms = 1 }

line_of_track :
    log_line noon info tracking (codes "EVT_TRACK_NEW") (codes "src_id=1")
    ≡ codes "2025-07-15T12:00:00.001Z [INFO ] [TRACKING  ] EVT_TRACK_NEW       src_id=1\n"
unfolding log_line evt_buf c_string three_digits decimal
line_of_track = refl

log_line-columns_example :
    (drop 46 (log_line noon info tracking (codes "EVT_TRACK_NEW") (codes "src_id=1"))
      ≡ evt_buf (codes "EVT_TRACK_NEW") ++ (codes "src_id=1" ++ codes "\n"))
    × (drop 66 (log_line noon info tracking (codes "EVT_TRACK_NEW") (codes "src_id=1"))
        ≡ codes "src_id=1" ++ codes "\n")
    × (length (log_line noon info tracking (codes "EVT_TRACK_NEW") (codes "src_id=1")) ≡ 75)
log_line-columns_example =
    log_line-columns noon info tracking (codes "EVT_TRACK_NEW") (codes "src_id=1") (omega arith)
      (ground arith)

-- A name of 21 characters loses its last one and the blank behind it.
line_of_degrade :
    log_line noon info tracking (codes "EVT_HEARTBEAT_DEGRADE") (codes "subsystem=1")
    ≡ codes "2025-07-15T12:00:00.001Z [INFO ] [TRACKING  ] EVT_HEARTBEAT_DEGRADsubsystem=1\n"
unfolding log_line evt_buf c_string three_digits decimal
line_of_degrade = refl
