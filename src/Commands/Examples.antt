-- ===== src/Commands/Examples.antt =====
-- Commands at concrete values.
use net_node_gateway.Prelude.{◌≡◌, refl, inl, true, [], ◌∷◌, if◌then◌else◌}
use net_node_gateway.Prelude.Text.{codes, text_eq}
use net_node_gateway.Types.{info, debug}
use net_node_gateway.Stats.{empty_stats, get_health}
use net_node_gateway.Commands.{CommandHandler, new_handler, handle, handle_set, get_config}
use net_node_gateway.Commands.Text.{
  upper, trim, trim_front, trim_back, before_eq, after_eq, has_eq, take_while, drop_while,
  first_word, after_word, first_line,
}
use net_node_gateway.Commands.Config.{lookup, assign}
use net_node_gateway.Commands.Replies.{handle-error}
use net_node_gateway.Commands.Settings.{Agrees, handle-Agrees, get_config-handle_set}

abbrev fresh : CommandHandler
fresh = new_handler info

set_level_reply : handle empty_stats fresh (codes " set  log_level = debug ") ≡ (
  codes "OK LOG_LEVEL=DEBUG",
  record {
    config = (codes "LOG_LEVEL", codes "DEBUG") ∷ [];
    crc_enabled = true;
    log_level = debug;
  },
)
unfolding handle text_eq take_while drop_while upper trim trim_back before_eq after_eq has_eq
    first_word first_line after_word assign
set_level_reply = refl

get_health_reply : (handle empty_stats fresh (codes "GET health")).0 ≡ codes "HEALTH OK"
unfolding handle text_eq take_while drop_while upper trim_front first_word first_line after_word
    get_health
get_health_reply = refl

handle-error_example : (handle empty_stats fresh (codes "SET CRC=maybe")).1 ≡ fresh
handle-error_example = handle-error empty_stats fresh (codes "SET CRC=maybe") (
    unfold handle text_eq take_while drop_while upper trim trim_back before_eq after_eq has_eq
      first_word first_line after_word in
    refl)

fresh-Agrees : Agrees fresh
unfolding Agrees get_config lookup
fresh-Agrees = (inl refl, inl refl)

handle-Agrees_example : Agrees (handle empty_stats fresh (codes "SET CRC=off")).1
handle-Agrees_example = handle-Agrees empty_stats fresh (codes "SET CRC=off") fresh-Agrees

get_config-handle_set_example :
    get_config (handle_set fresh (codes "name = x")).1 (codes "NAME") ≡ (
      if text_eq (upper (trim (before_eq (codes "name = x")))) (codes "NAME")
      then trim (after_eq (codes "name = x"))
      else get_config fresh (codes "NAME"))
get_config-handle_set_example =
    get_config-handle_set fresh (codes "name = x") (codes "NAME") (unfold has_eq in refl)
      (unfold text_eq take_while drop_while upper trim trim_back before_eq in refl)
      (unfold text_eq take_while drop_while upper trim trim_back before_eq in refl)
