-- ===== src/Commands/Replies.antt =====
-- src/control_node/command_handler.cpp: replies, and what they say about the state.
use net_node_gateway.Prelude.{
  ℕ, ◌≡◌, refl, Bool, true, false, Option, none, some, List, [], take, ◌∷◌, arith, if◌then◌else◌,
}
use net_node_gateway.Prelude.Text.{codes, text_eq}
use net_node_gateway.Types.{Severity}
use net_node_gateway.Stats.{StatsManager}
use net_node_gateway.Commands.{
  CommandHandler, Reply, handle, handle_set, set_log_level, set_crc, set_other, store_level,
  level_of,
}
use net_node_gateway.Commands.Text.{
  upper, first_word, has_eq, trim, before_eq, after_eq, after_word, first_line, trim_front,
}

abbrev pub is_error : List ℕ → Bool
is_error reply = text_eq (take 4 reply) (codes "ERR ")

-- A reply that is an error leaves the handler as it was.
ErrorKeeps : CommandHandler → Reply → Type 0
ErrorKeeps h r = is_error r.0 ≡ true → r.1 ≡ h

choose :
    (h : CommandHandler) (b : Bool) (r r' : Reply)
    → ErrorKeeps h r
    → ErrorKeeps h r'
    → ErrorKeeps h (if b then r else r')
choose h true r r' k k' = k
choose h false r r' k k' = k'

never : (h : CommandHandler) (r : Reply) → is_error r.0 ≡ false → ErrorKeeps h r
unfolding ErrorKeeps
never h r n e = ground arith

same : (h : CommandHandler) (reply : List ℕ) → ErrorKeeps h (reply, h)
unfolding ErrorKeeps
same h reply e = refl

store_level-ErrorKeeps :
    (h : CommandHandler) (key val_upper : List ℕ) (level : Option Severity)
    → ErrorKeeps h (store_level h key val_upper level)
unfolding text_eq
store_level-ErrorKeeps h key val_upper none = same h _
store_level-ErrorKeeps h key val_upper (some level) = never h _ refl

set_log_level-ErrorKeeps :
    (h : CommandHandler) (key value : List ℕ) → ErrorKeeps h (set_log_level h key value)
unfolding set_log_level
set_log_level-ErrorKeeps h key value =
    store_level-ErrorKeeps h key (upper value) (level_of (upper value))

set_crc-ErrorKeeps : (h : CommandHandler) (key value : List ℕ) → ErrorKeeps h (set_crc h key value)
unfolding set_crc text_eq
set_crc-ErrorKeeps h key value =
    choose h (text_eq (upper value) (codes "ON")) _ _ (never h _ refl)
      (choose h (text_eq (upper value) (codes "OFF")) _ _ (never h _ refl) (same h _))

set_other-ErrorKeeps :
    (h : CommandHandler) (key value : List ℕ) → ErrorKeeps h (set_other h key value)
unfolding set_other text_eq
set_other-ErrorKeeps h key value = never h _ refl

handle_set-ErrorKeeps : (h : CommandHandler) (args : List ℕ) → ErrorKeeps h (handle_set h args)
unfolding handle_set
handle_set-ErrorKeeps h args =
    let key = upper (trim (before_eq args)) in
    let value = trim (after_eq args) in
    choose h (has_eq args) _ _
      (choose h (text_eq key (codes "LOG_LEVEL")) _ _ (set_log_level-ErrorKeeps h key value) (
        choose h (text_eq key (codes "CRC")) _ _ (set_crc-ErrorKeeps h key value)
          (set_other-ErrorKeeps h key value)))
      (same h _)

handle-ErrorKeeps :
    (stats : StatsManager) (h : CommandHandler) (command : List ℕ)
    → ErrorKeeps h (handle stats h command)
unfolding handle
handle-ErrorKeeps stats h [] = same h _
handle-ErrorKeeps stats h (c ∷ command) =
    let verb = upper (first_word (c ∷ command)) in
    choose h (text_eq verb (codes "GET")) _ _ (same h _) (
      choose h (text_eq verb (codes "SET")) _ _
        (handle_set-ErrorKeeps h (trim_front (first_line (after_word (c ∷ command))))) (same h _))

-- A command whose reply begins with `ERR ` leaves the handler as it was, whatever the command.
pub handle-error :
    (stats : StatsManager) (h : CommandHandler) (command : List ℕ)
    → is_error (handle stats h command).0 ≡ true
    → (handle stats h command).1 ≡ h
unfolding ErrorKeeps
handle-error = handle-ErrorKeeps

-- Only a command whose first word is `SET`, in any case of its letters, can change the handler.
pub handle-not_set :
    (stats : StatsManager) (h : CommandHandler) (command : List ℕ)
    → text_eq (upper (first_word command)) (codes "SET") ≡ false
    → (handle stats h command).1 ≡ h
unfolding handle
handle-not_set stats h [] e = refl
handle-not_set stats h (c ∷ command) e = ground arith
