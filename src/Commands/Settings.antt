-- ===== src/Commands/Settings.antt =====
-- src/control_node/command_handler.cpp: the settings that SET stores and get_config reads.
use net_node_gateway.Prelude.{
  ℕ, ◌≡◌, ◌⊎◌, inr, refl, ap, ◌∙◌, sym, subst, Bool, true, false, Option, none, some, List, [], ◌∷◌,
  arith, if◌then◌else◌,
}
use net_node_gateway.Prelude.Text.{codes, text_eq, text_eq_iff, text_eq_refl}
use net_node_gateway.Types.{Severity}
use net_node_gateway.Stats.{StatsManager}
use net_node_gateway.Commands.{
  CommandHandler, Reply, handle, handle_set, set_log_level, set_crc, set_other, store_level,
  level_of, get_config,
}
use net_node_gateway.Commands.Config.{lookup, assign, lookup-assign}
use net_node_gateway.Commands.Text.{upper, first_word, has_eq, trim, before_eq, after_eq}

abbrev pub on_off : Bool → List ℕ
on_off true = codes "ON"
on_off false = codes "OFF"

-- The two settings that the handler also keeps as fields agree with the map, once they are in it:
-- "" is what the map gives for a setting that was never made.
unfoldable pub Agrees : CommandHandler → Type 0
Agrees h =
    ((get_config h (codes "CRC") ≡ []) ⊎ (get_config h (codes "CRC") ≡ on_off h.crc_enabled))
    × ((get_config h (codes "LOG_LEVEL") ≡ [])
        ⊎ (level_of (get_config h (codes "LOG_LEVEL")) ≡ some h.log_level))

Agrees-if :
    (b : Bool) (r r' : Reply)
    → (b ≡ true → Agrees r.1)
    → (b ≡ false → Agrees r'.1)
    → Agrees (if b then r else r').1
Agrees-if true r r' k k' = k refl
Agrees-if false r r' k k' = k' refl

lookup_self :
    (key value : List ℕ) (h : CommandHandler) → lookup key (assign key value h.config) ≡ value
lookup_self key value h = ground (arith, lookup-assign key key value h.config, text_eq_refl key)

lookup_other :
    (key other value : List ℕ) (h : CommandHandler)
    → text_eq key other ≡ false
    → lookup other (assign key value h.config) ≡ lookup other h.config
lookup_other key other value h e = ground (arith, lookup-assign key other value h.config)

abbrev CrcAgrees : List ℕ → Bool → Type 0
CrcAgrees text enabled = (text ≡ []) ⊎ (text ≡ on_off enabled)

abbrev LevelAgrees : List ℕ → Severity → Type 0
LevelAgrees text level = (text ≡ []) ⊎ (level_of text ≡ some level)

store_level-Agrees :
    (h : CommandHandler) (val_upper : List ℕ) (level : Option Severity)
    → level_of val_upper ≡ level
    → Agrees h
    → Agrees (store_level h (codes "LOG_LEVEL") val_upper level).1
unfolding Agrees get_config text_eq
store_level-Agrees h val_upper none e a = a
store_level-Agrees h val_upper (some level) e (a, b) = (
  subst (λ s. CrcAgrees s h.crc_enabled)
      (sym (lookup_other (codes "LOG_LEVEL") (codes "CRC") val_upper h refl)) a,
  inr (ap level_of (lookup_self (codes "LOG_LEVEL") val_upper h) ∙ e),
)

crc-Agrees :
    (h : CommandHandler) (enabled : Bool)
    → Agrees h
    → Agrees (record h {
      config = assign (codes "CRC") (on_off enabled) h.config;
      crc_enabled = enabled;
    })
unfolding Agrees get_config text_eq
crc-Agrees h enabled (a, b) = (
  inr (lookup_self (codes "CRC") (on_off enabled) h),
  subst (λ s. LevelAgrees s h.log_level)
      (sym (lookup_other (codes "CRC") (codes "LOG_LEVEL") (on_off enabled) h refl)) b,
)

set_crc-Agrees :
    (h : CommandHandler) (value : List ℕ) → Agrees h → Agrees (set_crc h (codes "CRC") value).1
unfolding set_crc
set_crc-Agrees h value a =
    Agrees-if (text_eq (upper value) (codes "ON")) _ _ (λ e. crc-Agrees h true a)
      (λ e.
        Agrees-if (text_eq (upper value) (codes "OFF")) _ _ (λ e. crc-Agrees h false a) (λ e. a))

set_other-Agrees :
    (h : CommandHandler) (key value : List ℕ)
    → text_eq key (codes "LOG_LEVEL") ≡ false
    → text_eq key (codes "CRC") ≡ false
    → Agrees h
    → Agrees (set_other h key value).1
unfolding set_other get_config Agrees
set_other-Agrees h key value e f (a, b) = (
  subst (λ s. CrcAgrees s h.crc_enabled) (sym (lookup_other key (codes "CRC") value h f)) a,
  subst (λ s. LevelAgrees s h.log_level) (sym (lookup_other key (codes "LOG_LEVEL") value h e)) b,
)

handle_set-Agrees : (h : CommandHandler) (args : List ℕ) → Agrees h → Agrees (handle_set h args).1
unfolding handle_set set_log_level
handle_set-Agrees h args a =
    let key = upper (trim (before_eq args)) in
    let value = trim (after_eq args) in
    Agrees-if (has_eq args) _ _
      (λ yes.
        Agrees-if (text_eq key (codes "LOG_LEVEL")) _ _
          (λ e.
            subst (λ k. Agrees (set_log_level h k value).1)
              (sym ((text_eq_iff key (codes "LOG_LEVEL")).0 e))
              (store_level-Agrees h (upper value) (level_of (upper value)) refl a))
          (λ e.
            Agrees-if (text_eq key (codes "CRC")) _ _
              (λ f.
                subst (λ k. Agrees (set_crc h k value).1)
                  (sym ((text_eq_iff key (codes "CRC")).0 f)) (set_crc-Agrees h value a))
              (λ f. set_other-Agrees h key value e f a)))
      (λ no. a)

-- Whatever the command, the map and the two fields that the handler keeps beside it stay in
-- agreement: what `get_config` answers for CRC is nothing yet or the text of the flag, and what it
-- answers for LOG_LEVEL is nothing yet or a text of the logger's level.
pub handle-Agrees :
    (stats : StatsManager) (h : CommandHandler) (command : List ℕ)
    → Agrees h
    → Agrees (handle stats h command).1
unfolding handle
handle-Agrees stats h [] a = a
handle-Agrees stats h (c ∷ command) a =
    let verb = upper (first_word (c ∷ command)) in
    Agrees-if (text_eq verb (codes "GET")) _ _ (λ e. a)
      (λ e. Agrees-if (text_eq verb (codes "SET")) _ _ (λ e. handle_set-Agrees h _ a) (λ e. a))

-- A setting other than LOG_LEVEL and CRC is a plain store: with an `=` in its arguments, SET stores
-- the trimmed text behind it under the trimmed and upper-cased key before it, and what `get_config`
-- answers for every other key stays.
pub get_config-handle_set :
    (h : CommandHandler) (args other : List ℕ)
    → has_eq args ≡ true
    → text_eq (upper (trim (before_eq args))) (codes "LOG_LEVEL") ≡ false
    → text_eq (upper (trim (before_eq args))) (codes "CRC") ≡ false
    → get_config (handle_set h args).1 other ≡ (
        if text_eq (upper (trim (before_eq args))) other
        then trim (after_eq args)
        else get_config h other)
unfolding handle_set set_other get_config
get_config-handle_set h args other e f g =
    ground
      (arith, lookup-assign (upper (trim (before_eq args))) other (trim (after_eq args)) h.config)
