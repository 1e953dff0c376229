-- ===== src/EventBus.antt =====
-- src/common/event_bus.cpp and event_bus.h: the subscriptions and the delivery of events. A
-- callback is named by a number, and `invoke` says what a call of it does to the bus and to the
-- world outside, so a callback may use the bus again. Each method locks the mutex for its step.
pub mod Delivery
pub mod Ids
mod Examples
use net_node_gateway.Prelude.{
  ℕ, ◌+◌, ◌%◌, ◌^◌, Bool, true, false, ◌||◌, List, [], ◌∷◌, ◌++◌, ◌==◌, if◌then◌else◌,
}
use net_node_gateway.Types.{EventId, EventCategory, Severity, tracking, event_category_value}

pub record EventRecord : Type 0 where
  pub id : EventId
  pub category : EventCategory
  pub severity : Severity
  pub timestamp_ns : ℕ
  pub detail : List ℕ

abbrev pub Callback : Type 0
Callback = ℕ

pub record Subscription : Type 0 where
  pub id : ℕ
  pub category : EventCategory
  pub all_categories : Bool
  pub cb : Callback

pub record EventBus : Type 0 where
  pub subs : List Subscription
  pub next_id : ℕ

abbrev pub new_bus : EventBus
new_bus = record { subs = []; next_id = 1 }

abbrev add_subscription : EventBus → EventCategory → Bool → Callback → ℕ × EventBus
add_subscription b cat all_categories cb = (
  b.next_id,
  record {
    subs =
        b.subs
        ++ record { id = b.next_id; category = cat; all_categories = all_categories; cb = cb } ∷ [];
    next_id = (b.next_id + 1) % 2 ^ 32;
  },
)

unfoldable pub subscribe : EventBus → EventCategory → Callback → ℕ × EventBus
subscribe b cat cb = add_subscription b cat false cb

unfoldable pub subscribe_all : EventBus → Callback → ℕ × EventBus
subscribe_all b cb = add_subscription b tracking true cb

unfoldable pub remove_id : ℕ → List Subscription → List Subscription
remove_id sub_id [] = []
remove_id sub_id (s ∷ subs) =
    if s.id == sub_id then remove_id sub_id subs else s ∷ remove_id sub_id subs

unfoldable pub unsubscribe : EventBus → ℕ → EventBus
unfolding remove_id
unsubscribe b sub_id = record b { subs = remove_id sub_id b.subs }

abbrev pub matches : Subscription → EventRecord → Bool
matches s event =
    s.all_categories || event_category_value s.category == event_category_value event.category

-- `to_call`, filled while the lock is held
unfoldable pub to_call : List Subscription → EventRecord → List Callback
to_call [] event = []
to_call (s ∷ subs) event = if matches s event then s.cb ∷ to_call subs event else to_call subs event

module _ {ℓ} {W : Type ℓ} (invoke : Callback → EventRecord → EventBus × W → EventBus × W) where
  unfoldable pub call_each : List Callback → EventRecord → EventBus × W → EventBus × W
  call_each [] event st = st
  call_each (cb ∷ cbs) event st = call_each cbs event (invoke cb event st)

  unfoldable pub publish : EventRecord → EventBus × W → EventBus × W
  unfolding call_each to_call
  publish event (b, w) = call_each (to_call b.subs event) event (b, w)
