-- ===== src/EventBus/Examples.antt =====
-- A bus with two subscribers, of which one subscribes another while it is called.
use net_node_gateway.Prelude.{ℕ, ◌+◌, ◌≡◌, refl, List, [], ◌∷◌, ◌++◌, arith}
use net_node_gateway.Types.{tracking, network, info, source_online}
use net_node_gateway.EventBus.{
  EventRecord, EventBus, Callback, new_bus, subscribe, subscribe_all, unsubscribe, to_call, publish,
}
use net_node_gateway.EventBus.Delivery.{logged, Delivered, publish-log}
use net_node_gateway.EventBus.Ids.{
  BusCall, subscribe_to, subscribe_to_all, leave, run, unsubscribe-subscribe,
}

abbrev online : EventRecord
online = record {
  id = source_online;
  category = network;
  severity = info;
  timestamp_ns = 0;
  detail = [];
}

-- Every callback subscribes callback 9 to everything, and counts itself.
abbrev greedy : Callback → EventRecord → EventBus × ℕ → EventBus × ℕ
greedy cb event (b, n) = ((subscribe_all b 9).1, n + 1)

abbrev history : List BusCall
history = subscribe_to network 4 ∷ subscribe_to tracking 5 ∷ subscribe_to_all 6 ∷ leave 2 ∷ []

reached : to_call (run history new_bus).subs online ≡ 4 ∷ 6 ∷ []
unfolding run subscribe subscribe_all unsubscribe to_call
reached = refl

publish-log_example :
    (made : List (Callback × EventRecord)) × ((publish
        (logged greedy)
        online
        (run history new_bus, (0, []))).1.1
      ≡ [] ++ made)
    × Delivered online (run history new_bus).subs made
publish-log_example = publish-log greedy online (run history new_bus) 0 []

unsubscribe-subscribe_example :
    (let (i, b) = subscribe (run history new_bus) network 7 in (unsubscribe b i).subs)
    ≡ (run history new_bus).subs
unsubscribe-subscribe_example = unsubscribe-subscribe history network 7 (omega arith)
