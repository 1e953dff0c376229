-- ===== src/EventBus/Ids.antt =====
-- src/common/event_bus.cpp: the identifiers of subscriptions.
use net_node_gateway.Prelude.{
  ℕ, ◌+◌, ◌%◌, ◌^◌, ◌<◌, ◌≤◌, ◌≡◌, refl, true, false, List, [], ◌∷◌, ◌++◌, All, All-append, length,
  if◌then◌else◌, ◌==◌, arith,
}
use net_node_gateway.Types.{EventCategory, tracking}
use net_node_gateway.EventBus.{
  Callback, Subscription, EventBus, new_bus, subscribe, subscribe_all, unsubscribe, remove_id,
}

-- What a client may do with the bus, besides publishing.
pub data BusCall : Type 0 where
  subscribe_to : EventCategory → Callback → BusCall
  subscribe_to_all : Callback → BusCall
  leave : ℕ → BusCall

abbrev pub apply : BusCall → EventBus → EventBus
apply (subscribe_to cat cb) b = (subscribe b cat cb).1
apply (subscribe_to_all cb) b = (subscribe_all b cb).1
apply (leave sub_id) b = unsubscribe b sub_id

unfoldable pub run : List BusCall → EventBus → EventBus
run [] b = b
run (c ∷ cs) b = run cs (apply c b)

abbrev pub BelowId : ℕ → Subscription → Type 0
BelowId n s = s.id < n

-- Every identifier in use lies below the next, and they rise along the list.
abbrev pub Rising : List Subscription → Type 0
Rising [] = Unit
Rising (s ∷ subs) = All (λ t. s.id < t.id) subs × Rising subs

abbrev pub IsWellNumbered : EventBus → Type 0
IsWellNumbered b = All (BelowId b.next_id) b.subs × Rising b.subs

below_mono :
    (n m : ℕ) (subs : List Subscription) → n ≤ m → All (BelowId n) subs → All (BelowId m) subs
below_mono n m [] k h = tt
below_mono n m (s ∷ subs) k (p, h) = (omega arith, below_mono n m subs k h)

Rising-append :
    (subs : List Subscription) (s : Subscription)
    → All (BelowId s.id) subs
    → Rising subs
    → Rising (subs ++ s ∷ [])
Rising-append [] s h r = (tt, tt)
Rising-append (t ∷ subs) s (p, h) (a, r) =
    (All-append (λ u. t.id < u.id) subs (s ∷ []) a (p, tt), Rising-append subs s h r)

All-remove_id {ℓ} :
    (P : Subscription → Type ℓ) (i : ℕ) (subs : List Subscription)
    → All P subs
    → All P (remove_id i subs)
unfolding remove_id
All-remove_id P i [] h = h
All-remove_id P i (s ∷ subs) (p, h) =
    elim (s.id == i) as (λ b. All P (if b then remove_id i subs else s ∷ remove_id i subs)) [
      | true ↦ All-remove_id P i subs h
      | false ↦ (p, All-remove_id P i subs h)
    ]

Rising-remove_id : (i : ℕ) (subs : List Subscription) → Rising subs → Rising (remove_id i subs)
unfolding remove_id
Rising-remove_id i [] r = r
Rising-remove_id i (s ∷ subs) (a, r) =
    elim (s.id == i) as (λ b. Rising (if b then remove_id i subs else s ∷ remove_id i subs)) [
      | true ↦ Rising-remove_id i subs r
      | false ↦ (All-remove_id (λ t. s.id < t.id) i subs a, Rising-remove_id i subs r)
    ]

-- the state after a subscription
added-IsWellNumbered :
    (n : ℕ) (subs : List Subscription) (s : Subscription)
    → s.id ≡ n
    → n + 1 < 2 ^ 32
    → All (BelowId n) subs
    → Rising subs
    → All (BelowId ((n + 1) % 2 ^ 32)) (subs ++ s ∷ []) × Rising (subs ++ s ∷ [])
added-IsWellNumbered n subs s e k h r =
    let below = below_mono n ((n + 1) % 2 ^ 32) subs (omega arith) h in
    (
      All-append (BelowId ((n + 1) % 2 ^ 32)) subs (s ∷ []) below (omega arith, tt),
      Rising-append subs s (below_mono n s.id subs (omega arith) h) r,
    )

apply-IsWellNumbered :
    (c : BusCall) (b : EventBus)
    → b.next_id + 1 < 2 ^ 32
    → IsWellNumbered b
    → IsWellNumbered (apply c b) × ((apply c b).next_id ≤ b.next_id + 1)
unfolding subscribe subscribe_all unsubscribe
apply-IsWellNumbered (subscribe_to cat cb) b k (h, r) = (
  added-IsWellNumbered b.next_id b.subs
      (record { id = b.next_id; category = cat; all_categories = false; cb = cb }) refl k h r,
  omega arith,
)
apply-IsWellNumbered (subscribe_to_all cb) b k (h, r) = (
  added-IsWellNumbered b.next_id b.subs
      (record { id = b.next_id; category = tracking; all_categories = true; cb = cb }) refl k h r,
  omega arith,
)
apply-IsWellNumbered (leave sub_id) b k (h, r) = (
  (All-remove_id (BelowId b.next_id) sub_id b.subs h, Rising-remove_id sub_id b.subs r),
  omega arith,
)

run-IsWellNumbered :
    (cs : List BusCall) (b : EventBus)
    → b.next_id + length cs < 2 ^ 32
    → IsWellNumbered b
    → IsWellNumbered (run cs b)
unfolding run
run-IsWellNumbered [] b k h = h
run-IsWellNumbered (c ∷ cs) b k h =
    let (h', k') = apply-IsWellNumbered c b (omega arith) h in
    run-IsWellNumbered cs (apply c b) (omega arith) h'

remove_id-append :
    (n : ℕ) (subs : List Subscription) (s : Subscription)
    → All (BelowId n) subs
    → s.id ≡ n
    → remove_id n (subs ++ s ∷ []) ≡ subs
unfolding remove_id
remove_id-append n [] s h e = ground arith
remove_id-append n (t ∷ subs) s (p, h) e = ground (arith, remove_id-append n subs s h e)

-- After any calls of a client on a new bus, fewer than 2 ^ 32 - 1 of them, the identifier that a
-- subscription returns is its own: unsubscribing it leaves the subscriptions as they were before.
pub unsubscribe-subscribe :
    (cs : List BusCall) (cat : EventCategory) (cb : Callback)
    → length cs + 1 < 2 ^ 32
    → (let (i, b) = subscribe (run cs new_bus) cat cb in (unsubscribe b i).subs)
      ≡ (run cs new_bus).subs
unfolding subscribe unsubscribe
unsubscribe-subscribe cs cat cb k =
    remove_id-append (run cs new_bus).next_id (run cs new_bus).subs
      (record { id = (run cs new_bus).next_id; category = cat; all_categories = false; cb = cb })
      (run-IsWellNumbered cs new_bus (omega arith) (tt, tt)).0 refl
