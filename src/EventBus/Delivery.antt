-- ===== src/EventBus/Delivery.antt =====
-- src/common/event_bus.cpp: whom an event reaches.
use net_node_gateway.Prelude.{
  ℕ, true, ◌≡◌, refl, ap, ◌∙◌, ◌⊎◌, inl, inr, Bool-cases, ◌==◌, if◌then◌else◌, List, [], ◌∷◌, ◌++◌,
  append_assoc, append-nil, sym, arith,
}
use net_node_gateway.Types.{
  EventCategory, tracking, threat, iff, network, health, control, event_category_value,
}
use net_node_gateway.EventBus.{
  EventRecord, Callback, Subscription, EventBus, matches, to_call, call_each, publish,
}

pub to_call-append :
    (xs ys : List Subscription) (event : EventRecord)
    → to_call (xs ++ ys) event ≡ to_call xs event ++ to_call ys event
unfolding to_call
to_call-append [] ys event = refl
to_call-append (s ∷ xs) ys event = ground (arith, to_call-append xs ys event)

-- A subscription to everything, or to the category of the event.
abbrev pub Wants : Subscription → EventRecord → Type 0
Wants s event = (s.all_categories ≡ true) ⊎ (s.category ≡ event.category)

-- The calls that an event is owed: one for each subscription that wants it, in their order.
pub data Delivered (event : EventRecord)
    : List Subscription → List (Callback × EventRecord) → Type 0 where
  nobody : Delivered event [] []
  wanted :
      (s : Subscription) {subs : List Subscription} {calls : List (Callback × EventRecord)}
      → Wants s event
      → Delivered event subs calls
      → Delivered event (s ∷ subs) ((s.cb, event) ∷ calls)
  unwanted :
      (s : Subscription) {subs : List Subscription} {calls : List (Callback × EventRecord)}
      → ¬ Wants s event
      → Delivered event subs calls
      → Delivered event (s ∷ subs) calls

category_of : ℕ → EventCategory
category_of n =
    if n == 0
    then tracking
    else if n == 1
    then threat
    else if n == 2
    then iff
    else if n == 3
    then EventCategory.engagement
    else if n == 4
    then network
    else if n == 5
    then health
    else control

category_of-event_category_value : (c : EventCategory) → category_of (event_category_value c) ≡ c
unfolding category_of
category_of-event_category_value tracking = refl
category_of-event_category_value threat = refl
category_of-event_category_value iff = refl
category_of-event_category_value EventCategory.engagement = refl
category_of-event_category_value network = refl
category_of-event_category_value health = refl
category_of-event_category_value control = refl

same_category : (c d : EventCategory) → event_category_value c ≡ event_category_value d → c ≡ d
same_category c d e =
    sym (category_of-event_category_value c) ∙ ap category_of e ∙ category_of-event_category_value d

matches-Wants : (s : Subscription) (event : EventRecord) → matches s event ≡ true → Wants s event
matches-Wants s event h = elim (Bool-cases s.all_categories) [
  | inl e ↦ inl e
  | inr e ↦ inr (same_category s.category event.category (ground arith))
]

Wants-matches : (s : Subscription) (event : EventRecord) → Wants s event → matches s event ≡ true
Wants-matches s event (inl e) = ground arith
Wants-matches s event (inr e) = let same = ap event_category_value e in ground arith

module _ {ℓ} {W : Type ℓ} (invoke : Callback → EventRecord → EventBus × W → EventBus × W) where
  -- `invoke` with a log of the calls beside the world
  abbrev pub logged :
      Callback
      → EventRecord
      → EventBus × (W × List (Callback × EventRecord))
      → EventBus × (W × List (Callback × EventRecord))
  logged cb event (b, (w, log)) =
      let (b', w') = invoke cb event (b, w) in (b', (w', log ++ (cb, event) ∷ []))

  -- the calls of one publication
  unfoldable pub calls : List Callback → EventRecord → List (Callback × EventRecord)
  calls [] event = []
  calls (cb ∷ cbs) event = (cb, event) ∷ calls cbs event

  call_each-log :
      (cbs : List Callback) (event : EventRecord) (b : EventBus) (w : W)
      (log : List (Callback × EventRecord))
      → (call_each logged cbs event (b, (w, log))).1.1 ≡ log ++ calls cbs event
  unfolding call_each calls
  call_each-log [] event b w log = sym (append-nil log)
  call_each-log (cb ∷ cbs) event b w log =
      call_each-log cbs event (invoke cb event (b, w)).0 (invoke cb event (b, w)).1
        (log ++ (cb, event) ∷ [])
      ∙ append_assoc log ((cb, event) ∷ []) (calls cbs event)

  calls-Delivered :
      (subs : List Subscription) (event : EventRecord)
      → Delivered event subs (calls (to_call subs event) event)
  unfolding to_call calls
  calls-Delivered [] event = nobody
  calls-Delivered (s ∷ subs) event = elim (Bool-cases (matches s event)) [
    | inl e ↦ rw e (wanted s (matches-Wants s event e) (calls-Delivered subs event))
    | inr e ↦
        rw e
          (unwanted s (λ h. absurd (cc (Wants-matches s event h, e))) (calls-Delivered subs event))
  ]

  -- Whatever the callbacks do to the bus while they run, a publication makes exactly the calls that the
  -- event is owed by the subscriptions there were when it began: one call for each that wants the event,
  -- in the order of subscription, and no other. A subscription wants an event if it is to everything or
  -- to its category.
  pub publish-log :
      (event : EventRecord) (b : EventBus) (w : W) (log : List (Callback × EventRecord))
      → (made : List (Callback × EventRecord)) × ((publish logged event (b, (w, log))).1.1
          ≡ log ++ made)
        × Delivered event b.subs made
  unfolding publish
  publish-log event b w log = (
    calls (to_call b.subs event) event,
    call_each-log (to_call b.subs event) event b w log,
    calls-Delivered b.subs event,
  )
