-- ===== src/Agent/Callbacks.antt =====
-- api/agent/agent.go and the callbacks of the agent: what it sends through its client. The errors of
-- the client's sends are only logged, and the goroutines of the requests are one call each.
use update_manager.Base.{
  ℕ, zero, suc, String, true, false, ◌≡◌, refl, ap, ◌∙◌, ◌==◌, ◌||◌, not, Option, none, some, List,
  [], ◌∷◌, Eq, ℤ, is_negative, is_zero, if◌then◌else◌, string_eq, arith,
}
use text.Mathlib.Text.{starts_with}
use update_manager.Types.{
  StatusType, running, completed, incomplete, status_eq, Action, DesiredStateFeedback, DesiredState,
  DesiredStateCommand, Inventory,
}
use update_manager.Agent.FeedbackNotifier.{
  FeedbackNotifier, State, new_feedback_notifier, running_feedback,
}
use update_manager.Agent.FeedbackNotifier
use update_manager.Agent.StateNotifier.{StateNotifier, new_state_notifier}
use update_manager.Agent.StateNotifier

-- What the agent calls on its client and on its manager.
pub data Sent : Type 0 where
  current_state : String → Option Inventory → Sent
  feedback : String → DesiredStateFeedback → Sent
  watch_events : Sent
  set_callback start_client stop_client dispose : Sent
  get : String → Sent
  apply : String → DesiredState → Sent
  command : String → DesiredStateCommand → Sent

pub record UpdateAgent : Type 0 where
  pub feedback_interval : ℤ
  pub current_state_delay : ℤ
  pub feedback_notifier : Option FeedbackNotifier
  pub state_notifier : Option StateNotifier
  pub sent : List Sent

abbrev pub send : Sent → UpdateAgent → UpdateAgent
send x a = record a { sent = x ∷ a.sent }

-- HandleCurrentStateEvent: with no delay, or for an activity, at once; else when the timer fires.
unfoldable pub handle_current_state_event : String → Option Inventory → UpdateAgent → UpdateAgent
unfolding StateNotifier.stop StateNotifier.set new_state_notifier
handle_current_state_event activity_id state a =
    if is_zero a.current_state_delay
    then send (current_state activity_id state) a
    else if not (activity_id == "")
    then send (current_state activity_id state) (record a { state_notifier = none })
    else let t : StateNotifier = elim a.state_notifier [
      | none ↦ new_state_notifier a.current_state_delay
      | some t ↦ t
    ] in
      record a { state_notifier = some (StateNotifier.set activity_id state t) }

abbrev send_all : List (String × DesiredStateFeedback) → List Sent → List Sent
send_all [] sent = sent
send_all ((activity_id, f) ∷ published) sent = feedback activity_id f ∷ send_all published sent

-- A call of the feedback notifier, whose publications go to the client.
abbrev on_notifier : (State → State) → FeedbackNotifier → UpdateAgent → UpdateAgent
on_notifier f t a =
    let s = f (record { notifier = t; published = [] }) in
    record a { feedback_notifier = some s.notifier; sent = send_all s.published a.sent }

abbrev pub stop_feedback : UpdateAgent → UpdateAgent
stop_feedback a = elim a.feedback_notifier [
  | none ↦ a
  | some t ↦ on_notifier FeedbackNotifier.stop t a
]

-- Every status but RUNNING is sent at once.
unfoldable pub publish_status : String → DesiredStateFeedback → UpdateAgent → UpdateAgent
publish_status activity_id f a = send (feedback activity_id f) a

-- Then the final ones stop the notifier. No lock is held between the two, so the timer may fire there.
unfoldable pub stop_after : StatusType → UpdateAgent → UpdateAgent
unfolding FeedbackNotifier.stop
stop_after status a = if status == completed || status == incomplete then stop_feedback a else a

-- HandleDesiredStateFeedbackEvent of the agent, where the timer does not fire meanwhile; the domain's name
-- only goes to the log.
unfoldable pub handle_desired_state_feedback_event :
    String → String → StatusType → String → List Action → UpdateAgent → UpdateAgent
unfolding publish_status stop_after FeedbackNotifier.set new_feedback_notifier
handle_desired_state_feedback_event activity_id baseline status message actions a =
    if not (status == running)
    then stop_after status (
        publish_status activity_id
          (record { baseline = baseline; status = status; message = message; actions = actions }) a)
    else if is_negative a.feedback_interval || is_zero a.feedback_interval
    then a
    else elim a.feedback_notifier [
      | none ↦
          on_notifier (FeedbackNotifier.set activity_id actions)
            (new_feedback_notifier a.feedback_interval) a
      | some t ↦ on_notifier (FeedbackNotifier.set activity_id actions) t a
    ]

-- The timer of the feedback notifier fires.
module _ ⦃e : Eq (List Action)⦄ where
  unfoldable pub feedback_fires : UpdateAgent → UpdateAgent
  unfolding FeedbackNotifier.notify_event
  feedback_fires a = elim a.feedback_notifier [
    | none ↦ a
    | some t ↦ on_notifier FeedbackNotifier.notify_event t a
  ]

-- The timer of the state notifier fires.
unfoldable pub state_fires : UpdateAgent → UpdateAgent
unfolding StateNotifier.notify_event
state_fires a = elim a.state_notifier [
  | none ↦ a
  | some t ↦
      let (u, published) = StateNotifier.notify_event t in
      let b = record a { state_notifier = some u } in
      elim published [
        | none ↦ b
        | some (activity_id, state) ↦ send (current_state activity_id state) b
      ]
]

unfoldable pub stop_current_state_notifier : UpdateAgent → UpdateAgent
unfolding StateNotifier.stop
stop_current_state_notifier a = elim a.state_notifier [
  | none ↦ a
  | some t ↦ record a { state_notifier = some (StateNotifier.stop t) }
]

-- HandleCurrentStateGet. What the manager's `Get` gives comes as an argument: the state or an error.
unfoldable pub handle_current_state_get :
    String → Option (Option Inventory) → UpdateAgent → UpdateAgent
unfolding stop_current_state_notifier
handle_current_state_get activity_id got a =
    let b = if starts_with activity_id "initial-current-state-" then send watch_events a else a in
    let c = send (get activity_id) b in
    elim got [
      | none ↦ c
      | some state ↦ send (current_state activity_id state) (stop_current_state_notifier c)
    ]

-- The timer of the notifier does not run.
abbrev IsSilent : UpdateAgent → Type 0
IsSilent a = (t : FeedbackNotifier) → a.feedback_notifier ≡ some t → t.internal_timer ≡ false

-- The RUNNING report that a timer which runs may send.
abbrev pub OneReport : UpdateAgent → List Sent → Type 0
OneReport a more =
    (t : FeedbackNotifier) × (a.feedback_notifier ≡ some t)
    × (t.internal_timer ≡ true)
    × (more ≡ feedback t.activity_id (running_feedback t.actions) ∷ a.sent)

module _ ⦃e : Eq (List Action)⦄ where
  -- The timer fires a number of times.
  unfoldable pub fired : ℕ → UpdateAgent → UpdateAgent
  fired zero a = a
  fired (suc n) a = fired n (feedback_fires a)

-- States that are reported without an activity, one after the other.
unfoldable pub handle_current_state_events : List (Option Inventory) → UpdateAgent → UpdateAgent
handle_current_state_events [] a = a
handle_current_state_events (s ∷ ss) a =
    handle_current_state_events ss (handle_current_state_event "" s a)

handle_current_state_event-held :
    (s : Option Inventory) (a : UpdateAgent)
    → is_zero a.current_state_delay ≡ false
    → ((handle_current_state_event "" s a).sent ≡ a.sent)
      × ((handle_current_state_event "" s a).current_state_delay ≡ a.current_state_delay)
unfolding handle_current_state_event
handle_current_state_event-held s a h = ground arith

handle_current_state_events-held :
    (ss : List (Option Inventory)) (a : UpdateAgent)
    → is_zero a.current_state_delay ≡ false
    → ((handle_current_state_events ss a).sent ≡ a.sent)
      × (is_zero (handle_current_state_events ss a).current_state_delay ≡ false)
unfolding handle_current_state_events
handle_current_state_events-held [] a h = (refl, h)
handle_current_state_events-held (s ∷ ss) a h =
    let (e₁, e₂) = handle_current_state_event-held s a h in
    let (f₁, f₂) =
      handle_current_state_events-held ss (handle_current_state_event "" s a) (ap is_zero e₂ ∙ h) in
    (f₁ ∙ e₁, f₂)

state_fires-last :
    (x : Option Inventory) (a : UpdateAgent)
    → is_zero a.current_state_delay ≡ false
    → (state_fires (handle_current_state_event "" x a)).sent ≡ current_state "" x ∷ a.sent
unfolding handle_current_state_event state_fires
state_fires-last x a h = ground arith

-- With a delay, the states that are reported without an activity are held back, and the timer sends
-- the last of them only.
pub state_fires-coalesced :
    (ss : List (Option Inventory)) (x : Option Inventory) (a : UpdateAgent)
    → is_zero a.current_state_delay ≡ false
    → (state_fires (handle_current_state_event "" x (handle_current_state_events ss a))).sent
      ≡ current_state "" x ∷ a.sent
state_fires-coalesced ss x a h =
    let (e₁, e₂) = handle_current_state_events-held ss a h in
    state_fires-last x (handle_current_state_events ss a) e₂ ∙ ap (λ l. current_state "" x ∷ l) e₁
