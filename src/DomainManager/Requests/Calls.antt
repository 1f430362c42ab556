-- ===== src/DomainManager/Requests/Calls.antt =====
-- Sequences of the calls that update_manager.go and update_manager_handler.go get, and what goes to the agent and
-- to the callback.
use update_manager.Base.{
  String, ◌≡◌, ◌==◌, Option, none, some, List, [], ◌∷◌, string_eq, eq_iff, arith, ◌≢◌, refl, ap,
  subst, sym, ◌⊎◌, inl, inr, Option-cases, Bool-cases, ◌∙◌,
}
use update_manager.Types.{DesiredState, DesiredStateCommand, DesiredStateFeedback}
use update_manager.DomainManager.Requests.{
  Effect, send_desired_state, send_command, feedback_event, Manager, apply, command,
  handle_desired_state_feedback,
}

-- The calls of the orchestrator and of the agent, with the errors of the client.
pub data Call : Type 0 where
  applies : String → DesiredState → Option String → Call
  commands : String → DesiredStateCommand → Option String → Call
  reports : String → DesiredStateFeedback → Call

unfoldable pub step : Call → Manager → Manager
unfolding apply command handle_desired_state_feedback
step (applies a state result) m = apply a state result m
step (commands a c result) m = command a c result m
step (reports a f) m = handle_desired_state_feedback a f m

unfoldable pub steps : List Call → Manager → Manager
steps [] m = m
steps (c ∷ cs) m = steps cs (step c m)

-- The activity of the latest desired state that was sent to the agent.
abbrev pub latest : List Effect → Option String
latest [] = none
latest (send_desired_state a state ∷ es) = some a
latest (send_command a c ∷ es) = latest es
latest (feedback_event n a baseline status message actions ∷ es) = latest es

-- A command goes to the agent, and a feedback to the callback, only for the latest desired state's activity.
abbrev pub IsFaithful : List Effect → Type 0
IsFaithful [] = Unit
IsFaithful (send_desired_state a state ∷ es) = IsFaithful es
IsFaithful (send_command a c ∷ es) = (latest es ≡ some a) × IsFaithful es
IsFaithful (feedback_event n a baseline status message actions ∷ es) =
    (latest es ≡ some a) × IsFaithful es

is_current :
    (a : String) (m : Manager) → (m.update_operation ≡ some a) ⊎ (m.update_operation ≢ some a)
is_current a m = elim (Option-cases m.update_operation) [
  | inl e ↦ inr (λ h. cc)
  | inr (b, e) ↦ elim (Bool-cases (b == a)) [
    | inl same ↦ inl (e ∙ ap some ((eq_iff b a).0 same))
    | inr other ↦ inr (λ h. ground (arith, eq_iff b a))
  ]
]

module _ (a : String) (m : Manager) (other : m.update_operation ≢ some a) where
  command-ignored : (c : DesiredStateCommand) (result : Option String) → command a c result m ≡ m
  unfolding command
  command-ignored c result = elim (Option-cases m.update_operation) [
    | inl e ↦ ground arith
    | inr (b, e) ↦ ground (arith, eq_iff b a)
  ]

  feedback-ignored : (f : DesiredStateFeedback) → handle_desired_state_feedback a f m ≡ m
  unfolding handle_desired_state_feedback
  feedback-ignored f = elim (Option-cases m.update_operation) [
    | inl e ↦ ground arith
    | inr (b, e) ↦ ground (arith, eq_iff b a)
  ]

record Inv (name : String) (m : Manager) : Type 0 where
  named : m.name ≡ name
  current : latest m.sent ≡ m.update_operation
  faithful : IsFaithful m.sent

step-Inv : (name : String) (c : Call) (m : Manager) → Inv name m → Inv name (step c m)
unfolding step
step-Inv name (applies a state none) m i = record {
  named = i.named;
  current = refl;
  faithful = i.faithful;
}
step-Inv name (applies a state (some error)) m i = record {
  named = i.named;
  current = refl;
  faithful = (refl, i.faithful);
}
step-Inv name (commands a c result) m i = elim (is_current a m) [
  | inl e ↦ elim result [
    | none ↦ record {
      named = ground (arith, eq_iff a a, i.named);
      current = ground (arith, eq_iff a a, i.current);
      faithful = ground (arith, eq_iff a a, i.current, i.faithful);
    }
    | some error ↦ record {
      named = ground (arith, eq_iff a a, i.named);
      current = ground (arith, eq_iff a a, i.current);
      faithful = ground (arith, eq_iff a a, i.current, i.faithful);
    }
  ]
  | inr n ↦ subst (Inv name) (sym (command-ignored a m n c result)) i
]
step-Inv name (reports a f) m i = elim (is_current a m) [
  | inl e ↦ record {
    named = ground (arith, eq_iff a a, i.named);
    current = ground (arith, eq_iff a a, i.current);
    faithful = ground (arith, eq_iff a a, i.current, i.faithful);
  }
  | inr n ↦ subst (Inv name) (sym (feedback-ignored a m n f)) i
]

steps-Inv : (name : String) (cs : List Call) (m : Manager) → Inv name m → Inv name (steps cs m)
unfolding steps
steps-Inv name [] m i = i
steps-Inv name (c ∷ cs) m i = steps-Inv name cs (step c m) (step-Inv name c m i)

abbrev pub fresh : String → Manager
fresh name = record { name = name; update_operation = none; sent = [] }

-- What a manager does with a command and a feedback of an activity: both go through, or nothing happens.
abbrev pub Serves : String → String → DesiredStateCommand → DesiredStateFeedback → Manager → Type 0
Serves name a c f m =
    ((command a c none m).sent ≡ send_command a c ∷ m.sent)
    × ((handle_desired_state_feedback a f m).sent
        ≡ feedback_event name a f.baseline f.status f.message f.actions ∷ m.sent)

abbrev pub Ignores :
    String → DesiredStateCommand → Option String → DesiredStateFeedback → Manager → Type 0
Ignores a c result f m = (command a c result m ≡ m) × (handle_desired_state_feedback a f m ≡ m)

serves :
    (a : String) (c : DesiredStateCommand) (f : DesiredStateFeedback) (m : Manager)
    → m.update_operation ≡ some a
    → Serves m.name a c f m
unfolding command handle_desired_state_feedback
serves a c f m e = (ground (arith, eq_iff a a), ground (arith, eq_iff a a))

other_activity-ignored :
    (activity_id expected : String) (c : DesiredStateCommand) (result : Option String)
    (f : DesiredStateFeedback) (m : Manager)
    → m.update_operation ≡ some expected
    → expected ≢ activity_id
    → Ignores activity_id c result f m
other_activity-ignored activity_id expected c result f m h n =
    let other : m.update_operation ≢ some activity_id = λ e. ground (arith, h, e, n) in
    (command-ignored activity_id m other c result, feedback-ignored activity_id m other f)

apply-Serves :
    (activity_id : String) (state : DesiredState) (c : DesiredStateCommand)
    (f : DesiredStateFeedback) (m : Manager)
    → Serves m.name activity_id c f (apply activity_id state none m)
unfolding apply
apply-Serves activity_id state c f m = serves activity_id c f (apply activity_id state none m) refl

-- In every sequence of the orchestrator's and the agent's calls, the agent gets commands, and the callback
-- feedback, only of the activity whose desired state was sent to the agent last; and of that activity a
-- next command and a next feedback go through verbatim, while those of every other activity change
-- nothing.
pub steps-IsFaithful :
    (name : String) (cs : List Call) (a : String) (c : DesiredStateCommand) (result : Option String)
    (f : DesiredStateFeedback)
    → let m = steps cs (fresh name) in
      IsFaithful m.sent
      × (((latest m.sent ≡ some a) × Serves name a c f m)
          ⊎ ((latest m.sent ≢ some a) × Ignores a c result f m))
steps-IsFaithful name cs a c result f =
    let m = steps cs (fresh name) in
    let i =
      steps-Inv name cs (fresh name) (record { named = refl; current = refl; faithful = tt }) in
    (
      i.faithful,
      elim (is_current a m) [
        | inl e ↦ inl (i.current ∙ e, subst (λ n. Serves n a c f m) i.named (serves a c f m e))
        | inr n ↦ inr (
          (λ h. n (sym i.current ∙ h)),
          (command-ignored a m n c result, feedback-ignored a m n f),
        )
      ],
    )
