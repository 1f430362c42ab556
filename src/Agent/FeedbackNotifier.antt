-- ===== src/Agent/FeedbackNotifier.antt =====
-- api/agent/timer_desired_state_feedback.go. The timer is whether `internalTimer` is set: it may fire
-- at any time while it is. `reflect.DeepEqual` on the actions is the instance argument; a nil slice and
-- an empty one are one list.
use update_manager.Base.{
  Bool-cases, inl, inr, String, Bool, true, false, ◌≡◌, refl, not, Option, none, some, List, [],
  ◌∷◌, Eq, ◌==◌, if◌then◌else◌, arith, ℤ,
}
use update_manager.Types.{running, Action, DesiredStateFeedback}

pub record FeedbackNotifier : Type 0 where
  pub internal_timer : Bool
  pub interval : ℤ
  pub activity_id : String
  pub actions : List Action
  pub reported_actions : List Action

-- What the notifier has published through its agent, newest first.
abbrev pub Published : Type 0
Published = List (String × DesiredStateFeedback)

pub record State : Type 0 where
  pub notifier : FeedbackNotifier
  pub open notifier use *
  pub published : Published

unfoldable pub new_feedback_notifier : ℤ → FeedbackNotifier
new_feedback_notifier interval = record {
  internal_timer = false;
  interval = interval;
  activity_id = "";
  actions = [];
  reported_actions = [];
}

abbrev pub running_feedback : List Action → DesiredStateFeedback
running_feedback actions = record {
  baseline = "";
  status = running;
  message = "";
  actions = actions;
}

update_actions : List Action → FeedbackNotifier → FeedbackNotifier
update_actions actions t = record t { actions = actions }

update_reported_actions : FeedbackNotifier → FeedbackNotifier
update_reported_actions t = record t { reported_actions = t.actions }

unfoldable pub set : String → List Action → State → State
unfolding update_actions update_reported_actions
set activity_id actions s =
    let t = update_actions actions s.notifier in
    if t.internal_timer then record s { notifier = t } else record {
      notifier = record (update_reported_actions (record t { activity_id = activity_id })) {
        internal_timer = true;
      };
      published = (activity_id, running_feedback actions) ∷ s.published;
    }

unfoldable pub stop : State → State
stop s = record s {
  notifier = record (s.notifier) {
    internal_timer = false;
    activity_id = "";
    actions = [];
    reported_actions = [];
  };
}

module _ ⦃e : Eq (List Action)⦄ where
  unfoldable pub notify_event : State → State
  unfolding update_reported_actions
  notify_event s =
      if not s.internal_timer
      then s
      else let t = record (s.notifier) { internal_timer = false } in
        if t.actions == t.reported_actions then record s { notifier = t } else record {
          notifier = update_reported_actions t;
          published = (t.activity_id, running_feedback t.actions) ∷ s.published;
        }

-- The calls that reach a notifier.
pub data Call : Type 0 where
  sets : String → List Action → Call
  stops fires : Call

module _ ⦃e : Eq (List Action)⦄ where
  unfoldable pub step : Call → State → State
  unfolding set stop notify_event
  step (sets activity_id actions) s = set activity_id actions s
  step stops s = stop s
  step fires s = notify_event s

  unfoldable pub steps : List Call → State → State
  steps [] s = s
  steps (c ∷ cs) s = steps cs (step c s)

abbrev pub newest : Published → Option (String × DesiredStateFeedback)
newest [] = none
newest (p ∷ ps) = some p

-- The actions of the last `sets` since the last `stops`.
abbrev pub last_set : Option (List Action) → List Call → Option (List Action)
last_set last [] = last
last_set last (sets activity_id actions ∷ cs) = last_set (some actions) cs
last_set last (stops ∷ cs) = last_set none cs
last_set last (fires ∷ cs) = last_set last cs

-- A state after calls of which `last` was set last.
pub record IsCurrent (last : Option (List Action)) (s : State) : Type 0 where
  pub kept : (actions : List Action) → last ≡ some actions → s.actions ≡ actions
  -- While the timer runs.
  pub shown :
      s.internal_timer ≡ true
      → newest s.published ≡ some (s.activity_id, running_feedback s.reported_actions)
  -- While it does not.
  pub idle :
      s.internal_timer ≡ false
      → (actions : List Action) → last ≡ some actions
      → newest s.published ≡ some (s.activity_id, running_feedback actions)
  pub stopped : last ≡ none → s.internal_timer ≡ false

new-IsCurrent :
    (interval : ℤ)
    → IsCurrent none (record { notifier = new_feedback_notifier interval; published = [] })
unfolding new_feedback_notifier
new-IsCurrent interval = record {
  kept = λ a e. cc;
  shown = λ t. cc;
  idle = λ t a e. cc;
  stopped = λ e. refl;
}

module _ ⦃e : Eq (List Action)⦄ where
  step-IsCurrent :
      (c : Call) (last : Option (List Action)) (s : State)
      → IsCurrent last s
      → IsCurrent (last_set last (c ∷ [])) (step c s)
  unfolding step
  step-IsCurrent (sets a actions) last s h = record {
    kept = λ b q. ground arith;
    shown = λ t. ground (arith, h.shown);
    idle = λ t b q. ground arith;
    stopped = λ q. cc;
  }
  step-IsCurrent stops last s h = record {
    kept = λ b q. cc;
    shown = λ t. cc;
    idle = λ t b q. cc;
    stopped = λ q. refl;
  }
  step-IsCurrent fires last s h = record {
    kept = λ b q. ground (arith, h.kept b q);
    shown = λ t. ground (arith, h.shown);
    idle = λ t b q. elim (Bool-cases s.internal_timer) [
      | inl on ↦ ground (arith, h.kept b q, h.shown on, e.agrees s.actions s.reported_actions)
      | inr off ↦ ground (arith, h.idle off b q)
    ];
    stopped = λ q. ground (arith, h.stopped q);
  }

  steps-IsCurrent :
      (cs : List Call) (last : Option (List Action)) (s : State)
      → IsCurrent last s
      → IsCurrent (last_set last cs) (steps cs s)
  unfolding steps
  steps-IsCurrent [] last s h = h
  steps-IsCurrent (sets a actions ∷ cs) last s h =
      steps-IsCurrent cs (some actions) _ (step-IsCurrent (sets a actions) last s h)
  steps-IsCurrent (stops ∷ cs) last s h = steps-IsCurrent cs none _ (step-IsCurrent stops last s h)
  steps-IsCurrent (fires ∷ cs) last s h = steps-IsCurrent cs last _ (step-IsCurrent fires last s h)

  -- After any calls of a new notifier: it keeps the actions that were set last since it was stopped last,
  -- if there are any; while its timer runs, the newest feedback that it published is the running one with
  -- its activity and its reported actions; while it does not and actions were set since it was stopped
  -- last, the newest feedback has its activity and the actions that were set last, so that nothing is left
  -- to report; and where none were set since then, the timer does not run.
  pub steps-new-IsCurrent :
      (interval : ℤ) (cs : List Call)
      → IsCurrent
          (last_set none cs)
          (steps cs (record { notifier = new_feedback_notifier interval; published = [] }))
  steps-new-IsCurrent interval cs = steps-IsCurrent cs none _ (new-IsCurrent interval)
