-- ===== src/Orchestration/System/Granting.antt =====
-- A handler that runs with the owner's approval, where its command wants one.
use update_manager.Base.{
  String, Bool, true, false, ◌≡◌, refl, ◌∙◌, ◌==◌, ◌||◌, ◌&&◌, not, none, some, List, [], ◌∷◌, inl,
  ◌++◌, subst, inr, string_eq, if◌then◌else◌, arith, returns, sym, Bool-cases, eq_iff,
}
use update_manager.Types.{
  StatusType, status_eq, CommandType, command_eq, OwnerConsentFeedback, ConsentStatusType,
}
use update_manager.Util.{contains}
use update_manager.Config.{Config}
use update_manager.Orchestration.Operation.{Chan}
use update_manager.Orchestration.Session.{
  Session, Effect, command_agent, consent_start, consent_stop, consent_request,
}
use update_manager.Orchestration.Consent.{
  Owner, handle_command_signal, handle_owner_consent_feedback, get_owner_consent, granted,
  execute_on, addressed, timed_out, received,
}
use update_manager.Orchestration.Consent.Laws.{execute_on-op}
use update_manager.Orchestration.Signals.{Texts}
use update_manager.Orchestration.System.{Pc, System, handles, answers}
use update_manager.Orchestration.System.Journey.{Run, Mark, approved, ran, approves, runs}

execute_on-cfg :
    (l : List StatusType) (c : CommandType) (m : List (String × StatusType)) (s : Session)
    → (execute_on l c m s).cfg ≡ s.cfg
unfolding execute_on command_agent
execute_on-cfg l c [] s = refl
execute_on-cfg l c ((d, status) ∷ m) s =
    execute_on-cfg l c m (if contains l status then command_agent s.op.activity_id d c s else s)
    ∙ ground arith

-- The commands go to the agents and change nothing else.
execute_on-sent :
    (l : List StatusType) (c : CommandType) (m : List (String × StatusType)) (s : Session)
    → execute_on l c m s ≡ record s { sent = (execute_on l c m s).sent }
execute_on-sent l c m s = λ i. record {
  cfg = execute_on-cfg l c m s i;
  op = execute_on-op l c m s i;
  sent = (execute_on l c m s).sent;
}

-- An owner that is not asked, and one that approves.
abbrev nobody : Owner
nobody = record {
  available = false;
  start_error = none;
  send_error = none;
  answer = timed_out;
  timeout_text = "";
}

abbrev willing : Owner
willing = record {
  available = true;
  start_error = none;
  send_error = none;
  answer = received;
  timeout_text = "";
}

-- The commands that wait for the owner's consent.
abbrev pub asks : CommandType → Config → Bool
asks c cfg =
    not (c == CommandType.other "" || not (contains cfg.owner_consent_commands c))
    && not (c == CommandType.rollback || c == CommandType.cleanup)

abbrev consented : Chan → Session → Session
consented chan s = record s { op = record s.op { owner_consented = chan } }

handles-unasked :
    (c : CommandType) (s : Session)
    → asks c s.cfg ≡ false
    → handle_command_signal nobody c s ≡ some (returns (execute_on (addressed c) c s.op.domains s))
unfolding handle_command_signal get_owner_consent
handles-unasked c s h = ground arith

-- The request, its answer and the end of the request.
abbrev asked : CommandType → Session → Session
asked c s = record s {
  op = record s.op { owner_consented = none };
  sent =
      consent_stop
      ∷ consent_request s.op.activity_id (record { command = c })
      ∷ consent_start
      ∷ s.sent;
}

handles-asked :
    (c : CommandType) (s : Session)
    → asks c s.cfg ≡ true
    → handle_command_signal willing c (consented (some true) s)
      ≡ some (returns (execute_on (addressed c) c s.op.domains (asked c s)))
unfolding handle_command_signal get_owner_consent
handles-asked c s h = ground arith

consents-unasked :
    (c : CommandType) (s : Session)
    → asks c s.cfg ≡ false
    → get_owner_consent nobody c s ≡ granted s
unfolding get_owner_consent
consents-unasked c s h = ground arith

consents-asked :
    (c : CommandType) (s : Session)
    → asks c s.cfg ≡ true
    → get_owner_consent willing c (consented (some true) s) ≡ granted (asked c s)
unfolding get_owner_consent
consents-asked c s h = ground arith

-- What the handler of a command shows, after the approval that it waits for, if it does.
abbrev pub ran_by : Config → CommandType → List Mark
ran_by cfg c = ran c ∷ (if asks c cfg then approved ∷ [] else [])

-- A handler is pending, and has run.
abbrev pub pending : CommandType → Pc → List CommandType → Session → System
pending c pc spawned u = record { session = u; pc = pc; spawned = spawned; pending = c ∷ [] }

abbrev pub handled : Pc → List CommandType → Session → System
handled pc spawned u = record { session = u; pc = pc; spawned = spawned; pending = [] }

abbrev approval : OwnerConsentFeedback
approval = record { status = ConsentStatusType.approved }

owner_approves :
    (u : Session)
    → u.op.owner_consented ≡ none
    → handle_owner_consent_feedback u.op.activity_id (some approval) (some u.op)
      ≡ returns (some (consented (some true) u).op)
unfolding handle_owner_consent_feedback
owner_approves u h = ground (arith, h, eq_iff u.op.activity_id u.op.activity_id)

module _ (x : Texts) (s : Session) (es : List Mark) (c : CommandType) (pc : Pc)
    (spawned : List CommandType) (u : Session) (unanswered : u.op.owner_consented ≡ none) where
  asked-sent :
      execute_on (addressed c) c u.op.domains (asked c u)
      ≡ record u { sent = (execute_on (addressed c) c u.op.domains (asked c u)).sent }
  asked-sent = execute_on-sent (addressed c) c u.op.domains (asked c u) ∙ (λ i. record u {
    op = record u.op { owner_consented = sym unanswered i };
    sent = (execute_on (addressed c) c u.op.domains (asked c u)).sent;
  })

  shown :
      (b : Bool)
      → asks c u.cfg ≡ b
      → (t : System) → Run x s (ran c ∷ (if b then approved ∷ [] else []) ++ es) t
      → Run x s (ran_by u.cfg c ++ es) t
  shown b e t = subst (λ b. Run x s (ran c ∷ (if b then approved ∷ [] else []) ++ es) t) (sym e)

  -- A pending handler runs to its end with the owner's approval, and only sends.
  pub grant :
      Run x s es (pending c pc spawned u)
      → (z : List Effect) × Run x s
          (ran_by u.cfg c ++ es)
          (handled pc spawned (record u { sent = z }))
  grant r = elim (Bool-cases (asks c u.cfg)) [
    | inl wanted ↦ (
      (execute_on (addressed c) c u.op.domains (asked c u)).sent,
      shown true wanted _ (
          runs
            (approves r
              (answers u.op.activity_id (some approval) (consented (some true) u).op
                (owner_approves u unanswered) refl)
              (refl, (approval, refl, refl)))
            c
            (handles willing [] [] c (execute_on (addressed c) c u.op.domains (asked c u)) refl
              (handles-asked c u wanted) (λ i. handled pc spawned (sym asked-sent i)))
            (refl, (asked c u, consents-asked c u wanted))),
    )
    | inr unwanted ↦ (
      (execute_on (addressed c) c u.op.domains u).sent,
      shown false unwanted _ (
          runs r c
            (handles nobody [] [] c (execute_on (addressed c) c u.op.domains u) refl
              (handles-unasked c u unwanted)
              (λ i. handled pc spawned (sym (execute_on-sent (addressed c) c u.op.domains u) i)))
            (refl, (u, consents-unasked c u unwanted))),
    )
  ]
