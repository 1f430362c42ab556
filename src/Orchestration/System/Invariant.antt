-- ===== src/Orchestration/System/Invariant.antt =====
-- What every step of the goroutines keeps.
use update_manager.Base.{
  Option, String, Bool, true, false, ◌≡◌, refl, sym, ◌∙◌, ◌≢◌, ◌⊎◌, inl, inr, ◌==◌, ◌||◌, none,
  some, List, [], ◌∷◌, ◌++◌, returns, any, arith, Bool-cases,
}
use update_manager.Types.{
  incomplete, CommandType, command_eq, command_beq_iff, OwnerConsentFeedback,
}
use update_manager.Orchestration.Operation.{UpdateOperation}
use update_manager.Orchestration.Session.{Session, command_chan, with_op}
use update_manager.Orchestration.Consent.{
  Owner, handle_command_signal, handle_owner_consent_feedback,
}
use update_manager.Orchestration.Signals.{
  Wake, Texts, Signalled, Waited, done, wait_signal, wait_command_signal,
}
use update_manager.Orchestration.Apply.{reboots}
use update_manager.Orchestration.Feedback.{Event, handle_event}
use update_manager.Orchestration.System.{Pc, at, over, System, next_pc, proceed, after_wake}
use update_manager.Orchestration.System.Events.{
  IsEarly, IsClosed, tells, handle_event-IsClosed, handle_event-signals, handle_event-tells,
}
use update_manager.Orchestration.System.Handlers.{
  Kept, handle_command_signal-Kept, handle_command_signal-tells,
}
use update_manager.Orchestration.System.Waits.{
  Waiting, wait_command_signal-Waiting, wait_command_signal-cases, wait_command_signal-spawned,
  wait_done-keeps,
}

abbrev pub is_in : CommandType → List CommandType → Bool
is_in c l = any (λ d. d == c) l

-- The main loop has not come to its end.
abbrev pub loops : Pc → Bool
loops (over r m) = false
loops _ = true

pub record Inv (k : CommandType) (s : System) : Type 0 where
  -- A signal that the main loop may still take was given after the phase before it.
  pub signalled :
      loops s.pc ≡ true
      → command_chan k s.session.op.command_channels ≡ some true
      → IsClosed k s.session
  -- So was the start of a handler.
  pub closed : is_in k s.spawned ≡ true → IsClosed k s.session
  -- The first wait comes before every handler.
  pub first : s.pc ≡ at CommandType.download → s.spawned ≡ []
  -- Only handlers that were started run, and only they tell the agents.
  pub started : (c : CommandType) → is_in c s.pending ≡ true → is_in c s.spawned ≡ true
  pub told : tells k s.session.sent ≡ true → is_in k s.spawned ≡ true

is_in-middle :
    (c k : CommandType) (before after : List CommandType)
    → is_in c (before ++ k ∷ after) ≡ (k == c || is_in c (before ++ after))
is_in-middle c k [] after = refl
is_in-middle c k (b ∷ before) after = ground (arith, is_in-middle c k before after)

Kept-IsClosed : (k : CommandType) (s t : Session) → Kept s t → IsClosed k s → IsClosed k t
Kept-IsClosed k s t kept closed = ground arith

next_pc-ne : (c : CommandType) (b : Bool) → next_pc c b ≢ at CommandType.download
next_pc-ne CommandType.download b = ground arith
next_pc-ne CommandType.update b = ground arith
next_pc-ne _ b = ground arith

proceed-ne : (c : CommandType) (r : Signalled) → proceed c r ≢ at CommandType.download
proceed-ne c r = ground (arith, next_pc-ne c r.rollback)

pub event-Inv :
    (k : CommandType) (s : System) (v : Event) (t : Session)
    → IsEarly k
    → handle_event v.domain v.status v.message v.actions s.session ≡ returns t
    → Inv k s
    → Inv k (record s { session = t })
event-Inv k s v t early e i = record {
  signalled = λ go full. elim (handle_event-signals k v s.session t e full) [
    | inl before ↦ handle_event-IsClosed k v s.session t early e (i.signalled go before)
    | inr now ↦ now
  ];
  closed = λ has. handle_event-IsClosed k v s.session t early e (i.closed has);
  first = i.first;
  started = i.started;
  told = λ has. i.told (sym (handle_event-tells k v s.session t early e) ∙ has);
}

pub handles-Inv :
    (k : CommandType) (s : System) (o : Owner) (before after : List CommandType) (c : CommandType)
    (t : Session)
    → IsEarly k
    → s.pending ≡ before ++ c ∷ after
    → handle_command_signal o c s.session ≡ some (returns t)
    → Inv k s
    → Inv k (record s { session = t; pending = before ++ after })
handles-Inv k s o before after c t early p e i =
    let kept = handle_command_signal-Kept o c s.session t e in
    record {
      signalled = λ go full. Kept-IsClosed k s.session t kept (i.signalled go (ground arith));
      closed = λ has. Kept-IsClosed k s.session t kept (i.closed has);
      first = i.first;
      started = λ d has. i.started d (ground (arith, is_in-middle d c before after));
      told = λ has. elim (handle_command_signal-tells k o c s.session t early e has) [
        | inl before_too ↦ i.told before_too
        | inr own ↦ i.started k (ground (arith, is_in-middle k c before after, command_beq_iff c k))
      ];
    }

pub answers-Inv :
    (k : CommandType) (s : System) (a : String) (f : Option OwnerConsentFeedback)
    (op : UpdateOperation)
    → handle_owner_consent_feedback a f (some s.session.op) ≡ returns (some op)
    → Inv k s
    → Inv k (record s { session = with_op s.session op })
unfolding handle_owner_consent_feedback
answers-Inv k s a f op e i = record {
  signalled = λ go full. answered (i.signalled go (ground arith));
  closed = λ has. answered (i.closed has);
  first = i.first;
  started = i.started;
  told = i.told;
}
  where
    answered : IsClosed k s.session → IsClosed k (with_op s.session op)
    answered c = ground arith

-- After a wait without an error, and after one with an error that is not the first.
wakes-IsClosed :
    (k : CommandType) (x : Texts) (c : CommandType) (w : Wake) (s : Session) (r : Signalled)
    → wait_command_signal x c w s ≡ some r
    → (c ≡ CommandType.download → r.err ≡ none)
    → IsClosed k s
    → IsClosed k r.after
wakes-IsClosed k x c w s r e f (past, left) = (
  elim (wait_command_signal-cases x c w s r e) [
    | inl (fine, same) ↦ ground arith
    | inr (err, none_started, inl same) ↦ ground arith
    | inr (err, none_started, inr (inl marked)) ↦ ground arith
    | inr (err, none_started, inr (inr first)) ↦ absurd (err (f first))
  ],
  rw ((wait_command_signal-Waiting k x c w s r e).domains) left,
)

pub wakes-Inv :
    (k : CommandType) (x : Texts) (c : CommandType) (w : Wake) (s : System) (r : Signalled)
    → s.pc ≡ at c
    → wait_command_signal x c w s.session ≡ some r
    → Inv k s
    → Inv k (after_wake c r s)
wakes-Inv k x c w s r p e i = record {
  signalled = λ go full.
      wakes-IsClosed k x c w s.session r e (λ d. fine go)
        (i.signalled (ground arith) (keeps.channel full));
  closed = λ has. elim (Bool-cases r.spawned) [
    | inr quiet ↦
        wakes-IsClosed k x c w s.session r e
          (λ d. absurd (empty (i.first (rw (← d) p)) (ground arith))) (i.closed (ground arith))
    | inl spawned ↦ elim (Bool-cases (c == k)) [
      | inl own ↦
          wakes-IsClosed k x c w s.session r e (λ d. no_error spawned)
            (i.signalled (ground arith) (
              rw (← (command_beq_iff c k).0 own)
                (wait_command_signal-spawned x c w s.session r e spawned)))
      | inr other ↦
          wakes-IsClosed k x c w s.session r e (λ d. no_error spawned) (i.closed (ground arith))
    ]
  ];
  first = λ h. absurd (proceed-ne c r h);
  started = λ d has. ground (arith, i.started d);
  told = λ has. ground (arith, i.told, keeps.sent);
}
  where
    keeps : Waiting k s.session r.after
    keeps = wait_command_signal-Waiting k x c w s.session r e

    fine : loops (proceed c r) ≡ true → r.err ≡ none
    fine go = ground arith

    empty : s.spawned ≡ [] → is_in k s.spawned ≡ true → ⊥
    empty nothing has = ground arith

    no_error : r.spawned ≡ true → r.err ≡ none
    no_error started = ground (arith, wait_command_signal-cases x c w s.session r e)

pub ends-Inv :
    (k : CommandType) (x : Texts) (w : Wake) (s : System) (r : Waited)
    → wait_signal x done w s.session ≡ some r
    → Inv k s
    → Inv k (record s { session = r.after; pc = over (reboots r.after) r.err })
ends-Inv k x w s r e i = record {
  signalled = λ go full. cc;
  closed = λ has. ended (i.closed has) (wait_done-keeps x w s.session r e);
  first = λ h. cc;
  started = i.started;
  told = λ has. i.told (ground (arith, wait_done-keeps x w s.session r e));
}
  where
    ended :
        IsClosed k s.session
        → (r.after.op.domains ≡ s.session.op.domains)
          × (r.after.sent ≡ s.session.sent)
          × ((r.after.op.status ≡ s.session.op.status) ⊎ (r.after.op.status ≡ incomplete))
        → IsClosed k r.after
    ended closed kept = ground arith
