-- ===== src/Orchestration/Consent/Commands.antt =====
-- Which agents the handler of a command tells it to, and which it tells to roll back.
use update_manager.Base.{
  String, true, ◌≡◌, ◌≢◌, refl, sym, ap, ◌∙◌, subst, ◌⊎◌, inl, inr, some, ◌∷◌, returns, arith,
}
use update_manager.Types.{status_eq, incomplete, CommandType, command_eq, command_beq_iff}
use update_manager.Orchestration.Session.{
  Session, Effect, consent_start, consent_stop, consent_request,
}
use update_manager.Orchestration.Consent.{
  Owner, Granted, waits, granted, refused, get_owner_consent, handle_command_signal, execute_on,
  addressed,
}
use update_manager.Orchestration.Consent.Orders.{IsIn, IsCommand, Tells, Kept, execute_on-Tells}
use update_manager.Orchestration.Consent.Laws.{rolling, execute_on-op}

-- What a request of the owner's consent sends.
abbrev Requested : CommandType → Session → Session → Type 0
Requested c s t =
    (t.sent ≡ s.sent)
    ⊎ ((t.sent ≡ consent_start ∷ s.sent)
        ⊎ (t.sent
            ≡ consent_stop
              ∷ consent_request s.op.activity_id (record { command = c })
              ∷ consent_start
              ∷ s.sent))

other_effect : (e x : Effect) → IsCommand e → (IsCommand x → ⊥) → e ≡ x → ⊥
other_effect e x is n same = n (subst IsCommand same is)

Requested-gone :
    (c : CommandType) (s t : Session)
    → Requested c s t
    → (e : Effect) → IsCommand e
    → IsIn e t.sent
    → IsIn e s.sent
Requested-gone c s t (inl same) e is h = subst (IsIn e) same h
Requested-gone c s t (inr (inl same)) e is h = elim (subst (IsIn e) same h) [
  | inl first ↦ absurd (other_effect e _ is (λ x. x) first)
  | inr before ↦ before
]
Requested-gone c s t (inr (inr same)) e is h = elim (subst (IsIn e) same h) [
  | inl first ↦ absurd (other_effect e _ is (λ x. x) first)
  | inr (inl second) ↦ absurd (other_effect e _ is (λ x. x) second)
  | inr (inr (inl third)) ↦ absurd (other_effect e _ is (λ x. x) third)
  | inr (inr (inr before)) ↦ before
]

Requested-back :
    (c : CommandType) (s t : Session)
    → Requested c s t
    → (e : Effect) → IsIn e s.sent
    → IsIn e t.sent
Requested-back c s t (inl same) e h = subst (IsIn e) (sym same) h
Requested-back c s t (inr (inl same)) e h = subst (IsIn e) (sym same) (inr h)
Requested-back c s t (inr (inr same)) e h = subst (IsIn e) (sym same) (inr (inr (inr h)))

module _ (o : Owner) (c : CommandType) (s t : Session) where
  granted-Kept : get_owner_consent o c s ≡ granted t → Kept s t
  unfolding get_owner_consent
  granted-Kept e =
      let requested : Requested c s t = ground arith in
      record {
        domains = ground arith;
        activity = ground arith;
        agents = ground arith;
        gone = Requested-gone c s t requested;
        back = λ e is. Requested-back c s t requested e;
      }

  refused-Kept : (m : String) → get_owner_consent o c s ≡ refused m t → Kept s t
  unfolding get_owner_consent
  refused-Kept m e =
      let requested : Requested c s t = ground arith in
      record {
        domains = ground arith;
        activity = ground arith;
        agents = ground arith;
        gone = Requested-gone c s t requested;
        back = λ e is. Requested-back c s t requested e;
      }

  refused-cases :
      (m : String) (s' : Session)
      → get_owner_consent o c s ≡ refused m t
      → handle_command_signal o c s ≡ some (returns s')
      → (((c ≡ CommandType.update) ⊎ (c ≡ CommandType.activate))
          × (s'
              ≡ execute_on
                  (addressed CommandType.rollback)
                  CommandType.rollback
                  t.op.domains
                  (rolling t m)))
        ⊎ ((c ≢ CommandType.update)
            × (c ≢ CommandType.activate)
            × (s'.sent ≡ t.sent)
            × (s'.op.status ≡ incomplete)
            × (s'.op.err_msg ≡ m)
            × (s'.op.err_chan ≡ some true))
  unfolding handle_command_signal
  refused-cases m s' e h =
      ground (arith, command_beq_iff c CommandType.update, command_beq_iff c CommandType.activate)

-- The owner's consent is refused, with a text.
abbrev pub Refused : Owner → CommandType → Session → String → Type 0
Refused o c s m = (t : Session) × (get_owner_consent o c s ≡ refused m t)

-- No command goes to an agent between two sessions.
abbrev pub TellsNone : Session → Session → Type 0
TellsNone s s' =
    (e : Effect) → IsCommand e → (IsIn e s'.sent → IsIn e s.sent) × (IsIn e s.sent → IsIn e s'.sent)

-- The command is told, with the consent.
abbrev pub Goes : Owner → CommandType → Session → Session → Type 0
Goes o c s s' = ((t : Session) × (get_owner_consent o c s ≡ granted t)) × Tells c s s'

-- UPDATE or ACTIVATE is rolled back.
abbrev pub RollsBack : Owner → CommandType → Session → Session → Type 0
RollsBack o c s s' =
    (m : String) × Refused o c s m
    × ((c ≡ CommandType.update) ⊎ (c ≡ CommandType.activate))
    × Tells CommandType.rollback s s'
    × (s'.op.delayed_status ≡ incomplete)
    × (s'.op.delayed_err_msg ≡ m)
    × (s'.op.rollback_chan ≡ some true)

-- Another command ends the operation.
abbrev pub Fails : Owner → CommandType → Session → Session → Type 0
Fails o c s s' =
    (m : String) × Refused o c s m
    × (c ≢ CommandType.update)
    × (c ≢ CommandType.activate)
    × TellsNone s s'
    × (s'.op.status ≡ incomplete)
    × (s'.op.err_msg ≡ m)
    × (s'.op.err_chan ≡ some true)

rolls_back :
    (o : Owner) (c : CommandType) (m : String) (s t s' : Session)
    → get_owner_consent o c s ≡ refused m t
    → ((c ≡ CommandType.update) ⊎ (c ≡ CommandType.activate))
    → (s'
        ≡ execute_on
            (addressed CommandType.rollback)
            CommandType.rollback
            t.op.domains
            (rolling t m))
    → RollsBack o c s s'
rolls_back o c m s t s' e which same =
    let k = refused-Kept o c s t m e in
    let kept : s'.op ≡ (rolling t m).op =
      ap (λ u. u.op) same ∙ execute_on-op _ _ t.op.domains (rolling t m) in
    (
      m,
      (t, e),
      which,
      subst (Tells CommandType.rollback s) (sym same) (
          execute_on-Tells CommandType.rollback s (rolling t m) (record {
            domains = k.domains;
            activity = k.activity;
            agents = k.agents;
            gone = k.gone;
            back = k.back;
          })),
      ap (λ u. u.delayed_status) kept,
      ap (λ u. u.delayed_err_msg) kept,
      ap (λ u. u.rollback_chan) kept,
    )

goes :
    (o : Owner) (c : CommandType) (s t s' : Session)
    → get_owner_consent o c s ≡ granted t
    → handle_command_signal o c s ≡ some (returns s')
    → Goes o c s s'
unfolding handle_command_signal
goes o c s t s' e h =
    let same : execute_on (addressed c) c t.op.domains t ≡ s' = ground arith in
    ((t, e), subst (Tells c s) same (execute_on-Tells c s t (granted-Kept o c s t e)))

never_waits :
    (o : Owner) (c : CommandType) (s s' : Session)
    → get_owner_consent o c s ≡ waits
    → handle_command_signal o c s ≢ some (returns s')
unfolding handle_command_signal
never_waits o c s s' e = ground arith

-- A handler that returns has told the agents exactly one of three things. With the owner's consent: the command,
-- to the agent of each domain whose status the command is meant for. Without it for UPDATE or ACTIVATE:
-- ROLLBACK, to the agent of each domain in DOWNLOAD_SUCCESS or UPDATE_SUCCESS; then INCOMPLETE is noted for the
-- end with the refusal's text, and the main loop is told to roll back. Without it for another command: nothing;
-- then the operation is INCOMPLETE with the refusal's text, and the main loop is told of an error.
pub handle_command_signal-instructs :
    (o : Owner) (c : CommandType) (s s' : Session)
    → handle_command_signal o c s ≡ some (returns s')
    → Goes o c s s' ⊎ (RollsBack o c s s' ⊎ Fails o c s s')
handle_command_signal-instructs o c s s' h = go (get_owner_consent o c s) refl
  where
    go :
        (g : Granted)
        → get_owner_consent o c s ≡ g
        → Goes o c s s' ⊎ (RollsBack o c s s' ⊎ Fails o c s s')
    go (granted t) e = inl (goes o c s t s' e h)
    go waits e = absurd (never_waits o c s s' e h)
    go (refused m t) e = elim (refused-cases o c s t m s' e h) [
      | inl (which, same) ↦ inr (inl (rolls_back o c m s t s' e which same))
      | inr (n₁, n₂, same, status, text, err) ↦
          let k = refused-Kept o c s t m e in
          let silent : TellsNone s s' = λ x is. (
            λ z. k.gone x is (subst (IsIn x) same z),
            λ z. subst (IsIn x) (sym same) (k.back x is z),
          ) in
          inr (inr (m, (t, e), n₁, n₂, silent, status, text, err))
    ]
