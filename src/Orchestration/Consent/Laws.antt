-- ===== src/Orchestration/Consent/Laws.antt =====
-- What the owner's answer decides.
use update_manager.Base.{
  String, true, ◌≡◌, refl, ◌∙◌, ◌≢◌, none, some, List, [], ◌∷◌, arith, if◌then◌else◌,
}
use update_manager.Types.{
  StatusType, status_eq, incomplete, CommandType, command_eq, command_beq_iff,
}
use update_manager.Util.{contains}
use update_manager.Orchestration.Session.{
  Session, consent_start, consent_stop, consent_request, command_agent, with_op,
}
use update_manager.Orchestration.Consent.{Owner, granted, get_owner_consent, execute_on}

-- If a command other than the empty one, ROLLBACK and CLEANUP needs the owner's consent and the
-- consent is given, then there is a client, it was started, the request for that command was sent
-- and the client stopped, and the answer that was taken is `true`.
pub get_owner_consent-granted :
    (o : Owner) (c : CommandType) (s t : Session)
    → contains s.cfg.owner_consent_commands c ≡ true
    → c ≢ CommandType.other ""
    → c ≢ CommandType.rollback
    → c ≢ CommandType.cleanup
    → get_owner_consent o c s ≡ granted t
    → (o.available ≡ true)
      × (s.op.owner_consented ≡ some true)
      × (t.op.owner_consented ≡ none)
      × (t.sent
          ≡ consent_stop
            ∷ consent_request s.op.activity_id (record { command = c })
            ∷ consent_start
            ∷ s.sent)
unfolding get_owner_consent
get_owner_consent-granted o c s t need n₁ n₂ n₃ e = ground (
  arith,
  command_beq_iff c (CommandType.other ""),
  command_beq_iff c CommandType.rollback,
  command_beq_iff c CommandType.cleanup,
)

pub execute_on-op :
    (l : List StatusType) (c : CommandType) (m : List (String × StatusType)) (s : Session)
    → (execute_on l c m s).op ≡ s.op
unfolding execute_on command_agent
execute_on-op l c [] s = refl
execute_on-op l c ((d, status) ∷ m) s =
    execute_on-op l c m (if contains l status then command_agent s.op.activity_id d c s else s)
    ∙ (ground arith)

-- The session that is told to roll back, before the agents are.
abbrev pub rolling : Session → String → Session
rolling t m =
    with_op t
      (record t.op { delayed_status = incomplete; delayed_err_msg = m; rollback_chan = some true })
