-- ===== src/Orchestration/System/Handlers.antt =====
-- What the handler of a command leaves alone, and whom it tells what.
use update_manager.Base.{
  String, true, ◌≡◌, refl, ◌⊎◌, inl, inr, some, List, [], ◌∷◌, returns, arith, if◌then◌else◌,
}
use update_manager.Types.{
  StatusType, incomplete, status_eq, CommandType, command_eq, command_beq_iff,
}
use update_manager.Util.{contains}
use update_manager.Orchestration.Session.{Session, command_agent}
use update_manager.Orchestration.Consent.{
  Owner, Granted, granted, refused, waits, get_owner_consent, handle_command_signal, execute_on,
  addressed,
}
use update_manager.Orchestration.Consent.Laws.{rolling, execute_on-op}
use update_manager.Orchestration.System.Events.{IsEarly, tells}

command_agent-tells :
    (k c : CommandType) (a d : String) (s : Session)
    → tells k (command_agent a d c s).sent ≡ true
    → (tells k s.sent ≡ true) ⊎ (k ≡ c)
unfolding command_agent
command_agent-tells k c a d s h = ground (arith, command_beq_iff c k)

execute_on-tells :
    (k c : CommandType) (l : List StatusType) (m : List (String × StatusType)) (s : Session)
    → tells k (execute_on l c m s).sent ≡ true
    → (tells k s.sent ≡ true) ⊎ (k ≡ c)
unfolding execute_on
execute_on-tells k c l [] s h = inl h
execute_on-tells k c l ((d, status) ∷ m) s h =
    elim (execute_on-tells k c l m
      (if contains l status then command_agent s.op.activity_id d c s else s) h) [
        | inr e ↦ inr e
        | inl e ↦ ground (arith, command_agent-tells k c s.op.activity_id d s)
      ]

-- The fields of the operation that no handler of a command changes, and its status.
abbrev pub Kept : Session → Session → Type 0
Kept s t =
    (t.op.domains ≡ s.op.domains)
    × (t.op.command_channels ≡ s.op.command_channels)
    × ((t.op.status ≡ s.op.status) ⊎ (t.op.status ≡ incomplete))

-- What asking the owner does.
abbrev Asked : CommandType → Session → Granted → Type 0
Asked k s (granted t) =
    (t.op.domains ≡ s.op.domains)
    × (t.op.command_channels ≡ s.op.command_channels)
    × (t.op.status ≡ s.op.status)
    × (tells k t.sent ≡ tells k s.sent)
Asked k s (refused m t) =
    (t.op.domains ≡ s.op.domains)
    × (t.op.command_channels ≡ s.op.command_channels)
    × (t.op.status ≡ s.op.status)
    × (tells k t.sent ≡ tells k s.sent)
Asked k s waits = Unit

get_owner_consent-Asked :
    (k : CommandType) (o : Owner) (c : CommandType) (s : Session)
    → Asked k s (get_owner_consent o c s)
unfolding get_owner_consent
get_owner_consent-Asked k o c s = ground arith

granted_lem :
    (o : Owner) (c : CommandType) (s t u : Session)
    → get_owner_consent o c s ≡ granted u
    → handle_command_signal o c s ≡ some (returns t)
    → t ≡ execute_on (addressed c) c u.op.domains u
unfolding handle_command_signal
granted_lem o c s t u g e = ground arith

refused_lem :
    (o : Owner) (c : CommandType) (m : String) (s t u : Session)
    → get_owner_consent o c s ≡ refused m u
    → handle_command_signal o c s ≡ some (returns t)
    → ((t.op.domains ≡ u.op.domains)
        × (t.op.command_channels ≡ u.op.command_channels)
        × (t.op.status ≡ incomplete)
        × (t.sent ≡ u.sent))
      ⊎ (t
          ≡ execute_on
              (addressed CommandType.rollback)
              CommandType.rollback
              u.op.domains
              (rolling u m))
unfolding handle_command_signal
refused_lem o c m s t u g e = ground arith

-- A handler of a command keeps the domains and the channels, and tells an agent, of the two early
-- commands, only its own.
pub handle_command_signal-Kept :
    (o : Owner) (c : CommandType) (s t : Session)
    → handle_command_signal o c s ≡ some (returns t)
    → Kept s t
handle_command_signal-Kept o c s t e =
    go (get_owner_consent o c s) refl (get_owner_consent-Asked c o c s)
  where
    go : (g : Granted) → get_owner_consent o c s ≡ g → Asked c s g → Kept s t
    go (granted u) g a =
        ground (arith, granted_lem o c s t u g e, execute_on-op (addressed c) c u.op.domains u)
    go (refused m u) g a = ground (
      arith,
      refused_lem o c m s t u g e,
      execute_on-op (addressed CommandType.rollback) CommandType.rollback u.op.domains
          (rolling u m),
    )
    go waits g a = unfold handle_command_signal in ground arith

pub handle_command_signal-tells :
    (k : CommandType) (o : Owner) (c : CommandType) (s t : Session)
    → IsEarly k
    → handle_command_signal o c s ≡ some (returns t)
    → tells k t.sent ≡ true
    → (tells k s.sent ≡ true) ⊎ (k ≡ c)
handle_command_signal-tells k o c s t early e f =
    go (get_owner_consent o c s) refl (get_owner_consent-Asked k o c s)
  where
    go :
        (g : Granted)
        → get_owner_consent o c s ≡ g
        → Asked k s g
        → (tells k s.sent ≡ true) ⊎ (k ≡ c)
    go (granted u) g a =
        ground (arith, granted_lem o c s t u g e, execute_on-tells k c (addressed c) u.op.domains u)
    go (refused m u) g a = ground (
      arith,
      refused_lem o c m s t u g e,
      execute_on-tells k CommandType.rollback (addressed CommandType.rollback) u.op.domains
          (rolling u m),
    )
    go waits g a = unfold handle_command_signal in ground arith
