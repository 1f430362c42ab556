-- ===== src/Orchestration/Consent/Orders.antt =====
-- The orders that the loop of `executeCommand` over the domains sends to the agents.
use update_manager.Base.{
  String, true, ◌≡◌, refl, sym, ap, ◌∙◌, subst, ◌⊎◌, inl, inr, some, Option-cases, Bool-cases, List,
  [], ◌∷◌, arith, if◌then◌else◌,
}
use update_manager.Types.{
  StatusType, status_eq, status_beq_iff, identified, download_success, update_success,
  activation_success, rollback_success, CommandType, command_eq,
}
use update_manager.Util.{contains}
use update_manager.Orchestration.Operation.{Agent}
use update_manager.Orchestration.Session.{
  Session, Effect, command, emit, get_domain_agent, command_agent,
}
use update_manager.Orchestration.Consent.{execute_on, addressed}

abbrev pub IsIn : Effect → List Effect → Type 0
IsIn e [] = ⊥
IsIn e (x ∷ l) = (e ≡ x) ⊎ IsIn e l

abbrev pub IsDomain : String → StatusType → List (String × StatusType) → Type 0
IsDomain d status [] = ⊥
IsDomain d status ((d₁, status₁) ∷ m) = ((d ≡ d₁) × (status ≡ status₁)) ⊎ IsDomain d status m

-- The status of the domains that a command is meant for.
abbrev pub IsMeant : CommandType → StatusType → Type 0
IsMeant CommandType.download status = status ≡ identified
IsMeant CommandType.update status = status ≡ download_success
IsMeant CommandType.activate status = status ≡ update_success
IsMeant CommandType.cleanup status = (status ≡ activation_success) ⊎ (status ≡ rollback_success)
IsMeant CommandType.rollback status = (status ≡ download_success) ⊎ (status ≡ update_success)
IsMeant (CommandType.other t) status = ⊥

-- The agent of a domain with a listed status, among `m`.
abbrev Listed : List StatusType → List (String × StatusType) → Session → Agent → Type 0
Listed l m s agent =
    (d : String) × (status : StatusType) × IsDomain d status m
    × (contains l status ≡ true)
    × (get_domain_agent d s ≡ some agent)

abbrev pub order : Agent → CommandType → Session → Effect
order agent c s = command agent s.op.activity_id (record { command = c; baseline = "" })

-- One domain of the loop.
abbrev next : List StatusType → CommandType → String → StatusType → Session → Session
next l c d status s = if contains l status then command_agent s.op.activity_id d c s else s

next-cases :
    (l : List StatusType) (c : CommandType) (d : String) (status : StatusType) (s : Session)
    → ((next l c d status s ≡ s)
        × ((agent : Agent) → contains l status ≡ true → get_domain_agent d s ≡ some agent → ⊥))
      ⊎ ((agent : Agent) × (contains l status ≡ true)
          × (get_domain_agent d s ≡ some agent)
          × (next l c d status s ≡ emit (order agent c s) s))
unfolding command_agent
next-cases l c d status s = elim (Bool-cases (contains l status)) [
  | inr unlisted ↦ inl (ground arith, λ a h k. ground arith)
  | inl listed ↦ elim (Option-cases (get_domain_agent d s)) [
    | inl none_there ↦ inl (ground arith, λ a h k. ground arith)
    | inr (agent, there) ↦ inr (agent, listed, there, ground arith)
  ]
]

-- The loop keeps what was sent.
execute_on-keeps :
    (l : List StatusType) (c : CommandType) (m : List (String × StatusType)) (s : Session)
    (e : Effect)
    → IsIn e s.sent
    → IsIn e (execute_on l c m s).sent
unfolding execute_on
execute_on-keeps l c [] s e h = h
execute_on-keeps l c ((d, status) ∷ m) s e h = elim (next-cases l c d status s) [
  | inl (same, n) ↦
      execute_on-keeps l c m (next l c d status s) e (subst (λ t. IsIn e t.sent) (sym same) h)
  | inr (agent, listed, there, same) ↦
      execute_on-keeps l c m (next l c d status s) e (subst (λ t. IsIn e t.sent) (sym same) (inr h))
]

-- What it sends are the orders to the listed agents.
execute_on_sound :
    (l : List StatusType) (c : CommandType) (m : List (String × StatusType)) (s : Session)
    (e : Effect)
    → IsIn e (execute_on l c m s).sent
    → IsIn e s.sent ⊎ ((agent : Agent) × (e ≡ order agent c s) × Listed l m s agent)
unfolding execute_on get_domain_agent
execute_on_sound l c [] s e h = inl h
execute_on_sound l c ((d, status) ∷ m) s e h = elim (next-cases l c d status s) [
  | inl (same, n) ↦
      elim (execute_on_sound l c m s e (subst (λ t. IsIn e (execute_on l c m t).sent) same h)) [
        | inl before ↦ inl before
        | inr (agent, is, (d₁, st, there, listed, has)) ↦
            inr (agent, is, (d₁, st, inr there, listed, has))
      ]
  | inr (agent, listed, has, same) ↦
      elim (execute_on_sound l c m (emit (order agent c s) s) e
        (subst (λ t. IsIn e (execute_on l c m t).sent) same h)) [
          | inl (inl first) ↦ inr (agent, first, (d, status, inl (refl, refl), listed, has))
          | inl (inr before) ↦ inl before
          | inr (a, is, (d₁, st, there, listed₁, has₁)) ↦
              inr (a, is, (d₁, st, inr there, listed₁, has₁))
        ]
]

execute_on_complete :
    (l : List StatusType) (c : CommandType) (m : List (String × StatusType)) (s : Session)
    (agent : Agent)
    → Listed l m s agent
    → IsIn (order agent c s) (execute_on l c m s).sent
unfolding execute_on get_domain_agent
execute_on_complete l c [] s agent (d, st, there, listed, has) = absurd there
execute_on_complete l c ((d, status) ∷ m) s agent (d₁, st, inl (e, f), listed, has) =
    elim (next-cases l c d status s) [
      | inl (same, n) ↦ absurd (
          n agent (subst (λ t. contains l t ≡ true) f listed)
            (subst (λ t. get_domain_agent t s ≡ some agent) e has))
      | inr (a, y, k, same) ↦
          execute_on-keeps l c m (next l c d status s) (order agent c s)
            (subst (λ t. IsIn (order agent c s) t.sent) (sym same) (inl (ground arith)))
    ]
execute_on_complete l c ((d, status) ∷ m) s agent (d₁, st, inr there, listed, has) =
    elim (next-cases l c d status s) [
      | inl (same, n) ↦
          subst (λ t. IsIn (order agent c s) (execute_on l c m t).sent) (sym same)
            (execute_on_complete l c m s agent (d₁, st, there, listed, has))
      | inr (a, y, k, same) ↦
          subst (λ t. IsIn (order agent c s) (execute_on l c m t).sent) (sym same)
            (execute_on_complete l c m (emit (order a c s) s) agent (d₁, st, there, listed, has))
    ]

-- The orders that tell the agents a command, in an operation before its handler runs.
abbrev pub Told : CommandType → Session → Effect → Type 0
Told c s e =
    (agent : Agent) × (e ≡ order agent c s)
    × ((d : String) × (status : StatusType) × IsDomain d status s.op.domains
        × IsMeant c status
        × (get_domain_agent d s ≡ some agent))

abbrev pub IsCommand : Effect → Type 0
IsCommand (command agent activity_id c) = Unit
IsCommand _ = ⊥

-- Of the commands to agents, exactly those orders are sent between two sessions.
abbrev pub Tells : CommandType → Session → Session → Type 0
Tells c s s' =
    (e : Effect)
    → IsCommand e
    → (IsIn e s'.sent → IsIn e s.sent ⊎ Told c s e) × (IsIn e s.sent ⊎ Told c s e → IsIn e s'.sent)

addressed-IsMeant :
    (c : CommandType) (status : StatusType)
    → (contains (addressed c) status ≡ true → IsMeant c status)
      × (IsMeant c status → contains (addressed c) status ≡ true)
unfolding contains
addressed-IsMeant CommandType.download status = (
  λ h. ground (arith, status_beq_iff status identified),
  λ h. ground (arith, status_beq_iff status identified),
)
addressed-IsMeant CommandType.update status = (
  λ h. ground (arith, status_beq_iff status download_success),
  λ h. ground (arith, status_beq_iff status download_success),
)
addressed-IsMeant CommandType.activate status = (
  λ h. ground (arith, status_beq_iff status update_success),
  λ h. ground (arith, status_beq_iff status update_success),
)
addressed-IsMeant CommandType.cleanup status = (
  λ h.
      ground
        (arith, status_beq_iff status activation_success, status_beq_iff status rollback_success),
  λ h.
      ground
        (arith, status_beq_iff status activation_success, status_beq_iff status rollback_success),
)
addressed-IsMeant CommandType.rollback status = (
  λ h. ground (arith, status_beq_iff status download_success, status_beq_iff status update_success),
  λ h. ground (arith, status_beq_iff status download_success, status_beq_iff status update_success),
)
addressed-IsMeant (CommandType.other t) status = (λ h. cc, λ h. absurd h)

-- The orders are about the same domains and agents in both sessions, which have sent the same commands.
pub record Kept (s u : Session) : Type 0 where
  pub domains : u.op.domains ≡ s.op.domains
  pub activity : u.op.activity_id ≡ s.op.activity_id
  pub agents : u.op.states_per_domain ≡ s.op.states_per_domain
  pub gone : (e : Effect) → IsCommand e → IsIn e u.sent → IsIn e s.sent
  pub back : (e : Effect) → IsCommand e → IsIn e s.sent → IsIn e u.sent

get_domain_agent-same :
    (d : String) (s u : Session)
    → u.op.states_per_domain ≡ s.op.states_per_domain
    → get_domain_agent d u ≡ get_domain_agent d s
unfolding get_domain_agent
get_domain_agent-same d s u e =
    λ i. get_domain_agent d (record u { op = record u.op { states_per_domain = e i } })

order-same :
    (agent : Agent) (c : CommandType) (s u : Session) → Kept s u → order agent c u ≡ order agent c s
order-same agent c s u k =
    ap (λ a. command agent a (record { command = c; baseline = "" })) k.activity

pub execute_on-Tells :
    (c : CommandType) (s u : Session)
    → Kept s u
    → Tells c s (execute_on (addressed c) c u.op.domains u)
execute_on-Tells c s u k e is = (
  λ h. elim (execute_on_sound (addressed c) c u.op.domains u e h) [
    | inl before ↦ inl (k.gone e is before)
    | inr (agent, same, (d, status, there, listed, has)) ↦ inr (
      agent,
      same ∙ order-same agent c s u k,
      (
        d,
        status,
        subst (IsDomain d status) k.domains there,
        (addressed-IsMeant c status).0 listed,
        sym (get_domain_agent-same d s u k.agents) ∙ has,
      ),
    )
  ],
  λ h. elim h [
    | inl before ↦ execute_on-keeps (addressed c) c u.op.domains u e (k.back e is before)
    | inr (agent, same, (d, status, there, meant, has)) ↦
        subst (λ e. IsIn e (execute_on (addressed c) c u.op.domains u).sent)
          (order-same agent c s u k ∙ sym same)
          (execute_on_complete (addressed c) c u.op.domains u agent (
            d,
            status,
            subst (IsDomain d status) (sym k.domains) there,
            (addressed-IsMeant c status).1 meant,
            get_domain_agent-same d s u k.agents ∙ has,
          ))
  ],
)
