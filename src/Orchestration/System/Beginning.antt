-- ===== src/Orchestration/System/Beginning.antt =====
-- What newUpdateOperation of update_operation.go leaves for the update: every domain once, all identifying.
use update_manager.Base.{
  String, true, false, ◌≡◌, ◌≢◌, refl, ap, sym, subst, inl, inr, ◌∙◌, Option, none, some, List, [],
  ◌∷◌, null, lookup, insert, string_eq, nat_eq, arith, keys, Option-cases, Eq,
}
use update_manager.Types.{StatusType, identifying, no_status, DesiredState}
use update_manager.Types.Split.{split_per_domains}
use update_manager.Orchestration.Operation.{
  Agent, UpdateOperation, generate_command_channels, new_update_operation, gather, Gathered,
}
use update_manager.Orchestration.System.Orders.{all_in}
use update_manager.Util.Keys.{IsDistinct, insert-IsDistinct}

abbrev AllAre : StatusType → List (String × StatusType) → Type 0
AllAre a [] = Unit
AllAre a ((k, v) ∷ m) = (v ≡ a) × AllAre a m

insert-AllAre :
    (a : StatusType) (d : String) (m : List (String × StatusType))
    → AllAre a m
    → AllAre a (insert d a m)
unfolding insert
insert-AllAre a d [] h = (refl, tt)
insert-AllAre a d ((k, v) ∷ m) (e, h) = ground (arith, insert-AllAre a d m h)

AllAre-all_in :
    (a : StatusType) (m : List (String × StatusType)) → AllAre a m → m ≡ all_in a (keys m)
unfolding all_in
AllAre-all_in a [] h = refl
AllAre-all_in a ((k, v) ∷ m) (e, h) = λ i. (k, e i) ∷ AllAre-all_in a m h i

null-insert {ℓ κ} :
    {K : Type ℓ} {V : Type κ} ⦃e : Eq K⦄ (k : K) (v : V) (m : List (K × V))
    → null (insert k v m) ≡ false
unfolding insert
null-insert k v [] = refl
null-insert k v ((i, w) ∷ m) = ground arith

keys-null : (m : List (String × StatusType)) → keys m ≡ [] → null m ≡ true
keys-null [] h = refl
keys-null ((k, v) ∷ m) h = cc

-- What the loop over the split keeps.
abbrev IsGathered : Gathered → Type 0
IsGathered g =
    AllAre identifying g.statuses × IsDistinct (keys g.statuses) × (null g.states ≡ null g.statuses)

abbrev with_agent : String → DesiredState → Gathered → Option Agent → Gathered
with_agent d state g none = g
with_agent d state g (some agent) = record {
  states = insert agent.pointer (agent, state) g.states;
  statuses = insert d identifying g.statuses;
}

with_agent-IsGathered :
    (d : String) (state : DesiredState) (g : Gathered) (o : Option Agent)
    → IsGathered g
    → IsGathered (with_agent d state g o)
with_agent-IsGathered d state g none h = h
with_agent-IsGathered d state g (some agent) (a, u, n) = (
  insert-AllAre identifying d g.statuses a,
  insert-IsDistinct d identifying g.statuses u,
  null-insert agent.pointer (agent, state) g.states ∙ sym (null-insert d identifying g.statuses),
)

gather-with_agent :
    (agents : List (String × Agent)) (d : String) (state : DesiredState)
    (split : List (String × DesiredState)) (g : Gathered)
    → gather agents ((d, state) ∷ split) g
      ≡ gather agents split (with_agent d state g (lookup d agents))
unfolding gather
gather-with_agent agents d state split g = elim (Option-cases (lookup d agents)) [
  | inl e ↦ rw e refl
  | inr (agent, e) ↦ rw e refl
]

gather-IsGathered :
    (agents : List (String × Agent)) (split : List (String × DesiredState)) (g : Gathered)
    → IsGathered g
    → IsGathered (gather agents split g)
unfolding gather
gather-IsGathered agents [] g h = h
gather-IsGathered agents ((d, state) ∷ split) g h =
    subst IsGathered (sym (gather-with_agent agents d state split g)) (
      gather-IsGathered agents split (with_agent d state g (lookup d agents))
        (with_agent-IsGathered d state g (lookup d agents) h))

-- A new operation: what it has of its own, and the rest as it is for every update.
pub record IsNew (op : UpdateOperation) : Type 0 where
  pub status : op.status ≡ identifying
  pub delayed : op.delayed_status ≡ no_status
  pub domains : op.domains ≡ all_in identifying (keys op.domains)
  pub distinct : IsDistinct (keys op.domains)
  pub full : keys op.domains ≢ []
  pub channels : op.command_channels ≡ generate_command_channels
  pub done : op.done ≡ none
  pub consented : op.owner_consented ≡ none
  pub reboot : op.reboot_required ≡ false

pub new_update_operation-IsNew :
    (agents : List (String × Agent)) (a : String) (state : DesiredState) (op : UpdateOperation)
    → new_update_operation agents a state ≡ some op
    → IsNew op
unfolding new_update_operation
new_update_operation-IsNew agents a state op e =
    let g = gather agents (split_per_domains state) (record { states = []; statuses = [] }) in
    let (all, distinct, same) =
      gather-IsGathered agents (split_per_domains state) (record { states = []; statuses = [] })
        (tt, tt, refl) in
    let own : op.domains ≡ g.statuses = ground arith in
    record {
      status = ground arith;
      delayed = ground arith;
      domains =
          own
          ∙ AllAre-all_in identifying g.statuses all
          ∙ ap (λ m. all_in identifying (keys m)) (sym own);
      distinct = subst (λ m. IsDistinct (keys m)) (sym own) distinct;
      full = λ nothing.
          let empty = keys-null g.statuses (ap keys (sym own) ∙ nothing) in
          ground (arith, same, empty);
      channels = ground arith;
      done = ground arith;
      consented = ground arith;
      reboot = ground arith;
    }
