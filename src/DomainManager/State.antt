-- ===== src/DomainManager/State.antt =====
-- The current state that a domain reports: update_manager_handler.go and Get of update_manager.go.
pub mod Waiting
use update_manager.Base.{
  String, Bool, true, false, ◌≡◌, refl, ap, ◌∙◌, subst, All, ◌==◌, ◌&&◌, ◌⊎◌, inl, inr, not, Option,
  none, some, List, [], ◌∷◌, Outcome, returns, blocks, >>=-eq-returns, ◌>>=◌, ℤ, pos, negsuc,
  lt_int, if◌then◌else◌, string_eq, arith,
}
use update_manager.Types.{Inventory}
use update_manager.DomainManager.Clock.{IsUpTo, IsUpTo-refl, IsUpTo-trans}

-- internalCurrentState; the nil channel is `none`, and a channel is its buffer.
pub record CurrentState : Type 0 where
  pub exp_activity_id : String
  pub receive_chan : Option (Option Bool)
  pub inventory : Option Inventory
  pub timestamp : ℤ

-- setCurrentStateActivityID
unfoldable pub set_current_state_activity_id : String → CurrentState → CurrentState
set_current_state_activity_id activity_id s = record s {
  exp_activity_id = activity_id;
  receive_chan = if activity_id == "" then none else some none;
}

-- What HandleCurrentState passes on to HandleCurrentStateEvent of the callback.
abbrev pub Event : Type 0
Event = String × Option Inventory

abbrev is_some {ℓ} : {A : Type ℓ} → Option A → Bool
is_some none = false
is_some (some a) = true

-- The event is older than what is known.
abbrev pub is_outdated : ℤ → CurrentState → Bool
is_outdated timestamp s = is_some s.inventory && lt_int timestamp s.timestamp

-- `receiveChan <- true` waits for ever on the nil channel, and for room in a full one.
signal : CurrentState → Outcome CurrentState
signal s = elim s.receive_chan [
  | none ↦ blocks
  | some buffer ↦ elim buffer [
    | none ↦ returns (record s { receive_chan = some (some true) })
    | some _ ↦ blocks
  ]
]

-- HandleCurrentState: the new state, and the event that the callback gets, if any.
unfoldable pub handle_current_state :
    String → ℤ → Option Inventory → CurrentState → Outcome (CurrentState × Option Event)
unfolding signal
handle_current_state activity_id timestamp inventory s =
    if is_outdated timestamp s
    then returns (s, none)
    else let t = record s { inventory = inventory; timestamp = timestamp } in
      let event : Event = (activity_id, inventory) in
      if not (activity_id == "") && activity_id == t.exp_activity_id
      then (do u ← signal t; returns (u, some event))
      else returns (t, some event)

-- What ends the wait of Get.
pub data Woken : Type 0 where
  received timed_out terminated : Woken

-- The results of Get: the inventory, and whether there is an error.
pub record Got : Type 0 where
  pub inventory : Option Inventory
  pub failed : Bool

-- Get up to its wait; `false` is an error of SendCurrentStateGet, after which the deferred reset runs.
unfoldable pub begin_get : String → Bool → CurrentState → CurrentState × Option Got
unfolding set_current_state_activity_id
begin_get activity_id is_sent s =
    let t = set_current_state_activity_id activity_id s in
    if is_sent
    then (t, none)
    else (set_current_state_activity_id "" t, some (record { inventory = none; failed = true }))

-- The rest of Get; `none` if the chosen case is not ready.
unfoldable pub end_get : Woken → CurrentState → Option (CurrentState × Got)
unfolding set_current_state_activity_id
end_get received s = elim s.receive_chan [
  | some (some v) ↦
      some (set_current_state_activity_id "" s, record { inventory = s.inventory; failed = false })
  | some none ↦ none
  | none ↦ none
]
end_get timed_out s =
    some (set_current_state_activity_id "" s, record { inventory = s.inventory; failed = true })
end_get terminated s =
    some (set_current_state_activity_id "" s, record { inventory = none; failed = true })

-- A sequence of reported states.
pub record Report : Type 0 where
  pub activity_id : String
  pub timestamp : ℤ
  pub inventory : Inventory

unfoldable pub handle_reports : List Report → CurrentState → Outcome CurrentState
handle_reports [] s = returns s
handle_reports (r ∷ rs) s =
    handle_current_state r.activity_id r.timestamp (some r.inventory) s >>= λ t.
    handle_reports rs t.0

-- One report is either older than what is known, and dropped, or becomes what is known.
handle_current_state-cases :
    (a : String) (ts : ℤ) (i : Inventory) (s : CurrentState) (r : CurrentState × Option Event)
    → handle_current_state a ts (some i) s ≡ returns r
    → ((r.0 ≡ s) × (lt_int ts s.timestamp ≡ true) × (is_some s.inventory ≡ true))
      ⊎ ((is_outdated ts s ≡ false) × (r.0.inventory ≡ some i) × (r.0.timestamp ≡ ts))
unfolding handle_current_state
handle_current_state-cases a ts i s r e = ground arith

-- Where the final state comes from: the initial one, or a report of the list.
abbrev pub ComesFrom : List Report → CurrentState → CurrentState → Type 0
ComesFrom [] s s' = (s'.inventory ≡ s.inventory) × (s'.timestamp ≡ s.timestamp)
ComesFrom (r ∷ rs) s s' =
    ComesFrom rs s s'
    ⊎ ComesFrom rs (record s { inventory = some r.inventory; timestamp = r.timestamp }) s'

lt_asym : (a b : ℤ) → lt_int a b ≡ true → IsUpTo a b
lt_asym (pos a) (pos b) h = ground arith
lt_asym (pos a) (negsuc b) h = cc
lt_asym (negsuc a) (pos b) h = refl
lt_asym (negsuc a) (negsuc b) h = ground arith

record IsLatest (rs : List Report) (s s' : CurrentState) : Type 0 where
  known : is_some s.inventory ≡ true → IsUpTo s.timestamp s'.timestamp
  reports : All (λ r. IsUpTo r.timestamp s'.timestamp) rs

IsLatest-step :
    (r : Report) (rs : List Report) (s t s' : CurrentState)
    → ((t ≡ s) × (lt_int r.timestamp s.timestamp ≡ true) × (is_some s.inventory ≡ true))
      ⊎ ((is_outdated r.timestamp s ≡ false)
          × (t.inventory ≡ some r.inventory)
          × (t.timestamp ≡ r.timestamp))
    → IsLatest rs t s'
    → IsLatest (r ∷ rs) s s'
IsLatest-step r rs s t s' (inl (e, older, is)) h =
    let bound : IsUpTo s.timestamp s'.timestamp =
      subst (λ u. IsUpTo u.timestamp s'.timestamp) e
        (h.known (ap (λ u. is_some u.inventory) e ∙ is)) in
    record {
      known = λ _. bound;
      reports = (
        IsUpTo-trans r.timestamp s.timestamp s'.timestamp (lt_asym r.timestamp s.timestamp older)
            bound,
        h.reports,
      );
    }
IsLatest-step r rs s t s' (inr (newer, e₁, e₂)) h =
    let bound : IsUpTo r.timestamp s'.timestamp =
      subst (λ x. IsUpTo x s'.timestamp) e₂ (h.known (ap is_some e₁)) in
    record {
      known = λ is. IsUpTo-trans s.timestamp r.timestamp s'.timestamp (ground arith) bound;
      reports = (bound, h.reports);
    }

handle_reports-IsLatest :
    (rs : List Report) (s s' : CurrentState) → handle_reports rs s ≡ returns s' → IsLatest rs s s'
unfolding handle_reports
handle_reports-IsLatest [] s s' e = record {
  known = λ is.
      subst (λ t. IsUpTo s.timestamp t.timestamp) {x = s} {y = s'} (ground arith)
        (IsUpTo-refl s.timestamp);
  reports = tt;
}
handle_reports-IsLatest (r ∷ rs) s s' e =
    let (t, e₁, e₂) =
      >>=-eq-returns (handle_current_state r.activity_id r.timestamp (some r.inventory) s)
        (λ t. handle_reports rs t.0) e in
    IsLatest-step r rs s t.0 s'
      (handle_current_state-cases r.activity_id r.timestamp r.inventory s t e₁)
      (handle_reports-IsLatest rs t.0 s' e₂)

ComesFrom-same :
    (rs : List Report) (s t s' : CurrentState)
    → t.inventory ≡ s.inventory
    → t.timestamp ≡ s.timestamp
    → ComesFrom rs t s'
    → ComesFrom rs s s'
ComesFrom-same [] s t s' e f (h, k) = (h ∙ e, k ∙ f)
ComesFrom-same (r ∷ rs) s t s' e f (inl h) = inl (ComesFrom-same rs s t s' e f h)
ComesFrom-same (r ∷ rs) s t s' e f (inr h) = inr (ComesFrom-same rs _ _ s' refl refl h)

handle_reports-ComesFrom :
    (rs : List Report) (s s' : CurrentState) → handle_reports rs s ≡ returns s' → ComesFrom rs s s'
unfolding handle_reports
handle_reports-ComesFrom [] s s' e = (ground arith, ground arith)
handle_reports-ComesFrom (r ∷ rs) s s' e =
    let (t, e₁, e₂) =
      >>=-eq-returns (handle_current_state r.activity_id r.timestamp (some r.inventory) s)
        (λ t. handle_reports rs t.0) e in
    elim (handle_current_state-cases r.activity_id r.timestamp r.inventory s t e₁) [
      | inl (same, _, _) ↦ inl (
          ComesFrom-same rs s t.0 s' (ap (λ u. u.inventory) same) (ap (λ u. u.timestamp) same)
            (handle_reports-ComesFrom rs t.0 s' e₂))
      | inr (_, e₃, e₄) ↦
          inr (ComesFrom-same rs _ t.0 s' e₃ e₄ (handle_reports-ComesFrom rs t.0 s' e₂))
    ]

-- After any reported states, the known timestamp is at least that of every report, and the known
-- inventory and timestamp together are those of one report or the initial ones.
pub handle_reports-latest :
    (rs : List Report) (s s' : CurrentState)
    → handle_reports rs s ≡ returns s'
    → All (λ r. IsUpTo r.timestamp s'.timestamp) rs × ComesFrom rs s s'
handle_reports-latest rs s s' e =
    ((handle_reports-IsLatest rs s s' e).reports, handle_reports-ComesFrom rs s s' e)
