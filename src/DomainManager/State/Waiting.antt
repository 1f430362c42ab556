-- ===== src/DomainManager/State/Waiting.antt =====
-- Get of update_manager.go beside the reports of update_manager_handler.go.
use update_manager.Base.{
  String, true, false, ◌≡◌, refl, ap, ◌∙◌, All, ◌≢◌, ◌⊎◌, inl, inr, Option, none, some, List, [],
  ◌∷◌, returns, ◌>>=◌, ℤ, string_eq, eq_iff, arith, Bool-cases,
}
use update_manager.Types.{Inventory}
use update_manager.DomainManager.State.{
  CurrentState, handle_current_state, is_outdated, Event, Report, handle_reports, begin_get,
  end_get, received, Got,
}

-- A report of another activity than the expected one that is handled to the end leaves the channel
-- of the waiting Get, and the expected activity, as they are.
handle_current_state-other :
    (a : String) (ts : ℤ) (i : Option Inventory) (s : CurrentState)
    (r : CurrentState × Option Event)
    → a ≢ s.exp_activity_id
    → handle_current_state a ts i s ≡ returns r
    → (r.0.receive_chan ≡ s.receive_chan) × (r.0.exp_activity_id ≡ s.exp_activity_id)
unfolding handle_current_state
handle_current_state-other a ts i s r n e =
    (ground (arith, eq_iff a s.exp_activity_id), ground (arith, eq_iff a s.exp_activity_id))

-- While Get waits for the activity `a`, and no report of that activity has come.
record IsWaiting (a : String) (s : CurrentState) : Type 0 where
  expected : s.exp_activity_id ≡ a
  empty : s.receive_chan ≡ some none

-- A report of another activity never waits.
other-returns :
    (a b : String) (ts : ℤ) (i : Option Inventory) (s : CurrentState)
    → b ≢ a
    → IsWaiting a s
    → (r : CurrentState × Option Event) × (handle_current_state b ts i s ≡ returns r)
      × IsWaiting a r.0
unfolding handle_current_state
other-returns a b ts i s n w = elim (Bool-cases (is_outdated ts s)) [
  | inl e ↦ ((s, none), ground arith, w)
  | inr e ↦ (
    (record s { inventory = i; timestamp = ts }, some (b, i)),
    ground (arith, eq_iff b a, w.expected),
    record { expected = w.expected; empty = w.empty },
  )
]

others-return :
    (a : String) (rs : List Report) (s : CurrentState)
    → All (λ r. r.activity_id ≢ a) rs
    → IsWaiting a s
    → (t : CurrentState) × (handle_reports rs s ≡ returns t) × IsWaiting a t
unfolding handle_reports
others-return a [] s n w = (s, refl, w)
others-return a (r ∷ rs) s (n, ns) w =
    let (t, e, w') = other-returns a r.activity_id r.timestamp (some r.inventory) s n w in
    let (u, e', w'') = others-return a rs t.0 ns w' in
    (u, ap (λ o. o >>= λ t. handle_reports rs t.0) e ∙ e', w'')

-- The results of a Get that is answered, and the state that it leaves.
abbrev pub answered : Option Inventory → ℤ → CurrentState × Got
answered i ts = (
  record { exp_activity_id = ""; receive_chan = none; inventory = i; timestamp = ts },
  record { inventory = i; failed = false },
)

waiting-receives :
    (a : String) (ts : ℤ) (i : Option Inventory) (t : CurrentState)
    → a ≢ ""
    → is_outdated ts t ≡ false
    → IsWaiting a t
    → (u : CurrentState) × (handle_current_state a ts i t ≡ returns (u, some (a, i)))
      × (end_get received u ≡ some (answered i ts))
unfolding handle_current_state end_get
waiting-receives a ts i t n o w = (
  record { exp_activity_id = a; receive_chan = some (some true); inventory = i; timestamp = ts },
  ground (arith, eq_iff a "", eq_iff a a, w.expected, w.empty),
  ground arith,
)

waiting-blocks : (a : String) (t : CurrentState) → IsWaiting a t → end_get received t ≡ none
unfolding end_get
waiting-blocks a t w = ground (arith, w.empty)

begin_get-IsWaiting : (a : String) (s : CurrentState) → a ≢ "" → IsWaiting a (begin_get a true s).0
unfolding begin_get
begin_get-IsWaiting a s n = record { expected = refl; empty = ground (arith, eq_iff a "") }

get-receives :
    (a : String) (ts : ℤ) (i : Option Inventory) (s : CurrentState)
    → a ≢ ""
    → is_outdated ts s ≡ false
    → let t = (begin_get a true s).0 in
      (u : CurrentState) × (handle_current_state a ts i t ≡ returns (u, some (a, i)))
      × (end_get received u ≡ some (answered i ts))
unfolding begin_get
get-receives a ts i s n o =
    waiting-receives a ts i (begin_get a true s).0 n o (begin_get-IsWaiting a s n)

-- While Get of an activity with an ID waits, the reports of other activities are all handled and leave it waiting;
-- the next report of its activity is either older than the known state, and dropped, or Get returns its inventory
-- and then expects no activity.
pub get-waits :
    (a : String) (s : CurrentState) (others : List Report) (ts : ℤ) (i : Option Inventory)
    → a ≢ ""
    → All (λ r. r.activity_id ≢ a) others
    → (t : CurrentState) × (handle_reports others (begin_get a true s).0 ≡ returns t)
      × (end_get received t ≡ none)
      × (((is_outdated ts t ≡ true) × (handle_current_state a ts i t ≡ returns (t, none)))
          ⊎ ((is_outdated ts t ≡ false)
              × ((u : CurrentState) × (handle_current_state a ts i t ≡ returns (u, some (a, i)))
                  × (end_get received u ≡ some (answered i ts)))))
unfolding handle_current_state
get-waits a s others ts i n ns =
    let (t, e, w) = others-return a others (begin_get a true s).0 ns (begin_get-IsWaiting a s n) in
    (
      t,
      e,
      waiting-blocks a t w,
      elim (Bool-cases (is_outdated ts t)) [
        | inl o ↦ inl (o, ground arith)
        | inr o ↦ inr (o, waiting-receives a ts i t n o w)
      ],
    )
