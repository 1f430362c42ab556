-- ===== src/Orchestration/System/Journey.antt =====
-- A whole update in which every agent succeeds, as a run of the goroutines with the events that it handles.
use update_manager.Base.{
  some, String, Bool, true, false, ◌≡◌, ◌≢◌, refl, ◌∙◌, List, [], ◌∷◌, ◌++◌, All, string_eq, arith,
  returns, has_key,
}
use update_manager.Types.{
  StatusType, status_eq, CommandType, command_eq, Action, is_approved, OwnerConsentFeedback,
}
use update_manager.Util.{contains}
use update_manager.Orchestration.Operation.{CommandChannels, Chan}
use update_manager.Orchestration.Session.{Session, Effect}
use update_manager.Orchestration.Signals.{Texts}
use update_manager.Orchestration.Feedback.Plan.{run, plan}
use update_manager.Orchestration.Feedback.{Event, handle_event}
use update_manager.Orchestration.Consent.{granted, get_owner_consent}
use update_manager.Orchestration.System.{
  Pc, System, Step, event, handles, answers, wakes, ends, Reach, starts, then_step, init,
}
use update_manager.Orchestration.System.Orders.{mixed, has_key-mixed, Covers}
use update_manager.Util.Keys.{IsDistinct}
use update_manager.Orchestration.System.Success.{during, HasComponents, handle_event-stored}

-- What a run shows: an agent reported, the owner approved, the handler of a command ran.
pub data Mark : Type 0 where
  reported : Event → Mark
  approved : Mark
  ran : CommandType → Mark

-- A wait of the main loop that ends.
abbrev pub IsWait : {x : Texts} {t u : System} → Step x t u → Type 0
IsWait (wakes c w r at e same) = Unit
IsWait (ends w r at e same) = Unit
IsWait _ = ⊥

-- An answer of the owner about this operation, which approves.
abbrev pub IsApproval : {x : Texts} {t u : System} → Step x t u → Type 0
IsApproval {t} (answers activity_id f op e same) =
    (activity_id ≡ t.session.op.activity_id)
    × ((consent : OwnerConsentFeedback) × (f ≡ some consent) × (is_approved consent.status ≡ true))
IsApproval _ = ⊥

-- The handler of the command runs to its end, with the owner's consent.
abbrev pub IsGranted : {x : Texts} {t u : System} → CommandType → Step x t u → Type 0
IsGranted {t} c (handles o before after c₀ u e done same) =
    (c₀ ≡ c) × ((v : Session) × (get_owner_consent o c₀ t.session ≡ granted v))
IsGranted c _ = ⊥

-- The steps of the goroutines from the start of an operation, with what they show, newest first. Every step
-- but the wait of the main loop shows: no handler is refused, and no answer refuses.
pub data Run (x : Texts) (s : Session) : List Mark → System → Type 0 where
  begins : Run x s [] (init s)
  reports :
      {es : List Mark} {t : System}
      → Run x s es t
      → (v : Event) (u : Session) → has_key v.domain t.session.op.domains ≡ true
      → handle_event v.domain v.status v.message v.actions t.session ≡ returns u
      → Run x s (reported v ∷ es) (record t { session = u })
  moves :
      {es : List Mark} {t u : System}
      → Run x s es t
      → (step : Step x t u) → IsWait step
      → Run x s es u
  approves :
      {es : List Mark} {t u : System}
      → Run x s es t
      → (step : Step x t u) → IsApproval step
      → Run x s (approved ∷ es) u
  runs :
      {es : List Mark} {t u : System}
      → Run x s es t
      → (c : CommandType) (step : Step x t u) → IsGranted c step
      → Run x s (ran c ∷ es) u

pub Run-Reach : (x : Texts) (s : Session) (es : List Mark) (t : System) → Run x s es t → Reach x s t
Run-Reach x s es t begins = starts
Run-Reach x s es t (reports {es = fs} {t = b} r v u k e) =
    then_step (Run-Reach x s fs b r) (event v u k e refl)
Run-Reach x s es t (moves {t = b} r step q) = then_step (Run-Reach x s es b r) step
Run-Reach x s es t (approves {es = fs} {t = b} r step q) = then_step (Run-Reach x s fs b r) step
Run-Reach x s es t (runs {es = fs} {t = b} r c step q) = then_step (Run-Reach x s fs b r) step

-- The reports of the domains in one phase, newest first.
abbrev pub Reports : Type 0
Reports = List (String × List Action)

abbrev pub names : Reports → List String
names [] = []
names ((d, actions) ∷ l) = d ∷ names l

abbrev pub events : StatusType → Reports → List Mark
events status [] = []
events status ((d, actions) ∷ l) =
    reported (record { domain = d; status = status; message = ""; actions = actions })
    ∷ events status l

-- Each domain reports once, with actions that name their components.
pub record IsOrder (ks : List String) (l : Reports) : Type 0 where
  pub distinct : IsDistinct (names l)
  pub within : All (λ d. contains ks d ≡ true) (names l)
  pub covers : Covers (names l) ks
  pub sound : All (λ r. HasComponents r.1) l

tail-fresh :
    (d later : String) (l : List String) → contains (d ∷ l) later ≡ false → contains l later ≡ false
unfolding contains
tail-fresh d later l h = ground arith

nothing : (ks : List String) → Covers [] ks → ks ≡ []
unfolding contains
nothing [] h = refl
nothing (k ∷ ks) (h, hs) = cc

-- The reports of one phase. `waits` is a report that is not the last one, and `last` the last one.
module _ (x : Texts) (s : Session) (ks : List String) (rb : Bool)
    (op_status a b status : StatusType) (ch : CommandChannels) (dn : Chan) (z : List Effect)
    (pc : Pc) (spawned : List CommandType) (IsFull : List Action → Type 0)
    (distinct : IsDistinct ks)
    (waits : (A : List (String × List (String × Action))) (d : String) (actions : List Action)
        (before : List String) (later : String)
      → IsFull actions
      → contains ks d ≡ true
      → contains before d ≡ false
      → contains ks later ≡ true
      → contains (d ∷ before) later ≡ false
      → run (plan status) d "" actions (during s rb op_status (mixed a b before ks) ch dn A z)
        ≡ returns (during s rb op_status (mixed a b (d ∷ before) ks) ch dn A z)) where
  abbrev within_phase : List String → List (String × List (String × Action)) → System
  within_phase before A = record {
    session = during s rb op_status (mixed a b before ks) ch dn A z;
    pc = pc;
    spawned = spawned;
    pending = [];
  }

  phase-waits :
      (es : List Mark) (A : List (String × List (String × Action))) (later : String) (l : Reports)
      → contains ks later ≡ true
      → IsDistinct (later ∷ names l)
      → All (λ d. contains ks d ≡ true) (names l)
      → All (λ r. HasComponents r.1) l
      → All (λ r. IsFull r.1) l
      → Run x s es (within_phase [] A)
      → (A' : List (String × List (String × Action))) × Run x s
          (events status l ++ es)
          (within_phase (names l) A')
  phase-waits es A later [] k u w c f r = (A, r)
  phase-waits es A later ((d, actions) ∷ l) k (n, (m, u)) (kd, w) (cd, c) (fd, f) r =
      let (B, earlier) = phase-waits es A later l k (tail-fresh d later (names l) n, u) w c f r in
      let (C, e) =
        handle_event-stored d status "" actions
          (during s rb op_status (mixed a b (names l) ks) ch dn B z) cd in
      (
        C,
        reports earlier (record { domain = d; status = status; message = ""; actions = actions })
            (during s rb op_status (mixed a b (d ∷ names l) ks) ch dn C z)
            (has_key-mixed a b d (names l) ks kd)
            (e ∙ waits C d actions (names l) later fd kd m k n),
      )

  -- The whole phase, with what the last report comes to.
  pub phase :
      (Ended : Session → Type 0)
      → ((A : List (String × List (String × Action))) (d : String) (actions : List Action)
            (before : List String)
          → IsFull actions
          → contains ks d ≡ true
          → contains before d ≡ false
          → Covers (d ∷ before) ks
          → (u : Session) × Ended u
            × (run
                  (plan status)
                  d
                  ""
                  actions
                  (during s rb op_status (mixed a b before ks) ch dn A z)
                ≡ returns u))
      → (es : List Mark) (A : List (String × List (String × Action))) (l : Reports) → ks ≢ []
      → IsOrder ks l
      → All (λ r. IsFull r.1) l
      → Run x s es (within_phase [] A)
      → (u : Session) × Ended u
        × Run x s
            (events status l ++ es)
            (record { session = u; pc = pc; spawned = spawned; pending = [] })
  phase Ended last es A [] full o f r = absurd (full (nothing ks o.covers))
  phase Ended last es A ((d, actions) ∷ l) full o (fd, f) r =
      let (B, earlier) = phase-waits es A d l o.within.0 o.distinct o.within.1 o.sound.1 f r in
      let (C, e) =
        handle_event-stored d status "" actions
          (during s rb op_status (mixed a b (names l) ks) ch dn B z) o.sound.0 in
      let (u, ended, e') = last C d actions (names l) fd o.within.0 o.distinct.0 o.covers in
      (
        u,
        ended,
        reports earlier (record { domain = d; status = status; message = ""; actions = actions }) u
            (has_key-mixed a b d (names l) ks o.within.0) (e ∙ e'),
      )
