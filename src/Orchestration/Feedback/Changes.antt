-- ===== src/Orchestration/Feedback/Changes.antt =====
-- How often the agents can change the statuses of the domains.
use update_manager.Base.{
  ℕ, suc, ◌+◌, ◌*◌, ◌≤◌, ◌<◌, String, true, false, ◌≡◌, refl, ap, ◌∙◌, ◌≢◌, inl, inr, List, [], ◌∷◌,
  returns, lookup, insert, keys, has_key, keys-insert, length, string_eq, arith,
}
use update_manager.Types.{StatusType, status_eq, status_beq}
use update_manager.Orchestration.Session.{Session, status_of}
use update_manager.Orchestration.Feedback.{Event, handle_event}
use update_manager.Orchestration.Feedback.Phases.{
  in_download, in_update, in_activation, in_rollback,
}
use update_manager.Orchestration.Feedback.Completion.{is_cleaned}
use update_manager.Orchestration.Feedback.Plan.{plan}
use update_manager.Orchestration.Feedback.Frame.{written}
use update_manager.Orchestration.Feedback.Lifecycle.{
  Advances, downloads, fails_download, updates, fails_update, activates, fails_activation,
  rolls_back, fails_rollback, is_clean, is_dirty, Past, Moved, handle_event-Moved, plan-Advances,
  or_none,
}

-- How far a domain has come.
rank : StatusType → ℕ
rank StatusType.download_success = 1
rank StatusType.updating = 1
rank StatusType.update_success = 2
rank StatusType.activating = 2
rank StatusType.activation_success = 3
rank StatusType.rollback_success = 3
rank StatusType.download_failure = 3
rank StatusType.update_failure = 3
rank StatusType.activation_failure = 3
rank StatusType.rollback_failure = 3
rank StatusType.completed = 3
rank StatusType.incomplete = 3
rank StatusType.cleanup_success = 4
rank StatusType.cleanup_failure = 4
rank _ = 0

rank_le : (d : StatusType) → rank d ≤ 4
unfolding rank
rank_le StatusType.identified = omega arith
rank_le _ = omega arith

rank_uncleaned : (d : StatusType) → is_cleaned d ≡ false → rank d ≤ 3
unfolding rank status_beq
rank_uncleaned StatusType.identified h = omega arith
rank_uncleaned _ h = ground arith

rank_download : (d : StatusType) → in_download d ≡ true → rank d ≡ 0
unfolding rank status_beq
rank_download StatusType.identified h = refl
rank_download _ h = ground arith

rank_update : (d : StatusType) → in_update d ≡ true → rank d ≡ 1
unfolding rank status_beq
rank_update StatusType.identified h = ground arith
rank_update _ h = ground arith

rank_activation : (d : StatusType) → in_activation d ≡ true → rank d ≡ 2
unfolding rank status_beq
rank_activation StatusType.identified h = ground arith
rank_activation _ h = ground arith

rank_rollback : (d : StatusType) → in_rollback d ≡ true → rank d ≤ 2
unfolding rank status_beq
rank_rollback StatusType.identified h = ground arith
rank_rollback _ h = ground arith

Advances-rank : (d e : StatusType) → Advances d e → rank d < rank e
unfolding rank
Advances-rank d e (downloads h) = omega (arith, rank_download d h)
Advances-rank d e (fails_download h) = omega (arith, rank_download d h)
Advances-rank d e (updates h) = omega (arith, rank_update d h)
Advances-rank d e (fails_update h) = omega (arith, rank_update d h)
Advances-rank d e (activates h) = omega (arith, rank_activation d h)
Advances-rank d e (fails_activation h) = omega (arith, rank_activation d h)
Advances-rank d e (rolls_back h) = omega (arith, rank_rollback d h)
Advances-rank d e (fails_rollback h) = omega (arith, rank_rollback d h)
Advances-rank d e (is_clean h) = omega (arith, rank_uncleaned d h)
Advances-rank d e (is_dirty h) = omega (arith, rank_uncleaned d h)

total : List (String × StatusType) → ℕ
total [] = 0
total ((j, w) ∷ m) = rank w + total m

total_le : (m : List (String × StatusType)) → total m ≤ 4 * length (keys m)
unfolding total
total_le [] = omega arith
total_le ((j, w) ∷ m) = omega (arith, rank_le w, total_le m)

total-insert :
    (d : String) (status : StatusType) (m : List (String × StatusType))
    → has_key d m ≡ true
    → rank (or_none (lookup d m)) < rank status
    → total m < total (insert d status m)
unfolding total insert
total-insert d status [] h k = cc
total-insert d status ((j, w) ∷ m) h k = ground (arith, total-insert d status m)

-- A run of events of the operation's domains, with the number of those that changed a status.
pub data Runs (s : Session) : ℕ → Session → Type 0 where
  starts : Runs s 0 s
  keeps :
      {n : ℕ} {t u : Session}
      → Runs s n t
      → (v : Event) → has_key v.domain t.op.domains ≡ true
      → handle_event v.domain v.status v.message v.actions t ≡ returns u
      → u.op.domains ≡ t.op.domains
      → Runs s n u
  changes :
      {n : ℕ} {t u : Session}
      → Runs s n t
      → (v : Event) → has_key v.domain t.op.domains ≡ true
      → handle_event v.domain v.status v.message v.actions t ≡ returns u
      → u.op.domains ≢ t.op.domains
      → Runs s (suc n) u

-- After a run: past the identification, with the same domains, and `n` further on in total.
abbrev Counted : Session → ℕ → Session → Type 0
Counted s n t =
    Past t × (keys t.op.domains ≡ keys s.op.domains) × (total s.op.domains + n ≤ total t.op.domains)

event-total :
    (v : Event) (t u : Session)
    → has_key v.domain t.op.domains ≡ true
    → Moved (plan v.status) v.domain v.actions t u
    → u.op.domains ≢ t.op.domains
    → (keys u.op.domains ≡ keys t.op.domains) × (total t.op.domains < total u.op.domains)
event-total v t u h (past, inl e) n = absurd (n e)
event-total v t u h (past, inr (e, g)) n =
    let step = Advances-rank _ _ (plan-Advances v.status v.actions (status_of v.domain t) g) in
    (
      ap keys e ∙ keys-insert v.domain _ t.op.domains h,
      rw e (total-insert v.domain (written (plan v.status) v.actions) t.op.domains h step),
    )

Runs-Counted : {s t : Session} {n : ℕ} → Past s → Runs s n t → Counted s n t
Runs-Counted h starts = (h, refl, omega arith)
Runs-Counted {s} h (keeps {n} {t} {u} r v k e same) =
    let (past, ks, c) = Runs-Counted h r in
    ((handle_event-Moved v t u past e).0, ap keys same ∙ ks, rw same c)
Runs-Counted {s} h (changes {n} {t} {u} r v k e differ) =
    let (past, ks, c) = Runs-Counted h r in
    let moved = handle_event-Moved v t u past e in
    let (ks', more) = event-total v t u k moved differ in (moved.0, ks' ∙ ks, omega arith)

-- In an operation past its identification, at most four events for each domain change the status of a
-- domain, however many events of its domains are handled.
pub Runs-le : (s s' : Session) (n : ℕ) → Past s → Runs s n s' → n ≤ 4 * length (keys s.op.domains)
Runs-le s s' n h r =
    let (past, ks, c) = Runs-Counted h r in
    let bound : total s'.op.domains ≤ 4 * length (keys s.op.domains) =
      rw (← ks) (total_le s'.op.domains) in
    omega arith
