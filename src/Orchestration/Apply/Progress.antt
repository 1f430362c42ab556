-- ===== src/Orchestration/Apply/Progress.antt =====
-- When the main loop comes to its end.
use update_manager.Base.{
  suc, ◌≤◌, ◌≢◌, true, false, ◌≡◌, refl, sym, ap, ◌∙◌, inl, inr, none, some, List, [], ◌∷◌, All,
  length, map, ◌++◌, arith, Option-cases, Bool-cases, ◌&&◌, not, ◌==◌, if◌then◌else◌,
}
use update_manager.Types.{CommandType, command_eq}
use update_manager.Orchestration.Session.{Session}
use update_manager.Orchestration.Signals.{Texts, Source, wait_signal, wait_command_signal}
use update_manager.Orchestration.Apply.{
  Turn, Loop, Applied, wait_turn, rounds, await_done, after_download, apply_loop, start_apply,
}

-- The channels that the main loop waits for.
abbrev pub IsAwaited : Source → Type 0
IsAwaited (Source.command CommandType.download) = Unit
IsAwaited (Source.command CommandType.update) = Unit
IsAwaited (Source.command CommandType.activate) = Unit
IsAwaited (Source.command CommandType.cleanup) = Unit
IsAwaited (Source.command _) = ⊥
IsAwaited Source.done = Unit

-- In the wait for each of the channels a case comes to be ready, in the turn that `next` gives for it.
abbrev pub IsServed : Texts → (Source → Turn) → Type 0
IsServed x next =
    (source : Source)
    → IsAwaited source
    → wait_signal x source (next source).1 (next source).0 ≢ none

abbrev with_turns : Loop → List Turn → Loop
with_turns l turns = record l { turns = turns }

wait_command_signal-some :
    (x : Texts) (c : CommandType) (t : Turn)
    → wait_signal x (Source.command c) t.1 t.0 ≢ none
    → wait_command_signal x c t.1 t.0 ≢ none
unfolding wait_command_signal
wait_command_signal-some x c t r = ground arith

-- The three ways of a round.
module _ (x : Texts) (c : CommandType) (cs : List CommandType) (l : Loop) where
  rounds-stops : l.running ≡ false → rounds x (c ∷ cs) l ≡ some l
  unfolding rounds
  rounds-stops h = ground arith

  rounds-skips :
      l.running ≡ true
      → (l.rollback && not (c == CommandType.cleanup)) ≡ true
      → rounds x (c ∷ cs) l ≡ rounds x cs l
  unfolding rounds
  rounds-skips h k = ground arith

  rounds-waits :
      (t : Loop)
      → l.running ≡ true
      → (l.rollback && not (c == CommandType.cleanup)) ≡ false
      → wait_turn x c l ≡ some t
      → rounds x (c ∷ cs) l ≡ rounds x cs t
  unfolding rounds
  rounds-waits t h k e = ground arith

-- The loop with the turns that `next` gives.
module _ (x : Texts) (next : Source → Turn) (served : IsServed x next) where
  -- The turns of a list of waits, and then others.
  abbrev turns_of : List Source → List Turn → List Turn
  turns_of sources more = map next sources ++ more

  wait_turn-served :
      (c : CommandType) (l : Loop)
      → IsAwaited (Source.command c)
      → (t : Loop) × ((more : List Turn)
          → wait_turn x c (with_turns l (next (Source.command c) ∷ more))
            ≡ some (with_turns t more))
  unfolding wait_turn
  wait_turn-served c l h =
      let turn = next (Source.command c) in
      elim (Option-cases (wait_command_signal x c turn.1 turn.0)) [
        | inl stuck ↦ absurd (wait_command_signal-some x c turn (served (Source.command c) h) stuck)
        | inr (g, f) ↦ (
          record {
            running = g.running;
            rollback = g.rollback;
            err = g.err;
            now = g.after;
            spawned = if g.spawned then c ∷ l.spawned else l.spawned;
            turns = [];
          },
          λ more. rw f refl,
        )
      ]

  rounds-served :
      (cs : List CommandType) (l : Loop)
      → All (λ c. IsAwaited (Source.command c)) cs
      → (sources : List Source) × (length sources ≤ length cs)
        × All IsAwaited sources
        × ((l' : Loop) × ((more : List Turn)
              → rounds x cs (with_turns l (turns_of sources more)) ≡ some (with_turns l' more)))
  unfolding rounds
  rounds-served [] l h = ([], omega arith, tt, (l, λ more. refl))
  rounds-served (c ∷ cs) l (h, hs) = elim (Bool-cases l.running) [
    | inl go ↦ elim (Bool-cases (l.rollback && not (c == CommandType.cleanup))) [
      | inl skip ↦
          let (sources, n, awaited, (l', e)) = rounds-served cs l hs in
          (
            sources,
            omega arith,
            awaited,
            (
              l',
              λ more. rounds-skips x c cs (with_turns l (turns_of sources more)) go skip ∙ e more,
            ),
          )
      | inr wait ↦
          let (t, f) = wait_turn-served c l h in
          let (sources, n, awaited, (l', e)) = rounds-served cs t hs in
          (
            Source.command c ∷ sources,
            omega arith,
            (h, awaited),
            (
              l',
              λ more.
                  rounds-waits x c cs
                    (with_turns l (next (Source.command c) ∷ turns_of sources more))
                    (with_turns t (turns_of sources more)) go wait (f (turns_of sources more))
                  ∙ e more,
            ),
          )
    ]
    | inr stop ↦ ([], omega arith, tt, (l, λ more. rounds-stops x c cs (with_turns l more) stop))
  ]

  await_done-served :
      (l : Loop) → (r : Applied) × (await_done x (with_turns l (next Source.done ∷ [])) ≡ some r)
  unfolding await_done
  await_done-served l = elim (Option-cases (await_done x (with_turns l (next Source.done ∷ [])))) [
    | inl stuck ↦ absurd (served Source.done tt (waits stuck))
    | inr found ↦ found
  ]
    where
      waits :
          await_done x (with_turns l (next Source.done ∷ [])) ≡ none
          → wait_signal x Source.done (next Source.done).1 (next Source.done).0 ≡ none
      waits e = ground arith

abbrev later : List CommandType
later = CommandType.update ∷ CommandType.activate ∷ CommandType.cleanup ∷ []

abbrev entry : Session → List Turn → Loop
entry s turns = record {
  running = true;
  rollback = false;
  err = none;
  now = start_apply s;
  spawned = [];
  turns = turns;
}

apply_loop-first :
    (x : Texts) (s : Session) (turns : List Turn) (l : Loop)
    → wait_turn x CommandType.download (entry s turns) ≡ some l
    → apply_loop x s turns ≡ after_download x l
unfolding apply_loop
apply_loop-first x s turns l e = ground arith

after_download-some :
    (x : Texts) (l l' : Loop) (a : Applied)
    → rounds x later l ≡ some l'
    → await_done x l' ≡ some a
    → after_download x l ≢ none
unfolding after_download
after_download-some x l l' a e f = ground arith

map-append :
    (next : Source → Turn) (l : List Source)
    → map next (l ++ Source.done ∷ []) ≡ map next l ++ next Source.done ∷ []
map-append next [] = refl
map-append next (c ∷ l) = ap (λ m. next c ∷ m) (map-append next l)

All-append : (l : List Source) → All IsAwaited l → All IsAwaited (l ++ Source.done ∷ [])
All-append [] h = (tt, tt)
All-append (c ∷ l) (h, hs) = (h, All-append l hs)

length-append : (l : List Source) → length (l ++ Source.done ∷ []) ≡ suc (length l)
length-append [] = refl
length-append (c ∷ l) = ap suc (length-append l)

-- If in the wait for each of the channels DOWNLOAD, UPDATE, ACTIVATE, CLEANUP and the end some case of the
-- `select` comes to be ready, whichever it is, then `apply` comes to its end, after at most five waits: the
-- turns of at most five of these waits give a result.
pub apply_loop-ends :
    (x : Texts) (s : Session) (next : Source → Turn)
    → IsServed x next
    → (sources : List Source) × (length sources ≤ 5)
      × All IsAwaited sources
      × ((r : Applied) × (apply_loop x s (map next sources) ≡ some r))
apply_loop-ends x s next served =
    let (t, first) = wait_turn-served x next served CommandType.download (entry s []) tt in
    let (sources, n, awaited, (l, e)) = rounds-served x next served later t (tt, (tt, (tt, tt))) in
    let (a, f) = await_done-served x next served l in
    let all = Source.command CommandType.download ∷ (sources ++ Source.done ∷ []) in
    let start = with_turns t (map next sources ++ next Source.done ∷ []) in
    let begins : apply_loop x s (map next all) ≡ after_download x start =
      ap (λ m. apply_loop x s (next (Source.command CommandType.download) ∷ m))
        (map-append next sources)
      ∙ apply_loop-first x s _ start (first _) in
    let size = length-append sources in
    (
      all,
      omega arith,
      (tt, All-append sources awaited),
      elim (Option-cases (apply_loop x s (map next all))) [
        | inl stuck ↦ absurd (
            after_download-some x start (with_turns l (next Source.done ∷ [])) a (e _) f
              (sym begins ∙ stuck))
        | inr found ↦ found
      ],
    )
