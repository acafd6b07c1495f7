-- ===== src/Accept/Safety.antt =====
-- What holds in every state that the accept loop and its client threads reach.
use dpitunnel_cli.Prelude.{
  ℕ, ◌≡◌, ◌≢◌, ◌∙◌, refl, sym, ◌⊎◌, inl, inr, true, false, false≢true, if◌then◌else◌,
}
use dpitunnel_cli.Accept.{
  Stage, unborn, waiting, serving, served, locking, erasing, detached, unlocking, ending, exited,
}
use dpitunnel_cli.Accept.{returned, broken, created}
use dpitunnel_cli.Accept.{
  System, stages, AcceptStep, tests_down, tests_up, nothing, fails, accepts, emplaces, clashes,
  releases, joins, returns,
}
use dpitunnel_cli.Accept.{
  ClientStep, finishes, locks, sees_up, sees_down, detaches, detach_races, erases, erase_races,
  unlocks, ends, finds_none, Step, accept_step, client_step, signal, Reach, steps,
}
use dpitunnel_cli.Accept.Kept.{known, staged, Reach-IsFitting}
use dpitunnel_cli.Accept.Fits.{IsFitting, update_cases, Fits-waiting, Leaves, Fits-gone}

-- When `accept_client_cycle` has returned, after the stop flag or after an error, every client thread
-- that it has ever started has ended, or it has served its client and detached itself: it has then
-- only to erase its entry from `Threads`, if that is still there, to give the mutex back and to end.
pub returned-gone :
    (s : System) (id : ℕ)
    → Reach s
    → s.phase ≡ returned
    → (s.stage id ≡ unborn)
      ⊎ (s.stage id ≡ exited)
      ⊎ (s.stage id ≡ detached)
      ⊎ (Leaves (s.stage id) × (s.mapped id ≡ false))
returned-gone s id r e =
    Fits-gone id (s.stage id) (s.mapped id) (s.joined id)
      (known s (Reach-IsFitting s r) returned id e)

-- In every state that is reached, a thread that the loop is about to put into `Threads` is not there
-- yet, so that its object is never destroyed unjoined; a thread that serves a client is there; and one
-- that is to detach or to erase itself finds its entry.
pub Reach-mapped :
    (s : System) (id : ℕ)
    → Reach s
    → ¬ ((s.phase ≡ created id) × (s.mapped id ≡ true))
      × ¬ ((s.stage id ≡ serving) × (s.mapped id ≡ false))
      × ¬ ((s.stage id ≡ erasing) × (s.mapped id ≡ false))
      × ¬ ((s.stage id ≡ detached) × (s.mapped id ≡ false))
Reach-mapped s id r =
    let h = Reach-IsFitting s r in
    (
      (λ e.
          let w =
            Fits-waiting id (s.stage id) (s.mapped id) (s.joined id)
              (known s h (created id) id e.0) in
          false≢true (sym w.2 ∙ e.1)),
      (λ e. false≢true (sym e.1 ∙ (staged s h id serving e.0).0)),
      (λ e. false≢true (sym e.1 ∙ (staged s h id erasing e.0).0)),
      (λ e. false≢true (sym e.1 ∙ (staged s h id detached e.0).0)),
    )

-- Any number of steps.
pub data Steps : System → System → Type 0 where
  here : {s : System} → Steps s s
  more : {s t u : System} → Step s t → Steps t u → Steps s u

-- A thread that is about to change the map.
abbrev pub Changes : Stage → Type 0
Changes st = (st ≡ erasing) ⊎ (st ≡ detached)

-- The stop flag is up and no client has seen it down inside its part under the mutex.
abbrev pub IsQuiet : System → Type 0
IsQuiet s = (s.stop_flag ≡ true) × ((id : ℕ) → ¬ Changes (s.stage id)) × (s.phase ≢ broken)

stages-IsQuiet :
    (s : System) (id : ℕ) (st : Stage)
    → IsQuiet s
    → ¬ Changes st
    → (i : ℕ) → ¬ Changes ((stages s id st).stage i)
stages-IsQuiet s id st q n i =
    update_cases (λ b. ¬ Changes (if b then st else s.stage i)) i id (λ _. n) (λ _. q.1 i)

neither : (st : Stage) → st ≢ erasing → st ≢ detached → ¬ Changes st
neither st a b (inl e) = a e
neither st a b (inr e) = b e

AcceptStep-IsQuiet : (s t : System) → IsFitting s → IsQuiet s → AcceptStep s t → IsQuiet t
AcceptStep-IsQuiet s t h q (tests_down e d) = (q.0, q.1, λ x. cc)
AcceptStep-IsQuiet s t h q (tests_up e d) = (q.0, q.1, λ x. cc)
AcceptStep-IsQuiet s t h q (nothing e) = (q.0, q.1, λ x. cc)
AcceptStep-IsQuiet s t h q (fails e) = (q.0, q.1, λ x. cc)
AcceptStep-IsQuiet s t h q (accepts id e free) =
    (q.0, stages-IsQuiet s id waiting q (neither waiting (λ x. cc) (λ x. cc)), λ x. cc)
AcceptStep-IsQuiet s t h q (emplaces id e l m) = (q.0, q.1, λ x. cc)
AcceptStep-IsQuiet s t h q (clashes id e l m) =
    let w =
      Fits-waiting id (s.stage id) (s.mapped id) (s.joined id) (known s h (created id) id e) in
    absurd (false≢true (sym w.2 ∙ m))
AcceptStep-IsQuiet s t h q (releases id e) =
    (q.0, stages-IsQuiet s id serving q (neither serving (λ x. cc) (λ x. cc)), λ x. cc)
AcceptStep-IsQuiet s t h q (joins id e m x) = (q.0, q.1, q.2)
AcceptStep-IsQuiet s t h q (returns e all) = (q.0, q.1, λ x. cc)

ClientStep-IsQuiet : (s t : System) → IsQuiet s → ClientStep s t → IsQuiet t
ClientStep-IsQuiet s t q (finishes id e) =
    (q.0, stages-IsQuiet s id served q (neither served (λ x. cc) (λ x. cc)), q.2)
ClientStep-IsQuiet s t q (locks id e l) =
    (q.0, stages-IsQuiet s id locking q (neither locking (λ x. cc) (λ x. cc)), q.2)
ClientStep-IsQuiet s t q (sees_up id e u) =
    (q.0, stages-IsQuiet s id unlocking q (neither unlocking (λ x. cc) (λ x. cc)), q.2)
ClientStep-IsQuiet s t q (sees_down id e d) = absurd (false≢true (sym d ∙ q.0))
ClientStep-IsQuiet s t q (detaches id e m p) = absurd (q.1 id (inl e))
ClientStep-IsQuiet s t q (finds_none id e m) = absurd (q.1 id (inl e))
ClientStep-IsQuiet s t q (detach_races id e m p) = absurd (q.1 id (inl e))
ClientStep-IsQuiet s t q (erases id e p) = absurd (q.1 id (inr e))
ClientStep-IsQuiet s t q (erase_races id e p) = absurd (q.1 id (inr e))
ClientStep-IsQuiet s t q (unlocks id e) =
    (q.0, stages-IsQuiet s id ending q (neither ending (λ x. cc) (λ x. cc)), q.2)
ClientStep-IsQuiet s t q (ends id e) =
    (q.0, stages-IsQuiet s id exited q (neither exited (λ x. cc) (λ x. cc)), q.2)

Step-IsQuiet : (s t : System) → IsFitting s → IsQuiet s → Step s t → IsQuiet t
Step-IsQuiet s t h q (accept_step st) = AcceptStep-IsQuiet s t h q st
Step-IsQuiet s t h q (client_step st) = ClientStep-IsQuiet s t q st
Step-IsQuiet s t h q signal = (refl, q.1, q.2)

-- From a reachable state in which the stop flag is up and no client thread stands between seeing it
-- down and erasing itself, the accept loop and the client threads never reach the race on `Threads`,
-- in whatever order they go on.
pub Steps-IsQuiet : (s t : System) → Reach s → IsQuiet s → Steps s t → t.phase ≢ broken
Steps-IsQuiet s _ r q here = q.2
Steps-IsQuiet s t r q (more {t = m} st rest) =
    Steps-IsQuiet m t (steps r st) (Step-IsQuiet s m (Reach-IsFitting s r) q st) rest
