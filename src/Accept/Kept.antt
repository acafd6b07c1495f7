-- ===== src/Accept/Kept.antt =====
-- Every step keeps what is true of the client threads.
use dpitunnel_cli.Prelude.{
  ℕ, ◌≡◌, ◌≢◌, ◌∙◌, refl, sym, ap, subst, inl, inr, Bool, true, false, false≢true, if◌then◌else◌,
}
use dpitunnel_cli.Accept.{
  Stage, unborn, waiting, serving, served, locking, erasing, detached, unlocking, ending, exited,
}
use dpitunnel_cli.Accept.{Phase, testing, polling, joining, returned, broken, created, published}
use dpitunnel_cli.Accept.{
  System, update, IsFree, moves, stages, AcceptStep, tests_down, tests_up, nothing, fails, accepts,
  emplaces, clashes, releases, joins, returns,
}
use dpitunnel_cli.Accept.{
  ClientStep, finishes, locks, sees_up, sees_down, detaches, detach_races, erases, erase_races,
  unlocks, ends, finds_none, Step, accept_step, client_step, signal, Reach, starts, steps,
}
use dpitunnel_cli.Accept.Fits.{
  Apart, Fits, IsFitting, Live, Fits-moves, update_cases, created≢returned, Fits-waiting,
  Fits-released, Fits-returned,
}

module _ (s : System) (h : IsFitting s) where
  -- What the phase is known to be.
  pub known :
      (ph : Phase) (id : ℕ) → s.phase ≡ ph → Fits ph id (s.stage id) (s.mapped id) (s.joined id)
  known ph id e = subst (λ p. Fits p id (s.stage id) (s.mapped id) (s.joined id)) e (h id)

  pub staged :
      (id : ℕ) (st : Stage) → s.stage id ≡ st → Fits s.phase id st (s.mapped id) (s.joined id)
  staged id st e = subst (λ x. Fits s.phase id x (s.mapped id) (s.joined id)) e (h id)

  -- From one phase without a thread to another.
  moves-IsFitting :
      (ph ph' : Phase)
      → s.phase ≡ ph
      → ((id : ℕ) → Apart ph id × Apart ph' id)
      → ph' ≢ returned
      → IsFitting (moves s ph')
  moves-IsFitting ph ph' e apart r id =
      Fits-moves ph ph' id (s.stage id) (s.mapped id) (s.joined id) (apart id).0 (apart id).1 r
        (known ph id e)

  -- A thread goes on, in the same phase.
  stages-IsFitting :
      (id : ℕ) (st : Stage)
      → Fits s.phase id st (s.mapped id) (s.joined id)
      → IsFitting (stages s id st)
  stages-IsFitting id st f i =
      update_cases (λ b. Fits s.phase i (if b then st else s.stage i) (s.mapped i) (s.joined i)) i
        id (λ e. subst (λ k. Fits s.phase k st (s.mapped k) (s.joined k)) (sym e) f) (λ _. h i)

  Free-Fits :
      (id : ℕ) → IsFree s id → s.phase ≡ polling → (s.mapped id ≡ false) × (s.joined id ≡ false)
  Free-Fits id (inl q) e = let f = staged id unborn q in (f.0, f.1)
  Free-Fits id (inr q) e = (q.1, (staged id exited q.0).1 q.1)

  accepts-IsFitting :
      (id : ℕ)
      → s.phase ≡ polling
      → IsFree s id
      → IsFitting (moves (stages s id waiting) (created id))
  accepts-IsFitting id e free i =
      update_cases
        (λ b. Fits (created id) i (if b then waiting else s.stage i) (s.mapped i) (s.joined i)) i id
        (λ q. let f = Free-Fits id free e in (ap s.joined q ∙ f.1, (sym q, ap s.mapped q ∙ f.0)))
        (λ q.
          Fits-moves polling (created id) i (s.stage i) (s.mapped i) (s.joined i) tt
            (λ k. q (sym k)) (λ x. created≢returned id x) (known polling i e))

  emplaces-IsFitting :
      (id : ℕ)
      → s.phase ≡ created id
      → IsFitting (record s { phase = published id; mapped = update s.mapped id true })
  emplaces-IsFitting id e i =
      update_cases
        (λ b. Fits (published id) i (s.stage i) (if b then true else s.mapped i) (s.joined i)) i id
        (λ q.
          let w =
            Fits-waiting id (s.stage id) (s.mapped id) (s.joined id) (known (created id) id e) in
          rw (q, w.0) (w.1, (refl, refl)))
        (λ q.
          Fits-moves (created id) (published id) i (s.stage i) (s.mapped i) (s.joined i)
            (λ k. q (sym k)) (λ k. q (sym k)) (λ x. cc) (known (created id) i e))

  releases-IsFitting :
      (id : ℕ) → s.phase ≡ published id → IsFitting (moves (stages s id serving) testing)
  releases-IsFitting id e i =
      update_cases
        (λ b. Fits testing i (if b then serving else s.stage i) (s.mapped i) (s.joined i)) i id
        (λ q.
          let w =
            Fits-released id (s.stage id) (s.mapped id) (s.joined id) (known (published id) id e) in
          rw q (w.1, w.0, tt, λ x. cc))
        (λ q.
          Fits-moves (published id) testing i (s.stage i) (s.mapped i) (s.joined i) (λ k. q (sym k))
            tt (λ x. cc) (known (published id) i e))

  joins-IsFitting :
      (id : ℕ)
      → s.phase ≡ joining
      → s.mapped id ≡ true
      → s.stage id ≡ exited
      → IsFitting (record s { joined = update s.joined id true })
  joins-IsFitting id e m x i =
      update_cases (λ b. Fits s.phase i (s.stage i) (s.mapped i) (if b then true else s.joined i)) i
        id
        (λ q.
          let f = staged id exited x in
          rw (q, x) (f.0, (λ k. absurd (false≢true (sym k ∙ m))), λ _ _. refl))
        (λ _. h i)

  -- A thread that has detached itself leaves the map.
  erases-IsFitting :
      (id : ℕ)
      → s.stage id ≡ detached
      → IsFitting (record (stages s id unlocking) { mapped = update s.mapped id false })
  erases-IsFitting id e i =
      update_cases
        (λ b.
          Fits s.phase i (if b then unlocking else s.stage i) (if b then false else s.mapped i)
            (s.joined i))
        i id (λ q. let f = staged id detached e in rw q (f.1, f.2, λ _. refl)) (λ _. h i)

  AcceptStep-IsFitting : (t : System) → AcceptStep s t → IsFitting t
  AcceptStep-IsFitting t (tests_down e _) =
      moves-IsFitting testing polling e (λ _. (tt, tt)) (λ x. cc)
  AcceptStep-IsFitting t (tests_up e _) =
      moves-IsFitting testing joining e (λ _. (tt, tt)) (λ x. cc)
  AcceptStep-IsFitting t (nothing e) = moves-IsFitting polling testing e (λ _. (tt, tt)) (λ x. cc)
  AcceptStep-IsFitting t (fails e) = moves-IsFitting polling joining e (λ _. (tt, tt)) (λ x. cc)
  AcceptStep-IsFitting t (accepts id e free) = accepts-IsFitting id e free
  AcceptStep-IsFitting t (emplaces id e _ _) = emplaces-IsFitting id e
  AcceptStep-IsFitting t (clashes id e _ m) =
      let w = Fits-waiting id (s.stage id) (s.mapped id) (s.joined id) (known (created id) id e) in
      absurd (false≢true (sym w.2 ∙ m))
  AcceptStep-IsFitting t (releases id e) = releases-IsFitting id e
  AcceptStep-IsFitting t (joins id e m x) = joins-IsFitting id e m x
  AcceptStep-IsFitting t (returns e all) =
      λ id. Fits-returned id (s.stage id) (s.mapped id) (s.joined id) (all id) (known joining id e)

  Live-unlocks : (id : ℕ) (m j : Bool) → Live s.phase id m j → Fits s.phase id unlocking m j
  Live-unlocks id m j f = (f.1, f.2, λ r. absurd (f.3 r))

  ending-exits : (id : ℕ) (m j : Bool) → Fits s.phase id ending m j → Fits s.phase id exited m j
  ending-exits id m j f = (f.1, (λ _. f.0), λ r e. absurd (false≢true (sym (f.2 r) ∙ e)))

  ClientStep-IsFitting : (t : System) → ClientStep s t → IsFitting t
  ClientStep-IsFitting t (finishes id e) = stages-IsFitting id served (staged id serving e)
  ClientStep-IsFitting t (locks id e _) = stages-IsFitting id locking (staged id served e)
  ClientStep-IsFitting t (sees_up id e _) =
      stages-IsFitting id unlocking
        (Live-unlocks id (s.mapped id) (s.joined id) (staged id locking e))
  ClientStep-IsFitting t (sees_down id e _) = stages-IsFitting id erasing (staged id locking e)
  ClientStep-IsFitting t (detaches id e _ _) =
      let f = staged id erasing e in stages-IsFitting id detached (f.0, f.1, f.2)
  ClientStep-IsFitting t (finds_none id e _) =
      stages-IsFitting id unlocking
        (Live-unlocks id (s.mapped id) (s.joined id) (staged id erasing e))
  ClientStep-IsFitting t (detach_races id e _ r) =
      moves-IsFitting joining broken r (λ _. (tt, tt)) (λ x. cc)
  ClientStep-IsFitting t (erases id e _) = erases-IsFitting id e
  ClientStep-IsFitting t (erase_races id e r) =
      moves-IsFitting joining broken r (λ _. (tt, tt)) (λ x. cc)
  ClientStep-IsFitting t (unlocks id e) = stages-IsFitting id ending (staged id unlocking e)
  ClientStep-IsFitting t (ends id e) =
      stages-IsFitting id exited (ending-exits id (s.mapped id) (s.joined id) (staged id ending e))

pub Step-IsFitting : (s t : System) → IsFitting s → Step s t → IsFitting t
Step-IsFitting s t h (accept_step st) = AcceptStep-IsFitting s h t st
Step-IsFitting s t h (client_step st) = ClientStep-IsFitting s h t st
Step-IsFitting s t h signal = h

pub Reach-IsFitting : (s : System) → Reach s → IsFitting s
Reach-IsFitting _ starts = λ id. (refl, refl, tt)
Reach-IsFitting s (steps {s = before} r st) = Step-IsFitting before s (Reach-IsFitting before r) st
