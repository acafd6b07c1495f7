-- ===== src/Tests/Accept.antt =====
-- Runs of the accept loop with one client, whose thread has the number 5.
use dpitunnel_cli.Prelude.{ℕ, ◌≡◌, ◌≢◌, ◌⊎◌, refl, arith, inl, true, false, ◌==◌, if◌then◌else◌}
use dpitunnel_cli.Accept.{
  System, unborn, exited, serving, erasing, detached, unlocking, returned, broken, created, joining,
  moves, Reach, starts, steps, accept_step, client_step, signal,
}
use dpitunnel_cli.Accept.{
  tests_down, tests_up, fails, accepts, emplaces, releases, joins, returns, finishes, locks,
  sees_up, sees_down, detaches, erases, unlocks, ends, detach_races,
}
use dpitunnel_cli.Accept.Fits.{Leaves}
use dpitunnel_cli.Accept.Safety.{returned-gone, Reach-mapped, IsQuiet, here, more, Steps-IsQuiet}

-- The client is accepted and served.
abbrev serving_run : (s : System) × Reach s
serving_run = (
  _,
  steps
      (steps
        (steps (steps starts (accept_step (tests_down refl refl)))
          (accept_step (accepts 5 refl (inl refl))))
        (accept_step (emplaces 5 refl refl refl)))
      (accept_step (releases 5 refl)),
)

-- The flag goes up, and the loop waits for the thread.
abbrev finished_run : (s : System) × Reach s
finished_run = (
  _,
  steps
      (steps
        (steps
          (steps
            (steps
              (steps (steps (steps serving_run.1 signal) (accept_step (tests_up refl refl)))
                (client_step (finishes 5 refl)))
              (client_step (locks 5 refl refl)))
            (client_step (sees_up 5 refl refl)))
          (client_step (unlocks 5 refl)))
        (client_step (ends 5 refl)))
      (accept_step (joins 5 refl refl refl)),
)

-- And returns.
abbrev returned_run : (s : System) × Reach s
returned_run = (_, steps finished_run.1 (accept_step (returns refl (λ id e. inl e))))

returned-gone_example :
    (returned_run.0.stage 5 ≡ unborn)
    ⊎ (returned_run.0.stage 5 ≡ exited)
    ⊎ (returned_run.0.stage 5 ≡ detached)
    ⊎ (Leaves (returned_run.0.stage 5) × (returned_run.0.mapped 5 ≡ false))
returned-gone_example = returned-gone returned_run.0 5 returned_run.1 refl

gone_from_map : (id : ℕ) → (if id == 5 then false else if id == 5 then true else false) ≢ true
gone_from_map id e = ground arith

-- The function returns while a thread that has erased itself still has the mutex.
returns_early : (s : System) × Reach s × (s.phase ≡ returned) × (s.stage 5 ≡ unlocking)
returns_early = (
  _,
  steps
      (steps
        (steps
          (steps
            (steps
              (steps
                (steps (steps serving_run.1 (client_step (finishes 5 refl)))
                  (client_step (locks 5 refl refl)))
                (client_step (sees_down 5 refl refl)))
              (client_step (detaches 5 refl refl (λ e. cc))))
            (client_step (erases 5 refl (λ e. cc))))
          signal)
        (accept_step (tests_up refl refl)))
      (accept_step (returns refl (λ id e. absurd (gone_from_map id e)))),
  refl,
  refl,
)

Reach-mapped_example :
    ¬ ((serving_run.0.phase ≡ created 5) × (serving_run.0.mapped 5 ≡ true))
    × ¬ ((serving_run.0.stage 5 ≡ serving) × (serving_run.0.mapped 5 ≡ false))
    × ¬ ((serving_run.0.stage 5 ≡ erasing) × (serving_run.0.mapped 5 ≡ false))
    × ¬ ((serving_run.0.stage 5 ≡ detached) × (serving_run.0.mapped 5 ≡ false))
Reach-mapped_example = Reach-mapped serving_run.0 5 serving_run.1

-- The flag is up while the client is served.
abbrev stopping_run : (s : System) × Reach s
stopping_run = (_, steps serving_run.1 signal)

stopping-IsQuiet : IsQuiet stopping_run.0
stopping-IsQuiet = (refl, (λ id e. ground arith), λ e. cc)

Steps-IsQuiet_example : joining ≢ broken
Steps-IsQuiet_example =
    Steps-IsQuiet stopping_run.0 (moves stopping_run.0 joining) stopping_run.1 stopping-IsQuiet
      (more (accept_step (tests_up refl refl)) here)

-- After an error of `poll` the last loop goes over the map while the client erases itself from it.
race_after_error : (s : System) × Reach s × (s.phase ≡ broken)
race_after_error = (
  _,
  steps
      (steps
        (steps
          (steps
            (steps (steps serving_run.1 (accept_step (tests_down refl refl)))
              (accept_step (fails refl)))
            (client_step (finishes 5 refl)))
          (client_step (locks 5 refl refl)))
        (client_step (sees_down 5 refl refl)))
      (client_step (detach_races 5 refl refl refl)),
  refl,
)

-- So it may after a signal that comes between the client's look at the flag and its change of the map.
race_after_signal : (s : System) × Reach s × (s.phase ≡ broken)
race_after_signal = (
  _,
  steps
      (steps
        (steps
          (steps
            (steps (steps serving_run.1 (client_step (finishes 5 refl)))
              (client_step (locks 5 refl refl)))
            (client_step (sees_down 5 refl refl)))
          signal)
        (accept_step (tests_up refl refl)))
      (client_step (detach_races 5 refl refl refl)),
  refl,
)
