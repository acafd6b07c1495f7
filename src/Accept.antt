-- ===== src/Accept.antt =====
-- `accept_client_cycle` of dpitunnel-cli.cpp, the body of the client threads that it starts and
-- `sig_int_handler`, as a step relation: what `Threads_map_mutex` guards is one step of the accept
-- loop, and the client's part under the mutex is taken apart, since the last loop does not lock it.
pub mod Fits
mod Kept
pub mod Safety
use dpitunnel_cli.Prelude.{
  ℕ, ◌≡◌, ◌≢◌, ◌⊎◌, Bool, true, false, Option, none, some, ◌==◌, if◌then◌else◌,
}

-- Where a client thread is; `locking` has the mutex, `erasing` has seen the stop flag down, `detached`
-- has detached its object and not yet erased it, `unlocking` has only to give the mutex back and to
-- end, and `ending` only to end.
pub data Stage : Type 0 where
  unborn waiting serving served locking erasing detached unlocking ending exited : Stage

-- Where the accept loop is. `broken` stands for what C++ leaves undefined: an entry that is detached
-- or erased while the last loop goes over the map, or a thread object that is destroyed unjoined.
pub data Phase : Type 0 where
  testing polling joining returned broken : Phase
  created published : ℕ → Phase

-- `mapped` tells the keys of `Threads`, `joined` those that the last loop has joined.
pub record System : Type 0 where
  pub stop_flag : Bool
  pub locked : Bool
  pub phase : Phase
  pub stage : ℕ → Stage
  pub mapped : ℕ → Bool
  pub joined : ℕ → Bool

abbrev pub update {ℓ} : {A : Type ℓ} → (ℕ → A) → ℕ → A → ℕ → A
update f id a i = if i == id then a else f i

-- The system gives the number of a thread again when that has ended and is not to be joined.
abbrev pub IsFree : System → ℕ → Type 0
IsFree s id = (s.stage id ≡ unborn) ⊎ ((s.stage id ≡ exited) × (s.mapped id ≡ false))

abbrev pub moves : System → Phase → System
moves s phase = record s { phase = phase }

abbrev pub stages : System → ℕ → Stage → System
stages s id stage = record s { stage = update s.stage id stage }

-- The steps of the accept loop. The last loop passes over an object that is not joinable.
pub data AcceptStep : System → System → Type 0 where
  tests_down :
      {s : System} → s.phase ≡ testing → s.stop_flag ≡ false → AcceptStep s (moves s polling)
  tests_up : {s : System} → s.phase ≡ testing → s.stop_flag ≡ true → AcceptStep s (moves s joining)
  nothing : {s : System} → s.phase ≡ polling → AcceptStep s (moves s testing)
  fails : {s : System} → s.phase ≡ polling → AcceptStep s (moves s joining)
  accepts :
      {s : System} (id : ℕ)
      → s.phase ≡ polling
      → IsFree s id
      → AcceptStep s (moves (stages s id waiting) (created id))
  emplaces :
      {s : System} (id : ℕ)
      → s.phase ≡ created id
      → s.locked ≡ false
      → s.mapped id ≡ false
      → AcceptStep s (record s { phase = published id; mapped = update s.mapped id true })
  clashes :
      {s : System} (id : ℕ)
      → s.phase ≡ created id
      → s.locked ≡ false
      → s.mapped id ≡ true
      → AcceptStep s (moves s broken)
  releases :
      {s : System} (id : ℕ)
      → s.phase ≡ published id
      → AcceptStep s (moves (stages s id serving) testing)
  joins :
      {s : System} (id : ℕ)
      → s.phase ≡ joining
      → s.mapped id ≡ true
      → s.stage id ≡ exited
      → AcceptStep s (record s { joined = update s.joined id true })
  returns :
      {s : System}
      → s.phase ≡ joining
      → ((id : ℕ) → s.mapped id ≡ true → (s.joined id ≡ true) ⊎ (s.stage id ≡ detached))
      → AcceptStep s (moves s returned)

-- The steps of a client thread.
pub data ClientStep : System → System → Type 0 where
  finishes : {s : System} (id : ℕ) → s.stage id ≡ serving → ClientStep s (stages s id served)
  locks :
      {s : System} (id : ℕ)
      → s.stage id ≡ served
      → s.locked ≡ false
      → ClientStep s (record (stages s id locking) { locked = true })
  sees_up :
      {s : System} (id : ℕ)
      → s.stage id ≡ locking
      → s.stop_flag ≡ true
      → ClientStep s (stages s id unlocking)
  sees_down :
      {s : System} (id : ℕ)
      → s.stage id ≡ locking
      → s.stop_flag ≡ false
      → ClientStep s (stages s id erasing)
  detaches :
      {s : System} (id : ℕ)
      → s.stage id ≡ erasing
      → s.mapped id ≡ true
      → s.phase ≢ joining
      → ClientStep s (stages s id detached)
  finds_none :
      {s : System} (id : ℕ)
      → s.stage id ≡ erasing
      → s.mapped id ≡ false
      → ClientStep s (stages s id unlocking)
  detach_races :
      {s : System} (id : ℕ)
      → s.stage id ≡ erasing
      → s.mapped id ≡ true
      → s.phase ≡ joining
      → ClientStep s (moves s broken)
  erases :
      {s : System} (id : ℕ)
      → s.stage id ≡ detached
      → s.phase ≢ joining
      → ClientStep s (record (stages s id unlocking) { mapped = update s.mapped id false })
  erase_races :
      {s : System} (id : ℕ)
      → s.stage id ≡ detached
      → s.phase ≡ joining
      → ClientStep s (moves s broken)
  unlocks :
      {s : System} (id : ℕ)
      → s.stage id ≡ unlocking
      → ClientStep s (record (stages s id ending) { locked = false })
  ends : {s : System} (id : ℕ) → s.stage id ≡ ending → ClientStep s (stages s id exited)

pub data Step : System → System → Type 0 where
  accept_step : {s t : System} → AcceptStep s t → Step s t
  client_step : {s t : System} → ClientStep s t → Step s t
  -- `sig_int_handler`.
  signal : {s : System} → Step s (record s { stop_flag = true })

abbrev pub start : System
start = record {
  stop_flag = false;
  locked = false;
  phase = testing;
  stage = λ _. unborn;
  mapped = λ _. false;
  joined = λ _. false;
}

pub data Reach : System → Type 0 where
  starts : Reach start
  steps : {s t : System} → Reach s → Step s t → Reach t
