-- ===== src/Store/Jobs/Limit.antt =====
-- The limit on leases that are live at the same time.
use workflow_helper_public.Base.{ℕ, ◌≤◌, ◌≡◌, refl, true, List, [], ◌∷◌, arith}
use workflow_helper_public.Text.{Text}
use workflow_helper_public.Platform.{Platform}
use workflow_helper_public.Store.Rows.{JobRow, ControlDb, empty_db, is_live, active_count}
use workflow_helper_public.Store.Rows.Lookup.{
  live_unit, active_count-replace_job, active_count-append, active_count_later,
  active_count_later_row,
}
use workflow_helper_public.Store.Jobs.{new_job, leased_row, renewed_row, completed_row}
use workflow_helper_public.Store.Jobs.Transitions.{
  JobsStep, kept, registered, leased_to, renewed, finished,
}
use workflow_helper_public.Store.Jobs.Calls.{
  Call, step, run, clock, IsOrdered, last_clock, step-JobsStep,
}

-- From `now` on, never more than `max` leases are live.
abbrev WithinLimit : ℕ → ℕ → List JobRow → Type 0
WithinLimit max now jobs = (later : ℕ) → now ≤ later → active_count later jobs ≤ max

live_unit-le : (now : ℕ) (row : JobRow) → live_unit now row ≤ 1
live_unit-le now row = ground arith

live_unit-live : (now : ℕ) (row : JobRow) → is_live now row ≡ true → live_unit now row ≡ 1
live_unit-live now row h = ground arith

live_unit-new : (later now : ℕ) (id digest : Text) → live_unit later (new_job id digest now) ≡ 0
unfolding is_live new_job
live_unit-new later now id digest = refl

live_unit-completed :
    (later now : ℕ) (key digest : Text) (row : JobRow)
    → live_unit later (completed_row key digest now row) ≡ 0
unfolding is_live completed_row
live_unit-completed later now key digest row = refl

JobsStep-WithinLimit :
    (max before now : ℕ) (jobs jobs' : List JobRow)
    → before ≤ now
    → WithinLimit max before jobs
    → JobsStep max now jobs jobs'
    → WithinLimit max now jobs'
JobsStep-WithinLimit max before now jobs jobs' o h (kept e) later l = rw e (h later (omega arith))
JobsStep-WithinLimit max before now jobs jobs' o h (registered id digest _ e) later l = rw e (
    omega (
      arith,
      h later,
      active_count-append later (new_job id digest now) jobs,
      live_unit-new later now id digest,
    ))
JobsStep-WithinLimit max before now jobs jobs' o h (leased_to id owner expires row found _ _ room e)
      later l =
    rw e (
      omega (
        arith,
        active_count-replace_job later id (leased_row owner now expires row) jobs row found,
        live_unit-le later (leased_row owner now expires row),
        active_count_later now later jobs l,
      ))
JobsStep-WithinLimit max before now jobs jobs' o h (renewed id expires row found live e) later l =
    rw e (
      omega (
        arith,
        h now o,
        active_count-replace_job later id (renewed_row now expires row) jobs row found,
        active_count_later_row now later id jobs row l found,
        live_unit-le later (renewed_row now expires row),
        live_unit-live now row live,
      ))
JobsStep-WithinLimit max before now jobs jobs' o h (finished id key digest row found _ e) later l =
    rw e (
      omega (
        arith,
        h later,
        active_count-replace_job later id (completed_row key digest now row) jobs row found,
        live_unit-completed later now key digest row,
      ))

run-WithinLimit :
    (platform : Platform) (max now : ℕ) (calls : List Call) (db : ControlDb)
    → IsOrdered platform max now calls
    → WithinLimit max now db.jobs
    → WithinLimit max (last_clock platform max now calls) (run platform max calls db).jobs
unfolding run
run-WithinLimit platform max now [] db o h = h
run-WithinLimit platform max now (call ∷ calls) db o h =
    run-WithinLimit platform max (clock platform max call) calls (step platform max call db) o.1 (
      JobsStep-WithinLimit max now (clock platform max call) db.jobs
        (step platform max call db).jobs o.0 h (step-JobsStep platform max call db))

-- Whatever calls were made on a fresh store, in whatever interleaving, as long as the clock does
-- not go back: from the last call on never more than `max_active_leases` leases are live.
pub active_leases_bounded :
    (platform : Platform) (max : ℕ) (calls : List Call) (later : ℕ)
    → IsOrdered platform max 0 calls
    → last_clock platform max 0 calls ≤ later
    → active_count later (run platform max calls empty_db).jobs ≤ max
unfolding active_count
active_leases_bounded platform max calls later o l =
    run-WithinLimit platform max 0 calls empty_db o (λ later _. omega arith) later l
