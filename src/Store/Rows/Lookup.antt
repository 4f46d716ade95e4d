-- ===== src/Store/Rows/Lookup.antt =====
-- Finding, replacing and counting rows of `control_jobs`.
use workflow_helper_public.Base.{
  ℕ, ◌+◌, ◌≤◌, ◌≡◌, refl, true, List, [], ◌∷◌, ◌++◌, none, some, arith, if◌then◌else◌,
}
use workflow_helper_public.Text.{Text, text_eq}
use workflow_helper_public.Text.Equality.{text_eq_iff}
use workflow_helper_public.Store.Rows.{JobRow, find_job, replace_job, is_live, active_count}

pub find_job-job_id :
    (id : Text) (rows : List JobRow) (row : JobRow) → find_job id rows ≡ some row → row.job_id ≡ id
unfolding find_job
find_job-job_id id [] row h = cc
find_job-job_id id (r ∷ rows) row h =
    ground (arith, text_eq_iff r.job_id id, find_job-job_id id rows row)

-- After an update of one row the table holds the new row there, and every other row as before.
pub find_job-replace_job :
    (id j : Text) (new : JobRow) (rows : List JobRow) (row : JobRow)
    → new.job_id ≡ id
    → find_job id rows ≡ some row
    → find_job j (replace_job id new rows) ≡ (if text_eq id j then some new else find_job j rows)
unfolding find_job replace_job
find_job-replace_job id j new [] row e h = cc
find_job-replace_job id j new (r ∷ rows) row e h = ground (
  arith,
  text_eq_iff r.job_id id,
  text_eq_iff r.job_id j,
  text_eq_iff new.job_id j,
  text_eq_iff id j,
  find_job-replace_job id j new rows row e,
)

pub find_job-append :
    (j : Text) (new : JobRow) (rows : List JobRow)
    → find_job new.job_id rows ≡ none
    → find_job j (rows ++ new ∷ []) ≡ (if text_eq new.job_id j then some new else find_job j rows)
unfolding find_job
find_job-append j new [] h = refl
find_job-append j new (r ∷ rows) h = ground (
  arith,
  text_eq_iff r.job_id new.job_id,
  text_eq_iff r.job_id j,
  text_eq_iff new.job_id j,
  find_job-append j new rows,
)

abbrev pub live_unit : ℕ → JobRow → ℕ
live_unit now row = if is_live now row then 1 else 0

pub active_count-replace_job :
    (now : ℕ) (id : Text) (new : JobRow) (rows : List JobRow) (row : JobRow)
    → find_job id rows ≡ some row
    → active_count now (replace_job id new rows) + live_unit now row
      ≡ active_count now rows + live_unit now new
unfolding find_job replace_job active_count
active_count-replace_job now id new [] row h = cc
active_count-replace_job now id new (r ∷ rows) row h =
    ground (arith, active_count-replace_job now id new rows row)

pub active_count-append :
    (now : ℕ) (new : JobRow) (rows : List JobRow)
    → active_count now (rows ++ new ∷ []) ≡ active_count now rows + live_unit now new
unfolding active_count
active_count-append now new [] = omega arith
active_count-append now new (r ∷ rows) = omega (arith, active_count-append now new rows)

is_live_later :
    (now later : ℕ) (row : JobRow) → now ≤ later → is_live later row ≡ true → is_live now row ≡ true
unfolding is_live
is_live_later now later row h l = ground arith

-- Leases only run out as time goes by.
pub active_count_later :
    (now later : ℕ) (rows : List JobRow)
    → now ≤ later
    → active_count later rows ≤ active_count now rows
unfolding active_count
active_count_later now later [] h = omega arith
active_count_later now later (r ∷ rows) h =
    ground (arith, active_count_later now later rows h, is_live_later now later r h)

-- A lease that is live now takes part in that: without it, the count is lower by one.
pub active_count_later_row :
    (now later : ℕ) (id : Text) (rows : List JobRow) (row : JobRow)
    → now ≤ later
    → find_job id rows ≡ some row
    → active_count later rows + live_unit now row ≤ active_count now rows + live_unit later row
unfolding active_count find_job
active_count_later_row now later id [] row o h = cc
active_count_later_row now later id (r ∷ rows) row o h = ground (
  arith,
  active_count_later_row now later id rows row o,
  active_count_later now later rows o,
  is_live_later now later r o,
)
