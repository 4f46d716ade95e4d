-- ===== src/Store/Reviews/Paging.antt =====
-- The pages of one target's events in control_store.py.
use workflow_helper_public.Base.{
  ℕ, suc, zero, ◌+◌, ◌<◌, ◌≡◌, refl, ap, ◌∙◌, false, Bool, List, [], ◌∷◌, arith, take, drop, ltb,
  if◌then◌else◌, lt→ltb,
}
use workflow_helper_public.Text.{Text}
use workflow_helper_public.Store.ReviewRows.{ReviewEventRow, target_events}
use workflow_helper_public.Store.Reviews.Reading.{numbered, beyond, page, scoped_page}

-- Rows numbered past a place are all beyond it.
beyond-all :
    (after_sequence first : ℕ) (rows : List ReviewEventRow)
    → after_sequence < first
    → beyond after_sequence (numbered first rows) ≡ numbered first rows
unfolding beyond numbered
beyond-all after_sequence first [] below = refl
beyond-all after_sequence first (row ∷ rows) below =
    let rest : beyond after_sequence (numbered (suc first) rows) ≡ numbered (suc first) rows =
      beyond-all after_sequence (suc first) rows (omega (arith, below)) in
    rw (lt→ltb after_sequence first below)
      (ap (λ (l : List ReviewEventRow). record row { sequence = first } ∷ l) rest)

not_below : (n first : ℕ) → ltb (first + suc n) (suc first) ≡ false
not_below n first = ground arith

shifted : (n first : ℕ) → first + suc n ≡ suc first + n
shifted n first = omega arith

-- The rows beyond a place are those after as many.
beyond-numbered :
    (n first : ℕ) (rows : List ReviewEventRow)
    → beyond (first + n) (numbered (suc first) rows) ≡ drop n (numbered (suc first) rows)
unfolding numbered beyond
beyond-numbered zero first rows = beyond-all (first + 0) (suc first) rows (omega arith)
beyond-numbered (suc n) first [] = refl
beyond-numbered (suc n) first (row ∷ rows) =
    skipped (first + suc n) (ltb (first + suc n) (suc first)) (not_below n first)
    ∙ ap (λ (k : ℕ). beyond k (numbered (suc (suc first)) rows)) (shifted n first)
    ∙ beyond-numbered n (suc first) rows
  where
    skipped :
        (k : ℕ) (kept : Bool)
        → kept ≡ false
        → (if kept
            then record row { sequence = suc first } ∷ beyond k (numbered (suc (suc first)) rows)
            else beyond k (numbered (suc (suc first)) rows))
          ≡ beyond k (numbered (suc (suc first)) rows)
    skipped k kept e = rw e refl

-- A page of the events of a target is that slice of the target's whole sequence: the events after
-- the given place, up to the limit, with the places in that sequence as their numbers.
pub scoped_page_slices :
    (target_id : Text) (after_sequence limit : ℕ) (rows : List ReviewEventRow)
    → scoped_page target_id after_sequence limit rows
      ≡ take limit (drop after_sequence (numbered 1 (target_events target_id rows)))
unfolding scoped_page page
scoped_page_slices target_id after_sequence limit rows =
    ap (λ (l : List ReviewEventRow). take limit l)
      (ap (λ (n : ℕ). beyond n (numbered 1 (target_events target_id rows)))
          (zero_left after_sequence)
        ∙ beyond-numbered after_sequence 0 (target_events target_id rows))
  where
    zero_left : (n : ℕ) → n ≡ 0 + n
    zero_left n = omega arith
