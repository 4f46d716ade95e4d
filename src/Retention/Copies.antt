-- ===== src/Retention/Copies.antt =====
-- The copies of a registration in retention_store.py, `_canonicalize_copies`.
use workflow_helper_public.Base.{
  ◌≡◌, refl, not, List, [], ◌∷◌, Option, none, some, value_error, Result, ok, err, reject_if, arith,
  after_ok,
}
use workflow_helper_public.Text.{Text, codes}
use workflow_helper_public.Text.Order.{sort_by, sort_by-cons}
use workflow_helper_public.Checks.{is_sha256}
use workflow_helper_public.Audit.{contains, ◌then_check◌}
use workflow_helper_public.Retention.Rows.{require_bounded}

-- A copy as the caller gives it: `raw.get(name)` of each name.
pub record RawCopy : Type 0 where
  pub copy_id : Option Text
  pub provider : Option Text
  pub file_id : Option Text
  pub revision : Option Text
  pub sha256 : Option Text

pub record CopyReference : Type 0 where
  pub copy_id : Text
  pub provider : Text
  pub file_id : Text
  pub revision : Text
  pub sha256 : Text

-- `value or ""`
abbrev pub or_empty : Option Text → Text
or_empty none = []
or_empty (some s) = s

check_copy : List Text → RawCopy → Result (Unit {0})
check_copy seen raw =
    require_bounded "copy_id" (or_empty raw.copy_id)
    then_check require_bounded "provider" (or_empty raw.provider)
    then_check require_bounded "file_id" (or_empty raw.file_id)
    then_check require_bounded "revision" (or_empty raw.revision)
    then_check reject_if (contains seen (or_empty raw.copy_id))
        (value_error "copy_id values must be unique")
    then_check reject_if
        (not (contains (codes "google_drive" ∷ codes "s3" ∷ []) (or_empty raw.provider)))
        (value_error "unsupported retention copy provider")
    then_check reject_if (not (is_sha256 (or_empty raw.sha256))) (value_error "sha256")

normalize_copies : List Text → List RawCopy → Result (List CopyReference)
unfolding check_copy
normalize_copies seen [] = ok []
normalize_copies seen (raw ∷ rest) = elim (check_copy seen raw) [
  | err e ↦ err e
  | ok _ ↦ elim (normalize_copies (or_empty raw.copy_id ∷ seen) rest) [
    | err e ↦ err e
    | ok copies ↦ ok (
        record {
          copy_id = or_empty raw.copy_id;
          provider = or_empty raw.provider;
          file_id = or_empty raw.file_id;
          revision = or_empty raw.revision;
          sha256 = or_empty raw.sha256;
        }
        ∷ copies)
  ]
]

-- `_canonicalize_copies`
unfoldable pub canonicalize_copies : List RawCopy → Result (List CopyReference)
unfolding normalize_copies
canonicalize_copies [] = err (value_error "at least one retention copy is required")
canonicalize_copies (raw ∷ rest) = elim (normalize_copies [] (raw ∷ rest)) [
  | err e ↦ err e
  | ok copies ↦ ok (sort_by (λ (copy : CopyReference). copy.copy_id) copies)
]

normalize_copies-cons :
    (raw : RawCopy) (raws : List RawCopy) (copies : List CopyReference)
    → normalize_copies [] (raw ∷ raws) ≡ ok copies
    → (copy : CopyReference) × (rest : List CopyReference) × (copies ≡ copy ∷ rest)
unfolding normalize_copies
normalize_copies-cons raw raws [] h = ground arith
normalize_copies-cons raw raws (copy ∷ rest) h = (copy, rest, refl)

-- A registration that passes has a copy.
pub canonicalize_copies-cons :
    (copies : List RawCopy) (canonical : List CopyReference)
    → canonicalize_copies copies ≡ ok canonical
    → (copy : CopyReference) × (rest : List CopyReference) × (canonical ≡ copy ∷ rest)
unfolding canonicalize_copies
canonicalize_copies-cons [] canonical h = cc
canonicalize_copies-cons (raw ∷ raws) canonical h =
    let (copies, normal, sorted) = after_ok (normalize_copies [] (raw ∷ raws)) _ h in
    let (copy, rest, q) = normalize_copies-cons raw raws copies normal in
    let (first, others, r) = sort_by-cons (λ (copy : CopyReference). copy.copy_id) copy rest in
    (first, others, cc)
