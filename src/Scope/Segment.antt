-- ===== src/Scope/Segment.antt =====
-- A segment is read back exactly, wherever it stands, and two texts that begin with segments agree
-- on them.
use workflow_helper_public.Base.{
  ℕ, suc, ◌+◌, ◌-◌, ◌≤◌, ◌<◌, ◌≡◌, refl, ap, ◌∙◌, true, [], ◌∷◌, ◌++◌, some, arith, length, all,
  length-append, take-append_length, drop-append_length, append_assoc, ok,
}
use workflow_helper_public.Text.{Text, is_digit, slice, index_of, find_from}
use workflow_helper_public.Text.Decimal.{print, parse, parse-print, print-all_digit, length-print}
use workflow_helper_public.Scope.{segment, read_body, read_segment, max_int_digits}

-- The separator is found behind a run of digits.
index_of-digits :
    (offset : ℕ) (ds rest : Text)
    → all is_digit ds ≡ true
    → index_of b':' offset (ds ++ b':' ∷ rest) ≡ some (offset + length ds)
unfolding index_of is_digit
index_of-digits offset [] rest h = ground arith
index_of-digits offset (c ∷ ds) rest h = ground (arith, index_of-digits (suc offset) ds rest)

-- A slice of a text made of three parts is the middle one.
slice-middle :
    (before middle after : Text) {i j : ℕ}
    → i ≡ length before
    → j ≡ length before + length middle
    → slice (before ++ (middle ++ after)) i j ≡ middle
slice-middle before middle after p q =
    rw (p, q, drop-append_length before (middle ++ after))
      (rw (cancel (length before) (length middle)) (take-append_length middle after))
  where
    cancel : (a b : ℕ) → a + b - a ≡ b
    cancel a b = omega arith

module _ (before ds value rest : Text) where
  abbrev whole : Text
  whole = before ++ (ds ++ (b':' ∷ (value ++ rest)))

  abbrev separator : ℕ
  separator = length before + length ds

  separator_found : all is_digit ds ≡ true → find_from b':' whole (length before) ≡ some separator
  unfolding find_from
  separator_found h =
      rw (drop-append_length before (ds ++ b':' ∷ (value ++ rest)))
        (index_of-digits (length before) ds (value ++ rest) h)

  whole_regrouped : whole ≡ (before ++ (ds ++ b':' ∷ [])) ++ (value ++ rest)
  whole_regrouped = simp append_assoc

  value_sliced : slice whole (suc separator) (suc separator + length value) ≡ value
  value_sliced = rw whole_regrouped (
      slice-middle (before ++ (ds ++ b':' ∷ [])) value rest lengths
        (ap (λ n. n + length value) lengths))
    where
      lengths : suc separator ≡ length (before ++ (ds ++ b':' ∷ []))
      lengths = omega (arith, length-append before (ds ++ b':' ∷ []), length-append ds (b':' ∷ []))

  value_within : suc separator + length value ≤ length whole
  value_within = omega (
    arith,
    length-append before (ds ++ b':' ∷ (value ++ rest)),
    length-append ds (b':' ∷ (value ++ rest)),
    length-append value rest,
  )

  read_segment-parts :
      parse ds ≡ length value
      → all is_digit ds ≡ true
      → 0 < length ds
      → length ds ≤ max_int_digits
      → 0 < length value
      → read_segment whole (length before) ≡ ok (value, suc separator + length value)
  unfolding read_segment
  read_segment-parts number digit some_digit few nonempty =
      rw (separator_found digit, read_segment)
        (rw (slice-middle before ds (b':' ∷ (value ++ rest)) refl refl)
          (unfold read_body in rw (number, digit, value_sliced) (ground (arith, value_within))))

-- What `segment` wrote is what `read_segment` reads, and it stops right behind it.
pub read_segment-segment :
    (before value rest : Text)
    → 0 < length value
    → length value < max_int_digits
    → read_segment (before ++ (segment value ++ rest)) (length before)
      ≡ ok (value, length before + length (segment value))
unfolding segment
read_segment-segment before value rest nonempty short =
    rw (append_assoc (print (length value)) (b':' ∷ value) rest) (
      read_segment-parts before (print (length value)) value rest (parse-print (length value))
        (print-all_digit (length value)) (length-print (length value)).0
        (omega (arith, length-print (length value))) nonempty
      ∙ ap (λ (n : ℕ). ok (value, n)) size)
  where
    size :
        suc (length before + length (print (length value))) + length value
        ≡ length before + length (print (length value) ++ b':' ∷ value)
    size = omega (arith, length-append (print (length value)) (b':' ∷ value))
