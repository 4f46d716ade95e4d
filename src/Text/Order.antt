-- ===== src/Text/Order.antt =====
-- `<` on `str`, by code points, and sorting by it.
pub mod Sorted
use workflow_helper_public.Base.{
  count, arith, Bool, true, false, List, [], ◌∷◌, ltb, ◌==◌, if◌then◌else◌, ◌≡◌, refl, Bool-cases,
  inl, inr,
}
use workflow_helper_public.Text.{Text}

unfoldable pub text_lt : Text → Text → Bool
text_lt [] [] = false
text_lt [] (d ∷ t) = true
text_lt (c ∷ s) [] = false
text_lt (c ∷ s) (d ∷ t) = if c == d then text_lt s t else ltb c d

module _ {A : Type 0} (key : A → Text) where
  insert_by : A → List A → List A
  insert_by x [] = x ∷ []
  insert_by x (y ∷ ys) = if text_lt (key y) (key x) then y ∷ insert_by x ys else x ∷ y ∷ ys

  -- `sorted(values, key=key)`; equal keys keep their order.
  unfoldable pub sort_by : List A → List A
  unfolding insert_by
  sort_by [] = []
  sort_by (x ∷ xs) = insert_by x (sort_by xs)

  count-insert_by :
      (test : A → Bool) (x : A) (xs : List A) → count test (insert_by x xs) ≡ count test (x ∷ xs)
  unfolding insert_by
  count-insert_by test x [] = refl
  count-insert_by test x (y ∷ ys) = ground (arith, count-insert_by test x ys)

  -- Sorting neither loses nor adds a value.
  pub count-sort_by : (test : A → Bool) (xs : List A) → count test (sort_by xs) ≡ count test xs
  unfolding sort_by
  count-sort_by test [] = refl
  count-sort_by test (x ∷ xs) =
      ground (arith, count-insert_by test x (sort_by xs), count-sort_by test xs)

  pub sort_by-cons : (x : A) (xs : List A) → (y : A) × (ys : List A) × (sort_by (x ∷ xs) ≡ y ∷ ys)
  unfolding sort_by insert_by
  sort_by-cons x xs = inserted x (sort_by xs)
    where
      inserted : (x : A) (ys : List A) → (y : A) × (zs : List A) × (insert_by x ys ≡ y ∷ zs)
      inserted x [] = (x, [], refl)
      inserted x (y ∷ ys) = elim (Bool-cases (text_lt (key y) (key x))) [
        | inl e ↦ (y, insert_by x ys, rw e refl)
        | inr e ↦ (x, y ∷ ys, rw e refl)
      ]
