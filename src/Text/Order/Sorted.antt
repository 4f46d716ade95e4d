-- ===== src/Text/Order/Sorted.antt =====
-- What is sorted by text is in the order of its texts.
use workflow_helper_public.Base.{
  arith, true, false, List, [], ◌∷◌, ◌≡◌, refl, Bool-cases, inl, inr, Every, Every-weaken,
}
use workflow_helper_public.Text.{Text}
use workflow_helper_public.Text.Order.{text_lt, insert_by, sort_by}

text_lt-asym : (s t : Text) → text_lt s t ≡ true → text_lt t s ≡ false
unfolding text_lt
text_lt-asym [] [] h = refl
text_lt-asym [] (d ∷ t) h = refl
text_lt-asym (c ∷ s) [] h = cc
text_lt-asym (c ∷ s) (d ∷ t) h = ground (arith, text_lt-asym s t)

-- `s` is not after `t` and `t` is not after `u`.
text_le_trans : (s t u : Text) → text_lt t s ≡ false → text_lt u t ≡ false → text_lt u s ≡ false
unfolding text_lt
text_le_trans [] [] u h k = k
text_le_trans [] (d ∷ t) [] h k = refl
text_le_trans [] (d ∷ t) (e ∷ u) h k = refl
text_le_trans (c ∷ s) [] u h k = cc
text_le_trans (c ∷ s) (d ∷ t) [] h k = cc
text_le_trans (c ∷ s) (d ∷ t) (e ∷ u) h k = ground (arith, text_le_trans s t u)

module _ {A : Type 0} (key : A → Text) where
  -- No later one has a smaller text.
  abbrev pub IsSortedBy : List A → Type 0
  IsSortedBy [] = Unit
  IsSortedBy (x ∷ xs) = Every (λ (y : A). text_lt (key y) (key x) ≡ false) xs × IsSortedBy xs

  insert_by-Every :
      (P : A → Type 0) (x : A) (xs : List A) → P x → Every P xs → Every P (insert_by key x xs)
  unfolding insert_by
  insert_by-Every P x [] p all = (p, tt)
  insert_by-Every P x (y ∷ ys) p (q, all) = elim (Bool-cases (text_lt (key y) (key x))) [
    | inl e ↦ rw e (q, insert_by-Every P x ys p all)
    | inr e ↦ rw e (p, (q, all))
  ]

  pub sort_by-Every : (P : A → Type 0) (xs : List A) → Every P xs → Every P (sort_by key xs)
  unfolding sort_by
  sort_by-Every P [] all = tt
  sort_by-Every P (x ∷ xs) (p, all) =
      insert_by-Every P x (sort_by key xs) p (sort_by-Every P xs all)

  insert_by-IsSortedBy : (x : A) (xs : List A) → IsSortedBy xs → IsSortedBy (insert_by key x xs)
  unfolding insert_by
  insert_by-IsSortedBy x [] sorted = (tt, tt)
  insert_by-IsSortedBy x (y ∷ ys) (later, sorted) = elim (Bool-cases (text_lt (key y) (key x))) [
    | inl e ↦ rw e (
      insert_by-Every (λ (z : A). text_lt (key z) (key y) ≡ false) x ys
          (text_lt-asym (key y) (key x) e) later,
      insert_by-IsSortedBy x ys sorted,
    )
    | inr e ↦ rw e (
      (
        e,
        Every-weaken (λ (z : A). text_lt (key z) (key y) ≡ false)
            (λ (z : A). text_lt (key z) (key x) ≡ false) ys
            (λ z k. text_le_trans (key x) (key y) (key z) e k) later,
      ),
      (later, sorted),
    )
  ]

  pub sort_by-IsSortedBy : (xs : List A) → IsSortedBy (sort_by key xs)
  unfolding sort_by
  sort_by-IsSortedBy [] = tt
  sort_by-IsSortedBy (x ∷ xs) = insert_by-IsSortedBy x (sort_by key xs) (sort_by-IsSortedBy xs)
