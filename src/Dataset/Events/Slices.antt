-- ===== src/Dataset/Events/Slices.antt =====
-- Reading the rows of a page one by one reads a part of what reading all the rows reads.
use workflow_helper_public.Base.{
  ℕ, zero, suc, ◌≡◌, refl, sym, ap, ◌∙◌, List, [], ◌∷◌, take, drop, length, Result, ok, each, subst,
  after_ok,
}
use workflow_helper_public.Dataset.Events.Pages.{PlacedBy}

-- Reading a slice gives the slice of what reading everything gives.
module _ {A B : Type 0} (f : A → Result B) where
  each-cons :
      (x : A) (xs : List A) (ys : List B)
      → each f (x ∷ xs) ≡ ok ys
      → (y : B) × (rest : List B) × (f x ≡ ok y) × (each f xs ≡ ok rest) × (ys ≡ y ∷ rest)
  each-cons x xs ys h =
      let (y, first, rest_made) = after_ok (f x) _ h in
      let (rest, read, same) = after_ok (each f xs) _ rest_made in (y, rest, first, read, cc)

  each-nil : (ys : List B) → each f [] ≡ ok ys → ys ≡ []
  each-nil ys h = cc

  pub each-drop :
      (k : ℕ) (xs : List A) (ys : List B) → each f xs ≡ ok ys → each f (drop k xs) ≡ ok (drop k ys)
  each-drop zero xs ys h = h
  each-drop (suc k) [] ys h = rw (each-nil ys h) refl
  each-drop (suc k) (x ∷ xs) ys h =
      let (y, rest, _, read, same) = each-cons x xs ys h in rw same (each-drop k xs rest read)

  pub each-take :
      (k : ℕ) (xs : List A) (ys : List B) → each f xs ≡ ok ys → each f (take k xs) ≡ ok (take k ys)
  each-take zero xs ys h = refl
  each-take (suc k) [] ys h = rw (each-nil ys h) refl
  each-take (suc k) (x ∷ xs) ys h =
      let (y, rest, first, read, same) = each-cons x xs ys h in
      rw same (rw first (rw (each-take k xs rest read) refl))

  pub each-PlacedBy :
      (p : A → ℕ) (q : B → ℕ)
      → ((a : A) (b : B) → f a ≡ ok b → q b ≡ p a)
      → (n : ℕ) (xs : List A) (ys : List B) → PlacedBy p n xs
      → each f xs ≡ ok ys
      → PlacedBy q n ys
  each-PlacedBy p q keeps n [] ys placed h =
      subst (λ (l : List B). PlacedBy q n l) (sym (each-nil ys h)) tt
  each-PlacedBy p q keeps n (x ∷ xs) ys (at, placed) h =
      let (y, rest, first, read, same) = each-cons x xs ys h in
      subst (λ (l : List B). PlacedBy q n l) (sym same)
        (keeps x y first ∙ at, each-PlacedBy p q keeps (suc n) xs rest placed read)

pub each-length :
    {A B : Type 0} (f : A → Result B) (xs : List A) (ys : List B)
    → each f xs ≡ ok ys
    → length ys ≡ length xs
each-length f [] ys h = ap (λ l. length l) (each-nil f ys h)
each-length f (x ∷ xs) ys h =
    let (y, rest, _, read, same) = each-cons f x xs ys h in
    ap (λ l. length l) same ∙ ap (λ (n : ℕ). suc n) (each-length f xs rest read)
