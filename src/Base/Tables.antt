-- ===== src/Base/Tables.antt =====
-- A database table as a list of rows: the row of a primary key is found, replaced and counted.
use Prim.Native.Nat.{ℕ, ◌+◌}
use mathlib.Core.Path.{◌≡◌, refl, subst}
use mathlib.Core.Logic.{inl, inr}
use mathlib.Core.Bool.{Bool, true, false}
use mathlib.Core.List.{List, [], ◌∷◌, ◌++◌}
use mathlib.Core.Option.{none, some}
use native.Mathlib.Omega.{arith}
use workflow_helper_public.Base.Tests.{if◌then◌else◌, Bool-cases}
use workflow_helper_public.Base.Lists.{find, count, any}

abbrev pub unit : Bool → ℕ
unit b = if b then 1 else 0

module _ {A : Type 0} where
  -- The first row that the test finds is replaced.
  abbrev pub replace : (A → Bool) → A → List A → List A
  replace test new [] = []
  replace test new (x ∷ xs) = if test x then new ∷ xs else x ∷ replace test new xs

  abbrev pub Every : (A → Type 0) → List A → Type 0
  Every P [] = Unit
  Every P (x ∷ xs) = P x × Every P xs

  pub find-test : (test : A → Bool) (xs : List A) (x : A) → find test xs ≡ some x → test x ≡ true
  find-test test [] x h = cc
  find-test test (y ∷ ys) x h = ground (arith, find-test test ys x)

  pub find-replace_self :
      (test : A → Bool) (new : A) (xs : List A) (old : A)
      → test new ≡ true
      → find test xs ≡ some old
      → find test (replace test new xs) ≡ some new
  find-replace_self test new [] old t h = cc
  find-replace_self test new (x ∷ xs) old t h = ground (arith, find-replace_self test new xs old t)

  pub find-replace_other :
      (test other : A → Bool) (new : A) (xs : List A)
      → other new ≡ false
      → ((x : A) → test x ≡ true → other x ≡ false)
      → find other (replace test new xs) ≡ find other xs
  find-replace_other test other new [] n apart = refl
  find-replace_other test other new (x ∷ xs) n apart =
      ground (arith, apart x, find-replace_other test other new xs n apart)

  pub find-append_new :
      (test : A → Bool) (xs : List A) (new : A)
      → find test xs ≡ none
      → test new ≡ true
      → find test (xs ++ new ∷ []) ≡ some new
  find-append_new test [] new h t = ground arith
  find-append_new test (x ∷ xs) new h t = ground (arith, find-append_new test xs new)

  pub find-append_old :
      (test : A → Bool) (xs ys : List A) (x : A)
      → find test xs ≡ some x
      → find test (xs ++ ys) ≡ some x
  find-append_old test [] ys x h = cc
  find-append_old test (y ∷ xs) ys x h = ground (arith, find-append_old test xs ys x)

  pub find-append_other :
      (test : A → Bool) (xs : List A) (new : A)
      → test new ≡ false
      → find test (xs ++ new ∷ []) ≡ find test xs
  find-append_other test [] new h = ground arith
  find-append_other test (x ∷ xs) new h = ground (arith, find-append_other test xs new h)

  pub count-replace :
      (test counted : A → Bool) (new : A) (xs : List A) (old : A)
      → find test xs ≡ some old
      → count counted (replace test new xs) + unit (counted old)
        ≡ count counted xs + unit (counted new)
  count-replace test counted new [] old h = cc
  count-replace test counted new (x ∷ xs) old h =
      ground (arith, count-replace test counted new xs old)

module _ {A : Type 0} (P : A → Type 0) where
  pub Every-find :
      (test : A → Bool) (xs : List A) (x : A) → Every P xs → find test xs ≡ some x → P x
  Every-find test [] x all h = cc
  Every-find test (y ∷ ys) x all h = elim (Bool-cases (test y)) [
    | inl e ↦ let same : y ≡ x = ground arith in subst P same all.0
    | inr e ↦ Every-find test ys x all.1 (ground arith)
  ]

  pub Every-replace :
      (test : A → Bool) (new : A) (xs : List A) → Every P xs → P new → Every P (replace test new xs)
  Every-replace test new [] all p = tt
  Every-replace test new (x ∷ xs) all p = elim (Bool-cases (test x)) [
    | inl e ↦ rw e (p, all.1)
    | inr e ↦ rw e (all.0, Every-replace test new xs all.1 p)
  ]

  pub Every-append : (xs ys : List A) → Every P xs → Every P ys → Every P (xs ++ ys)
  Every-append [] ys a b = b
  Every-append (x ∷ xs) ys a b = (a.0, Every-append xs ys a.1 b)

  pub Every-weaken :
      (Q : A → Type 0) (xs : List A) → ((x : A) → P x → Q x) → Every P xs → Every Q xs
  Every-weaken Q [] f a = tt
  Every-weaken Q (x ∷ xs) f a = (f x a.0, Every-weaken Q xs f a.1)

pub any-find-none :
    {A : Type 0} (test : A → Bool) (xs : List A) → any test xs ≡ false → find test xs ≡ none
any-find-none test [] h = refl
any-find-none test (x ∷ xs) h = ground (arith, any-find-none test xs)
