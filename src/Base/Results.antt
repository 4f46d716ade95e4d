-- ===== src/Base/Results.antt =====
-- Python exceptions as values, and the bodies of database transactions.
use Prim.Native.String.{String}
use mathlib.Core.Path.{◌≡◌, refl}
use mathlib.Core.Bool.{Bool, true, false}
use mathlib.Core.List.{List, [], ◌∷◌}
use mathlib.Core.Option.{Option, none, some}
use workflow_helper_public.Base.Tests.{if◌then◌else◌}

-- The exception classes, with the text that the source gives them.
pub data Error : Type 0 where
  value_error : String → Error
  type_error : String → Error
  conflict_error : String → Error
  control_store_error : String → Error
  job_not_found : Error
  lease_unavailable : String → Error
  stale_lease : String → Error
  authorization_denied : String → Error
  integrity_error : String → Error
  key_error : Error
  assertion_error : Error

pub data Result {ℓ} (A : Type ℓ) : Type ℓ where
  ok : A → Result A
  err : Error → Result A

-- The body of a transaction over a database `S`: a value and the new database, or an exception, on
-- which everything that the body wrote is rolled back. Code that only raises is such a body too.
abbrev pub Tx : Type 0 → Type 0 → Type 0
Tx S A = S → Result (A × S)

infixl 5 ◌>>=◌ ◌>>◌
abbrev pub ◌>>=◌ : {S A B : Type 0} → Tx S A → (A → Tx S B) → Tx S B
◌>>=◌ m f s = elim (m s) [ ok (a, s') ↦ f a s' | err e ↦ err e ]

abbrev pub ◌>>◌ : {S B : Type 0} → Tx S (Unit {0}) → Tx S B → Tx S B
m >> k = m >>= λ _. k

module _ {S A : Type 0} where
  abbrev pub pure : A → Tx S A
  pure a s = ok (a, s)

  abbrev pub raise : Error → Tx S A
  raise e s = err e

  abbrev pub gets : (S → A) → Tx S A
  gets f s = ok (f s, s)

  -- What only reads its arguments, and may raise.
  abbrev pub lift : Result A → Tx S A
  lift (ok a) s = ok (a, s)
  lift (err e) s = err e

  -- A row that must be there.
  abbrev pub require_row : Option A → Error → Tx S A
  require_row none e s = err e
  require_row (some a) e s = ok (a, s)

  -- A transaction as its caller sees it: committed, or rolled back with the exception raised.
  abbrev pub transaction : Tx S A → S → Result A × S
  transaction m s = elim (m s) [ ok (a, s') ↦ (ok a, s') | err e ↦ (err e, s) ]

module _ {S : Type 0} where
  abbrev pub modify : (S → S) → Tx S (Unit {0})
  modify f s = ok (tt, f s)

  abbrev pub raise_if : Bool → Error → Tx S (Unit {0})
  raise_if true e s = err e
  raise_if false e s = ok (tt, s)

abbrev pub reject_if : Bool → Error → Result (Unit {0})
reject_if true e = err e
reject_if false e = ok tt

-- `[f(value) for value in values]`, of an `f` that may raise.
abbrev pub each {ℓ} : {A B : Type ℓ} → (A → Result B) → List A → Result (List B)
each f [] = ok []
each f (value ∷ values) = elim (f value) [
  | err e ↦ err e
  | ok made ↦ elim (each f values) [ err e ↦ err e | ok rest ↦ ok (made ∷ rest) ]
]

-- A run that succeeds went through its first step.
pub >>=-eq-ok :
    {S A B : Type 0} (m : Tx S A) (f : A → Tx S B) (s : S) {b : B × S}
    → (m >>= f) s ≡ ok b
    → (a : A) × (s' : S) × (m s ≡ ok (a, s')) × (f a s' ≡ ok b)
>>=-eq-ok m f s h = inversion (m s) f h
  where
    inversion :
        {S A B : Type 0} (r : Result (A × S)) (f : A → Tx S B) {b : B × S}
        → (elim r as (λ _. Result (B × S)) [ ok (a, s') ↦ f a s' | err e ↦ err e ]) ≡ ok b
        → (a : A) × (s' : S) × (r ≡ ok (a, s')) × (f a s' ≡ ok b)
    inversion (ok (a, s')) f h = (a, s', refl, h)
    inversion (err e) f h = cc

-- The same for the steps that only check.
pub lift-eq-ok :
    {S A B : Type 0} (r : Result A) (f : A → Tx S B) (s : S) {b : B × S}
    → (lift r >>= f) s ≡ ok b
    → (a : A) × (r ≡ ok a) × (f a s ≡ ok b)
lift-eq-ok (ok a) f s h = (a, refl, h)
lift-eq-ok (err e) f s h = cc

pub require_row-eq-ok :
    {S A B : Type 0} (o : Option A) (e : Error) (f : A → Tx S B) (s : S) {b : B × S}
    → (require_row o e >>= f) s ≡ ok b
    → (a : A) × (o ≡ some a) × (f a s ≡ ok b)
require_row-eq-ok (some a) e f s h = (a, refl, h)
require_row-eq-ok none e f s h = cc

pub raise_if-eq-ok :
    {S B : Type 0} (c : Bool) (e : Error) (f : Tx S B) (s : S) {b : B × S}
    → (raise_if c e >> f) s ≡ ok b
    → (c ≡ false) × (f s ≡ ok b)
raise_if-eq-ok true e f s h = cc
raise_if-eq-ok false e f s h = (refl, h)

pub reject_if-false : (b : Bool) (e : Error) {u : Unit {0}} → reject_if b e ≡ ok u → b ≡ false
reject_if-false true e h = cc
reject_if-false false e h = refl

-- A chain of two results that succeeded, and both its halves.
pub after_ok :
    {A B : Type 0} (r : Result A) (f : A → Result B) {b : B}
    → (elim r as (λ _. Result B) [ err e ↦ err e | ok a ↦ f a ]) ≡ ok b
    → (a : A) × (r ≡ ok a) × (f a ≡ ok b)
after_ok (ok a) f h = (a, refl, h)
after_ok (err e) f h = cc

-- A row that was required, what was made of it, and that it was there.
pub after_some :
    {A B : Type 0} (o : Option A) (e : Error) (f : A → Result B) {b : B}
    → (elim o as (λ _. Result B) [ none ↦ err e | some a ↦ f a ]) ≡ ok b
    → (a : A) × (o ≡ some a) × (f a ≡ ok b)
after_some (some a) e f h = (a, refl, h)
after_some none e f h = cc

pub ok-eq : {A : Type 0} {a b : A} → ok a ≡ ok b → a ≡ b
ok-eq h = cc

-- A guard that was passed.
pub after_guard :
    {A : Type 0} (b : Bool) (e : Error) (k : Result A) {a : A}
    → (if b then err e else k) ≡ ok a
    → (b ≡ false) × (k ≡ ok a)
after_guard true e k h = cc
after_guard false e k h = (refl, h)

-- A check that succeeded, and what was done after it.
pub checked_first :
    {A : Type 0} (r : Result (Unit {0})) (k : Result A) {a : A}
    → (elim r as (λ _. Result A) [ err e ↦ err e | ok _ ↦ k ]) ≡ ok a
    → (r ≡ ok tt) × (k ≡ ok a)
checked_first r k h = let (_, checked, rest) = after_ok r (λ _. k) h in (checked, rest)

pub lift-ok :
    {S A : Type 0} (r : Result A) {s s' : S} {a : A} → lift r s ≡ ok (a, s') → (r ≡ ok a) × (s' ≡ s)
lift-ok (ok a) h = (cc, cc)
lift-ok (err e) h = cc
