-- ===== src/Dataset/Events/Pages.antt =====
-- The loop of `_all_events` reads all the pages, and ends.
use workflow_helper_public.Base.{
  ℕ, zero, suc, ◌+◌, ◌≤◌, ◌<◌, ◌≡◌, refl, sym, ap, ◌∙◌, false, List, [], ◌∷◌, ◌++◌, append_assoc,
  append-nil, Option, some, arith, subst, take, drop, length, ltb, Bool-cases, inl, inr, min,
  Result, ok, err, length-take, length-drop, ltb→lt,
}
use workflow_helper_public.Store.ReviewRows.{ReviewEvent}
use workflow_helper_public.Service.Session.{ControlService, Svc, ◌>>=◌}
use workflow_helper_public.Dataset.Events.{last_sequence, next_round, loop}

-- Values under their places, from the next of `n` on.
abbrev pub PlacedBy : {A : Type 0} → (A → ℕ) → ℕ → List A → Type 0
PlacedBy place n [] = Unit
PlacedBy place n (value ∷ values) = (place value ≡ suc n) × PlacedBy place (suc n) values

abbrev pub IsPlaced : ℕ → List ReviewEvent → Type 0
IsPlaced n events = PlacedBy (λ (event : ReviewEvent). event.sequence) n events

drop-IsPlaced :
    (k n : ℕ) (events : List ReviewEvent)
    → k ≤ length events
    → IsPlaced n events
    → IsPlaced (n + k) (drop k events)
drop-IsPlaced zero n events h placed = subst (λ (m : ℕ). IsPlaced m events) (omega arith) placed
drop-IsPlaced (suc k) n [] h placed = absurd (omega (arith, h))
drop-IsPlaced (suc k) n (event ∷ events) h (_, rest) =
    subst (λ (m : ℕ). IsPlaced m (drop k events)) (moved k n)
      (drop-IsPlaced k (suc n) events (omega (arith, h)) rest)
  where
    moved : (k n : ℕ) → suc n + k ≡ n + suc k
    moved k n = omega arith

take-IsPlaced :
    (k n : ℕ) (events : List ReviewEvent) → IsPlaced n events → IsPlaced n (take k events)
take-IsPlaced zero n events placed = tt
take-IsPlaced (suc k) n [] placed = tt
take-IsPlaced (suc k) n (event ∷ events) (at, rest) = (at, take-IsPlaced k (suc n) events rest)

-- The last of them is as many places on.
last-IsPlaced :
    (n : ℕ) (event : ReviewEvent) (rest : List ReviewEvent)
    → IsPlaced n (event ∷ rest)
    → last_sequence event rest ≡ n + length (event ∷ rest)
unfolding last_sequence
last-IsPlaced n event [] (at, _) = at ∙ omega arith
last-IsPlaced n event (next ∷ rest) (_, placed) =
    last-IsPlaced (suc n) next rest placed ∙ omega arith

take-all : (k : ℕ) (events : List ReviewEvent) → length (take k events) < k → take k events ≡ events
take-all zero events h = absurd (omega (arith, h))
take-all (suc k) [] h = refl
take-all (suc k) (event ∷ events) h =
    ap (λ (l : List ReviewEvent). event ∷ l) (take-all k events (omega (arith, h)))

take-drop : (k : ℕ) (events : List ReviewEvent) → take k events ++ drop k events ≡ events
take-drop zero events = refl
take-drop (suc k) [] = refl
take-drop (suc k) (event ∷ events) = ap (λ (l : List ReviewEvent). event ∷ l) (take-drop k events)

from_zero : (n : ℕ) → n ≡ 0 + n
from_zero n = omega arith

one_more : (k n : ℕ) → suc (k + n) ≡ suc k + n
one_more k n = omega arith

drop-nil : (n : ℕ) → drop {A = ReviewEvent} n [] ≡ []
drop-nil zero = refl
drop-nil (suc n) = refl

drop-drop : (k n : ℕ) (events : List ReviewEvent) → drop n (drop k events) ≡ drop (k + n) events
drop-drop zero n events = ap (λ (m : ℕ). drop m events) (from_zero n)
drop-drop (suc k) n [] = drop-nil n ∙ sym (drop-nil (suc k + n))
drop-drop (suc k) n (event ∷ events) =
    drop-drop k n events ∙ ap (λ (m : ℕ). drop m (event ∷ events)) (one_more k n)

is_hundred : (n m : ℕ) → n ≡ min 100 m → ltb n 100 ≡ false → n ≡ 100
is_hundred n m size full = ground (arith, size, full)

-- A step that succeeds and leaves the stores alone hands its value on.
pub bind-ok :
    {A B : Type 0} (m : Svc A) (f : A → Svc B) (s : ControlService) (a : A)
    → m s ≡ (ok a, s)
    → (m >>= f) s ≡ f a s
unfolding ◌>>=◌
bind-ok {A} {B} m f s a h =
    ap
      (λ (r : Result A × ControlService). elim r.0 as (λ _. Result B × ControlService) [
        | ok b ↦ f b r.1
        | err e ↦ (err e, r.1)
      ])
      h

module _ (fetch : ℕ → Svc (List ReviewEvent)) (s : ControlService) (whole : List ReviewEvent)
    (placed : IsPlaced 0 whole)
    (pages : (after_sequence : ℕ)
      → fetch after_sequence s ≡ (ok (take 100 (drop after_sequence whole)), s)) where
  -- A batch that is not full is the rest.
  short_batch :
      (after_sequence : ℕ) (batch : List ReviewEvent)
      → take 100 (drop after_sequence whole) ≡ batch
      → length batch < 100
      → drop after_sequence whole ≡ batch
  short_batch after_sequence batch e short =
      sym (
        take-all 100 (drop after_sequence whole)
          (subst (λ (b : List ReviewEvent). length b < 100) (sym e) short))
      ∙ e

  -- A full batch ends a hundred places on, and the rest follows it.
  full_batch :
      (after_sequence : ℕ) (event : ReviewEvent) (rest : List ReviewEvent)
      → after_sequence ≤ length whole
      → take 100 (drop after_sequence whole) ≡ event ∷ rest
      → ltb (length (event ∷ rest)) 100 ≡ false
      → (last_sequence event rest ≡ after_sequence + 100)
        × (event ∷ rest ++ drop (after_sequence + 100) whole ≡ drop after_sequence whole)
        × (after_sequence + 100 ≤ length whole)
  full_batch after_sequence event rest reached e full =
      let size : length (event ∷ rest) ≡ min 100 (length (drop after_sequence whole)) =
        ap (λ (b : List ReviewEvent). length b) (sym e)
        ∙ length-take 100 (drop after_sequence whole) in
      let left = length-drop after_sequence whole in
      let hundred : length (event ∷ rest) ≡ 100 =
        is_hundred (length (event ∷ rest)) (length (drop after_sequence whole)) size full in
      let at : IsPlaced after_sequence (event ∷ rest) =
        subst (λ (b : List ReviewEvent). IsPlaced after_sequence b) e
          (take-IsPlaced 100 after_sequence (drop after_sequence whole) (
            subst (λ (m : ℕ). IsPlaced m (drop after_sequence whole))
              (sym (from_zero after_sequence))
              (drop-IsPlaced after_sequence 0 whole reached placed))) in
      (
        last-IsPlaced after_sequence event rest at ∙ ap (λ (n : ℕ). after_sequence + n) hundred,
        ap (λ (b : List ReviewEvent). b ++ drop (after_sequence + 100) whole) (sym e)
            ∙ ap (λ (d : List ReviewEvent). take 100 (drop after_sequence whole) ++ d)
                (sym (drop-drop after_sequence 100 whole))
            ∙ take-drop 100 (drop after_sequence whole),
        omega (arith, size, left, hundred, reached),
      )

  -- A round that starts after a place reads on to the end.
  loop-rest :
      (fuel after_sequence : ℕ) (events : List ReviewEvent)
      → after_sequence ≤ length whole
      → length whole < fuel + after_sequence
      → loop fetch fuel after_sequence events s
        ≡ (ok (some (events ++ drop after_sequence whole)), s)
  unfolding loop next_round
  loop-rest zero after_sequence events reached enough = absurd (omega (arith, reached, enough))
  loop-rest (suc fuel) after_sequence events reached enough =
      bind-ok (fetch after_sequence) _ s _ (pages after_sequence)
      ∙ round (λ a es. loop-rest fuel a es) (take 100 (drop after_sequence whole)) refl
    where
      answer : List ReviewEvent → Result (Option (List ReviewEvent)) × ControlService
      answer found = (ok (some found), s)

      round :
          ((a : ℕ) (es : List ReviewEvent)
            → a ≤ length whole
            → length whole < fuel + a
            → loop fetch fuel a es s ≡ answer (es ++ drop a whole))
          → (batch : List ReviewEvent) → take 100 (drop after_sequence whole) ≡ batch
          → next_round fetch (λ a es. loop fetch fuel a es) events batch s
            ≡ answer (events ++ drop after_sequence whole)
      round again [] e = ap answer (
          sym (
            ap (λ (d : List ReviewEvent). events ++ d)
              (short_batch after_sequence [] e (omega arith))
            ∙ append-nil events))
      round again (event ∷ rest) e = elim (Bool-cases (ltb (length (event ∷ rest)) 100)) [
        | inl short ↦ rw short (
            ap answer (
              sym (
                ap (λ (d : List ReviewEvent). events ++ d)
                  (short_batch after_sequence (event ∷ rest) e
                    (ltb→lt (length (event ∷ rest)) 100 short)))))
        | inr full ↦
            let (last, joined, within) = full_batch after_sequence event rest reached e full in
            rw full (
              rw last (
                again (after_sequence + 100) (events ++ event ∷ rest) within (omega (arith, enough))
                ∙ ap answer (
                    append_assoc events (event ∷ rest) (drop (after_sequence + 100) whole)
                    ∙ ap (λ (d : List ReviewEvent). events ++ d) joined)))
      ]

  -- With one round more than there are events, the loop ends and has them all.
  pub loop_complete :
      (fuel : ℕ) → length whole < fuel → loop fetch fuel 0 [] s ≡ (ok (some whole), s)
  loop_complete fuel enough = loop-rest fuel 0 [] (omega arith) (omega (arith, enough))
