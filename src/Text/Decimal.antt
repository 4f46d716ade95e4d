-- ===== src/Text/Decimal.antt =====
-- `f"{n}"` and `int(text)` for a natural number.
use workflow_helper_public.Base.{
  ℕ, zero, suc, ◌+◌, ◌-◌, ◌*◌, ◌/◌, ◌%◌, ◌≤◌, ◌<◌, ◌≡◌, refl, true, [], ◌∷◌, arith, ltb,
  if◌then◌else◌, length, all, Bool-cases, inl, inr, ap, ◌∙◌,
}
use workflow_helper_public.Text.{Text, is_digit}

-- The digits of `n` before the text `acc`; fuel above `n` is enough.
digits : ℕ → ℕ → Text → Text
digits zero n acc = acc
digits (suc f) n acc =
    let rest = digits f (n / 10) ((b'0' + n % 10) ∷ acc) in
    if ltb n 10 then (b'0' + n) ∷ acc else rest

-- `f"{n}"`
unfoldable pub print : ℕ → Text
unfolding digits
print n = digits (suc n) n []

unfoldable pub parse_from : ℕ → Text → ℕ
parse_from n [] = n
parse_from n (c ∷ s) = parse_from (n * 10 + (c - b'0')) s

-- `int(text)`, for a text of ASCII digits.
unfoldable pub parse : Text → ℕ
unfolding parse_from
parse s = parse_from 0 s

parse_from-digits :
    (f n : ℕ) (acc : Text) → n < f → parse_from 0 (digits f n acc) ≡ parse_from n acc
unfolding digits parse_from
parse_from-digits zero n acc h = absurd (omega arith)
parse_from-digits (suc f) n acc h = elim (Bool-cases (ltb n 10)) [
  | inl small ↦ rw small (ap (λ (m : ℕ). parse_from m acc) (digit n))
  | inr large ↦ rw large (
      parse_from-digits f (n / 10) ((b'0' + n % 10) ∷ acc) (ground arith)
      ∙ ap (λ (m : ℕ). parse_from m acc) (last n))
]
  where
    digit : (n : ℕ) → 0 * 10 + (b'0' + n - b'0') ≡ n
    digit n = omega arith

    last : (n : ℕ) → n / 10 * 10 + (b'0' + n % 10 - b'0') ≡ n
    last n = omega arith

-- Reading back a printed number gives the number.
pub parse-print : (n : ℕ) → parse (print n) ≡ n
unfolding parse print parse_from
parse-print n = parse_from-digits (suc n) n [] (omega arith)

digits-all_digit :
    (f n : ℕ) (acc : Text) → all is_digit acc ≡ true → all is_digit (digits f n acc) ≡ true
unfolding digits is_digit
digits-all_digit zero n acc h = h
digits-all_digit (suc f) n acc h =
    ground (arith, digits-all_digit f (n / 10) ((b'0' + n % 10) ∷ acc))

pub print-all_digit : (n : ℕ) → all is_digit (print n) ≡ true
unfolding print
print-all_digit n = digits-all_digit (suc n) n [] refl

length-digits :
    (f n : ℕ) (acc : Text)
    → n < f
    → (length acc < length (digits f n acc)) × (length (digits f n acc) ≤ n + 1 + length acc)
unfolding digits
length-digits zero n acc h = absurd (omega arith)
length-digits (suc f) n acc h = elim (Bool-cases (ltb n 10)) [
  | inl small ↦ rw small (omega arith)
  | inr large ↦ rw large (ground (arith, length-digits f (n / 10) ((b'0' + n % 10) ∷ acc)))
]

pub length-print : (n : ℕ) → (0 < length (print n)) × (length (print n) ≤ n + 1)
unfolding print
length-print n = omega (arith, length-digits (suc n) n [] (omega arith))
