-- ===== src/Text/Equality.antt =====
-- `text_eq` decides equality of texts.
use workflow_helper_public.Base.{
  ◌≡◌, refl, ◌≢◌, ◌↔◌, ◌⊎◌, true, false, [], ◌∷◌, arith, Option, none, some,
}
use workflow_helper_public.Text.{Text, text_eq, opt_text_eq}

pub text_eq→eq : (s t : Text) → text_eq s t ≡ true → s ≡ t
unfolding text_eq
text_eq→eq [] [] h = refl
text_eq→eq [] (d ∷ t) h = cc
text_eq→eq (c ∷ s) [] h = cc
text_eq→eq (c ∷ s) (d ∷ t) h = ground (arith, text_eq→eq s t)

pub text_eq_refl : (s : Text) → text_eq s s ≡ true
unfolding text_eq
text_eq_refl [] = refl
text_eq_refl (c ∷ s) = ground (arith, text_eq_refl s)

pub text_eq_iff : (s t : Text) → (text_eq s t ≡ true) ↔ (s ≡ t)
text_eq_iff s t = (text_eq→eq s t, λ e. rw e (text_eq_refl t))

pub text_eq_ne : (s t : Text) → s ≢ t → text_eq s t ≡ false
text_eq_ne s t h = ground (arith, text_eq_iff s t)

pub text_eq_sym : (s t : Text) → text_eq s t ≡ text_eq t s
text_eq_sym s t = ground (arith, text_eq_iff s t, text_eq_iff t s)

pub Text-cases : (s t : Text) → (s ≡ t) ⊎ (text_eq s t ≡ false)
Text-cases s t = ground (arith, text_eq_iff s t)

pub opt_text_eq_iff : (s t : Option Text) → (opt_text_eq s t ≡ true) ↔ (s ≡ t)
opt_text_eq_iff none none = ground arith
opt_text_eq_iff none (some t) = ground arith
opt_text_eq_iff (some s) none = ground arith
opt_text_eq_iff (some s) (some t) = ground (arith, text_eq_iff s t)
