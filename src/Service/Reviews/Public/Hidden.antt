-- ===== src/Service/Reviews/Public/Hidden.antt =====
-- What the JSON of a candidate review does not show, as `ControlService` answers it.
use workflow_helper_public.Base.{◌≡◌, refl, Bool, true, false, ◌||◌, Bool-cases, inl, inr}
use workflow_helper_public.Text.{Text, starts_with}
use workflow_helper_public.Json.{
  Json, null, boolean, number, text, array, object, Items, nil, cons, Fields, end, field,
}
use workflow_helper_public.Platform.{Platform}
use workflow_helper_public.Audit.{contains}
use workflow_helper_public.Scope.{key_version}
use workflow_helper_public.Service.Reviews.Public.{
  hidden, is_dropped, is_blanked, clean, clean_items, clean_fields,
}

-- Whether a value has, at any depth, a server binding's name or a text that is an internal key.
mutual
  pub reveals : Json → Bool
  reveals null = false
  reveals (boolean b) = false
  reveals (number n) = false
  reveals (text value) = starts_with value key_version
  reveals (array items) = items_reveal items
  reveals (object fields) = fields_reveal fields

  items_reveal : Items → Bool
  items_reveal nil = false
  items_reveal (cons item rest) = reveals item || items_reveal rest

  pub fields_reveal : Fields → Bool
  fields_reveal end = false
  fields_reveal (field key value rest) = contains hidden key || reveals value || fields_reveal rest

or-left : (a b : Bool) → (a || b) ≡ false → a ≡ false
or-left true b h = h
or-left false b h = refl

not_blanked :
    (platform : Platform) (lifecycle : Bool) (value : Text)
    → is_blanked platform lifecycle value ≡ false
    → starts_with value key_version ≡ false
unfolding is_blanked
not_blanked platform lifecycle value h = or-left (starts_with value key_version) _ h

not_dropped :
    (platform : Platform) (lifecycle : Bool) (key : Text)
    → is_dropped platform lifecycle key ≡ false
    → contains hidden key ≡ false
unfolding is_dropped
not_dropped platform lifecycle key h = or-left (contains hidden key) _ h

mutual
  unfolding reveals clean

  clean-hides :
      (platform : Platform) (lifecycle : Bool) (value : Json)
      → reveals (clean platform lifecycle value) ≡ false
  clean-hides platform lifecycle null = refl
  clean-hides platform lifecycle (boolean b) = refl
  clean-hides platform lifecycle (number n) = refl
  clean-hides platform lifecycle (text value) =
      elim (Bool-cases (is_blanked platform lifecycle value)) [
        | inl e ↦ rw e refl
        | inr e ↦ rw e (not_blanked platform lifecycle value e)
      ]
  clean-hides platform lifecycle (array items) = clean_items-hides platform lifecycle items
  clean-hides platform lifecycle (object fields) = clean_fields-hides platform lifecycle fields

  clean_items-hides :
      (platform : Platform) (lifecycle : Bool) (items : Items)
      → items_reveal (clean_items platform lifecycle items) ≡ false
  clean_items-hides platform lifecycle nil = refl
  clean_items-hides platform lifecycle (cons item rest) =
      rw (clean-hides platform lifecycle item) (clean_items-hides platform lifecycle rest)

  clean_fields-hides :
      (platform : Platform) (lifecycle : Bool) (fields : Fields)
      → fields_reveal (clean_fields platform lifecycle fields) ≡ false
  clean_fields-hides platform lifecycle end = refl
  clean_fields-hides platform lifecycle (field key value rest) =
      elim (Bool-cases (is_dropped platform lifecycle key)) [
        | inl e ↦ rw e (clean_fields-hides platform lifecycle rest)
        | inr e ↦ rw e (
            rw (not_dropped platform lifecycle key e) (
              rw (clean-hides platform lifecycle value)
                (clean_fields-hides platform lifecycle rest)))
      ]
