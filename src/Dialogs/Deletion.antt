-- ===== src/Dialogs/Deletion.antt =====
-- ui/src/features/shared-components/table/dialogs/delete-entity-dialog.tsx: the name must be typed.
-- `mutationFn` is a parameter: what it returns, or throws, for an identifier.
use wgpanelne.Prelude.{
  ◌≡◌, ◌≢◌, refl, sym, ap, ◌∙◌, Bool, true, false, not, Option, none, some, List, [], ◌∷◌, ◌++◌,
  if◌then◌else◌, Bool-cases, inl, inr, ◌⊎◌,
}
use wgpanelne.Js.Strings.{Text, codes, text_eq, text_eq_iff}
use wgpanelne.Js.Trim.{trim, AllSpace}
use wgpanelne.Js.Trim.Laws.{trim_idem, trim_padded}
use wgpanelne.Auth.Errors.{Thrown, Outcome, resolved, rejected}

pub record Entity : Type 0 where
  pub id : Text
  pub name : Text

-- What the button does: the identifiers that `mutationFn` is called with, whether the dialog stays
-- open, what it toasts itself, the value of `loading` at the end, and the error it throws on.
pub record Deleted : Type 0 where
  pub called : List Text
  pub stays_open : Bool
  pub toasted : Option Text
  pub loading : Bool
  pub thrown : Option Thrown

-- `value.trim() !== entity.name`
abbrev pub disabled : Text → Entity → Bool
disabled value entity = not (text_eq (trim value) entity.name)

ended : Text → Entity → Outcome (Unit {0}) → Deleted
ended entity_type entity (resolved _) = record {
  called = entity.id ∷ [];
  stays_open = false;
  toasted =
      some (entity_type ++ codes " " ++ entity.name ++ codes " has been deleted successfully");
  loading = false;
  thrown = none;
}
ended entity_type entity (rejected e) = record {
  called = entity.id ∷ [];
  stays_open = true;
  toasted = none;
  loading = false;
  thrown = some e;
}

abbrev pub idle : Deleted
idle = record { called = []; stays_open = true; toasted = none; loading = false; thrown = none }

unfoldable pub handle_delete : (Text → Outcome (Unit {0})) → Text → Entity → Text → Deleted
unfolding ended
handle_delete mutation_fn entity_type entity value =
    if disabled value entity then idle else ended entity_type entity (mutation_fn entity.id)

module _ (mutation_fn : Text → Outcome (Unit {0})) (entity_type : Text) (entity : Entity) where
  ended-called : (o : Outcome (Unit {0})) → (ended entity_type entity o).called ≡ entity.id ∷ []
  unfolding ended
  ended-called (resolved u) = refl
  ended-called (rejected e) = refl

  -- An entity is deleted only under its name: `mutationFn` is called at most once, with the
  -- identifier of the entity, and exactly when the text that was typed, without the blanks around
  -- it, is the entity's name.
  pub handle_delete-called :
      (value : Text)
      → ((trim value ≡ entity.name)
          × ((handle_delete mutation_fn entity_type entity value).called ≡ entity.id ∷ []))
        ⊎ ((trim value ≢ entity.name) × (handle_delete mutation_fn entity_type entity value ≡ idle))
  unfolding handle_delete
  handle_delete-called value = elim (Bool-cases (text_eq (trim value) entity.name)) [
    | inl h ↦
        inl
          ((text_eq_iff (trim value) entity.name).0 h, rw h (ended-called (mutation_fn entity.id)))
    | inr h ↦ inr (λ e. cc ((text_eq_iff (trim value) entity.name).1 e), rw h refl)
  ]

  named :
      (value : Text)
      → trim value ≡ entity.name
      → (handle_delete mutation_fn entity_type entity value).called ≡ entity.id ∷ []
  named value h = elim (handle_delete-called value) [ inl (_, e) ↦ e | inr (ne, _) ↦ absurd (ne h) ]

  unnamed :
      (value : Text)
      → trim value ≢ entity.name
      → handle_delete mutation_fn entity_type entity value ≡ idle
  unnamed value h = elim (handle_delete-called value) [ inl (e, _) ↦ absurd (h e) | inr (_, e) ↦ e ]

  -- Blanks around the typed name do not matter, if the name of the entity has none around it; an
  -- entity whose name has blanks at its ends is not deleted whatever is typed.
  handle_delete_blanks :
      (value : Text)
      → (trim entity.name ≡ entity.name
          → (p q : Text) → AllSpace p
          → AllSpace q
          → (handle_delete mutation_fn entity_type entity (p ++ entity.name ++ q)).called
            ≡ entity.id ∷ [])
        × (trim entity.name ≢ entity.name
            → handle_delete mutation_fn entity_type entity value ≡ idle)
  handle_delete_blanks value = (
    λ h p q hp hq. named (p ++ entity.name ++ q) (trim_padded p entity.name q hp hq ∙ h),
    λ h. unnamed value (λ e. h (ap trim (sym e) ∙ trim_idem value ∙ e)),
  )
