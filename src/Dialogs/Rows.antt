-- ===== src/Dialogs/Rows.antt =====
-- The provider that every feature with a table has (ui/src/features/*/context): `opens` is the open
-- dialog (`open`), `current_row` the row it is about. `timers` counts the callbacks of `setTimeout`
-- that have not run yet; all of them are the same, `setCurrentRow(null)`. Generic in the rows and in
-- the dialogs of the feature.
use wgpanelne.Prelude.{
  Among, ℕ, suc, Bool, true, Option, none, some, List, [], ◌∷◌, ◌≡◌, if◌then◌else◌,
}
use wgpanelne.Js.Strings.{Text}
use wgpanelne.Dialogs.Opening.{set_open}

pub record Rows {ℓ} (A : Type ℓ) : Type ℓ where
  pub opens : Option Text
  pub current_row : Option A
  pub timers : ℕ

-- A dialog as the feature renders it: its component, the `formId` or `entityType` it gets, the row it
-- gets, whether it is open, whether it sends a request whose success closes it, and what closing it
-- does.
pub record Dialog {ℓ} (A : Type ℓ) : Type ℓ where
  pub component : Text
  pub about : Text
  pub row : Option A
  pub is_open : Bool
  pub submits : Bool
  pub on_open_change : Rows A → Rows A

module _ {ℓ} {A : Type ℓ} where
  abbrev pub provider : Rows A
  provider = record { opens = none; current_row = none; timers = 0 }

  -- `setOpen(type)`
  abbrev pub press : Option Text → Rows A → Rows A
  press t s = record { opens = set_open t s.opens; current_row = s.current_row; timers = s.timers }

  -- `setCurrentRow(row.original); setOpen(type)`
  unfoldable pub on_click : A → Text → Rows A → Rows A
  on_click r t s = record {
    opens = set_open (some t) s.opens;
    current_row = some r;
    timers = s.timers;
  }

  -- `setOpen(type); setTimeout(() => setCurrentRow(null), 500)`
  unfoldable pub handle_close : Text → Rows A → Rows A
  handle_close t s = record {
    opens = set_open (some t) s.opens;
    current_row = s.current_row;
    timers = suc s.timers;
  }

  -- A callback runs.
  abbrev pub fire : ℕ → Rows A → Rows A
  fire n s = record { opens = s.opens; current_row = none; timers = n }

  -- The dialogs that are rendered open; the one that downloads a configuration draws nothing, even so.
  unfoldable pub opened : List (Dialog A) → List (Dialog A)
  opened [] = []
  opened (d ∷ ds) = let rest = opened ds in if d.is_open then d ∷ rest else rest

-- What a feature's page is: the dialogs it renders in a state, the dialogs its row menu opens, and
-- those its buttons open.
pub record Page {ℓ} (A : Type ℓ) : Type ℓ where
  pub dialogs : Rows A → List (Dialog A)
  pub menu : List Text
  pub buttons : List Text

-- What `onClose` or `onOpenChange` will do to the provider once a request that was sent is answered.
abbrev pub Closer {ℓ} : Type ℓ → Type ℓ
Closer A = Rows A → Rows A

-- The provider, and the requests that wait for their answers, each with what it calls when it is
-- accepted. Dialogs are modal: the page under one cannot be used, so the menus and the buttons are
-- used only while none is open. That is also waited for while a configuration is downloaded, which
-- shows no dialog, nobody opens a dialog of a row while a callback is pending, and nobody closes a
-- dialog while its request waits. A button that submits is disabled while its request waits.
pub data Step {ℓ} {A : Type ℓ} (p : Page A)
    : Rows A → List (Closer A) → Rows A → List (Closer A) → Type ℓ where
  click :
      (r : A) (t : Text) (s : Rows A) (ws : List (Closer A))
      → Among t p.menu
      → opened (p.dialogs s) ≡ []
      → s.timers ≡ 0
      → Step p s ws (on_click r t s) ws
  button :
      (t : Text) (s : Rows A) (ws : List (Closer A))
      → Among t p.buttons
      → opened (p.dialogs s) ≡ []
      → Step p s ws (press (some t) s) ws
  close :
      (d : Dialog A) (s : Rows A)
      → Among d (opened (p.dialogs s))
      → Step p s [] (d.on_open_change s) []
  submit :
      (d : Dialog A) (s : Rows A)
      → Among d (opened (p.dialogs s))
      → d.submits ≡ true
      → Step p s [] s (d.on_open_change ∷ [])
  accepted : (f : Closer A) (s : Rows A) (ws : List (Closer A)) → Step p s (f ∷ ws) (f s) ws
  refused : (f : Closer A) (s : Rows A) (ws : List (Closer A)) → Step p s (f ∷ ws) s ws
  timer : (n : ℕ) (s : Rows A) (ws : List (Closer A)) → s.timers ≡ suc n → Step p s ws (fire n s) ws

pub data Reach {ℓ} {A : Type ℓ} (p : Page A) (s : Rows A) (ws : List (Closer A))
    : Rows A → List (Closer A) → Type ℓ where
  here : Reach p s ws s ws
  next :
      {t u : Rows A} {vs xs : List (Closer A)}
      → Reach p s ws t vs
      → Step p t vs u xs
      → Reach p s ws u xs
