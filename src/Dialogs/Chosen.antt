-- ===== src/Dialogs/Chosen.antt =====
-- The selection is a set of identifiers.
use wgpanelne.Prelude.{
  ◌≡◌, refl, sym, ap, ◌∙◌, Bool, true, false, not, ◌||◌, ◌&&◌, List, [], ◌∷◌, if◌then◌else◌,
  Bool-cases, arith, inl, inr,
}
use wgpanelne.Js.Strings.{Text, codes, text_eq, text_eq_refl, text_eq_iff}
use wgpanelne.Tables.Filters.{has}
use wgpanelne.Dialogs.Selection.{
  Selected, put, checked_ids, PeersSync, closed, Event, check, select_interface, set_enabled,
  bool_eq, peers_sync_step, peers_sync_steps,
}

unfoldable pub has_key : Text → Selected → Bool
has_key x [] = false
has_key x ((k, c) ∷ s) = text_eq x k || has_key x s

unfoldable pub Distinct : Selected → Type 0
unfolding has_key
Distinct [] = Unit
Distinct ((k, c) ∷ s) = (has_key k s ≡ false) × Distinct s

has_key-put :
    (x id : Text) (b : Bool) (s : Selected) → has_key x (put id b s) ≡ (text_eq x id || has_key x s)
unfolding put has_key
has_key-put x id b [] = refl
has_key-put x id b ((k, c) ∷ s) =
    ground (arith, has_key-put x id b s, text_eq_iff x id, text_eq_iff id k, text_eq_iff x k)

pub put-Distinct : (id : Text) (b : Bool) (s : Selected) → Distinct s → Distinct (put id b s)
unfolding put Distinct
put-Distinct id b [] h = (refl, tt)
put-Distinct id b ((k, c) ∷ s) (h, hs) = elim (Bool-cases (text_eq id k)) [
  | inl same ↦ rw same (h, hs)
  | inr other ↦ rw other (
    ground (arith, has_key-put k id b s, text_eq_iff id k, text_eq_iff k id, h, other),
    put-Distinct id b s hs,
  )
]

pub has-checked_ids :
    (x : Text) (s : Selected) → has_key x s ≡ false → has x (checked_ids s) ≡ false
unfolding checked_ids has_key
has-checked_ids x [] h = refl
has-checked_ids x ((k, c) ∷ s) h = ground (arith, has-checked_ids x s)

checked_ids-put :
    (x id : Text) (b : Bool) (s : Selected)
    → Distinct s
    → has x (checked_ids (put id b s)) ≡ (if text_eq x id then b else has x (checked_ids s))
unfolding checked_ids put Distinct
checked_ids-put x id b [] h = ground (arith, text_eq_iff x id)
checked_ids-put x id b ((k, c) ∷ s) (h, hs) = ground (
  arith,
  checked_ids-put x id b s hs,
  text_eq_iff x id,
  text_eq_iff id k,
  text_eq_iff x k,
  has-checked_ids x s,
  h,
)

-- The dialog seen from outside: whether it is open, the interface, and which identifiers are
-- chosen.
pub record Choice : Type 0 where
  pub is_open : Bool
  pub interface : Text
  pub chosen : Text → Bool

abbrev pub nothing : Text → Bool
nothing x = false

-- Opening the dialog, and another interface while it is open, forget what was chosen.
unfoldable pub choose : Event → Choice → Choice
choose (check id b) a = record a { chosen = λ x. if text_eq x id then b else a.chosen x }
choose (select_interface t) a = record {
  is_open = a.is_open;
  interface = t;
  chosen = if a.is_open && not (text_eq a.interface t) then nothing else a.chosen;
}
choose (set_enabled b) a = record {
  is_open = b;
  interface = a.interface;
  chosen = if b && not a.is_open then nothing else a.chosen;
}

unfoldable pub choose_all : List Event → Choice → Choice
choose_all [] a = a
choose_all (e ∷ es) a = choose_all es (choose e a)

abbrev Represents : PeersSync → Choice → Type 0
Represents s a =
    (s.enabled ≡ a.is_open)
    × (s.selected_interface ≡ a.interface)
    × Distinct s.selected
    × ((x : Text) → has x (checked_ids s.selected) ≡ a.chosen x)

bool_eq_refl : (b : Bool) → bool_eq b b ≡ true
bool_eq_refl true = refl
bool_eq_refl false = refl

opened : (p b : Bool) → (b && not p) ≡ (b && not (bool_eq p b && true))
opened true true = refl
opened true false = refl
opened false true = refl
opened false false = refl

-- The state after the effect, whether it ran or not.
cleared :
    (same enabled : Bool) (t : Text) (sel : Selected) (f : Text → Bool)
    → Distinct sel
    → ((x : Text) → has x (checked_ids sel) ≡ f x)
    → Represents
        (if same
          then record { enabled = enabled; selected_interface = t; selected = sel }
          else if enabled
          then record { enabled = enabled; selected_interface = t; selected = [] }
          else record { enabled = enabled; selected_interface = t; selected = sel })
        (record {
          is_open = enabled;
          interface = t;
          chosen = if enabled && not same then nothing else f;
        })
unfolding Distinct checked_ids
cleared true true t sel f d c = (refl, refl, d, c)
cleared true false t sel f d c = (refl, refl, d, c)
cleared false true t sel f d c = (refl, refl, tt, λ x. refl)
cleared false false t sel f d c = (refl, refl, d, c)

step-Represents :
    (e : Event) (s : PeersSync) (a : Choice)
    → Represents s a
    → Represents (peers_sync_step e s) (choose e a)
unfolding peers_sync_step choose
step-Represents (check id b) s a (h, i, d, c) =
    rw (bool_eq_refl s.enabled, text_eq_refl s.selected_interface)
      (
        h,
        i,
        put-Distinct id b s.selected d,
        λ x. checked_ids-put x id b s.selected d ∙ ap (λ q. if text_eq x id then b else q) (c x),
      )
step-Represents (select_interface t) s a (h, i, d, c) =
    rw (sym h, sym i, bool_eq_refl s.enabled)
      (cleared (text_eq s.selected_interface t) s.enabled t s.selected a.chosen d c)
step-Represents (set_enabled b) s a (h, i, d, c) =
    rw (sym h, sym i, text_eq_refl s.selected_interface, opened s.enabled b)
      (cleared (bool_eq s.enabled b && true) b s.selected_interface s.selected a.chosen d c)

steps-Represents :
    (es : List Event) (s : PeersSync) (a : Choice)
    → Represents s a
    → Represents (peers_sync_steps es s) (choose_all es a)
unfolding peers_sync_steps choose_all
steps-Represents [] s a h = h
steps-Represents (e ∷ es) s a h =
    steps-Represents es (peers_sync_step e s) (choose e a) (step-Represents e s a h)

pub steps-Distinct : (es : List Event) → Distinct (peers_sync_steps es closed).selected
unfolding Distinct checked_ids
steps-Distinct es =
    (steps-Represents es closed
      (record { is_open = false; interface = codes "all"; chosen = nothing })
      (refl, refl, tt, λ y. refl)).2

-- After any events from the closed dialog on, the identifiers that would be submitted are those
-- that are chosen: a checkbox adds or removes its own and leaves the others, and opening the dialog
-- or taking another interface while it is open leaves none.
pub peers_sync_steps-chosen :
    (es : List Event) (x : Text)
    → has x (checked_ids (peers_sync_steps es closed).selected)
      ≡ (choose_all es
            (record { is_open = false; interface = codes "all"; chosen = nothing })).chosen
          x
unfolding Distinct checked_ids
peers_sync_steps-chosen es x =
    (steps-Represents es closed
        (record { is_open = false; interface = codes "all"; chosen = nothing })
        (refl, refl, tt, λ y. refl)).3
      x
