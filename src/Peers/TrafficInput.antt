-- ===== src/Peers/TrafficInput.antt =====
-- ui/src/features/peers/components/fields/taffic-limit-field.tsx: the field of the traffic limit.
use wgpanelne.Prelude.{
  ◌≡◌, refl, ◌∙◌, Bool, true, false, Option, none, some, List, [], ◌∷◌, if◌then◌else◌, Bool-cases,
  inl, inr,
}
use wgpanelne.Js.Strings.{Text, truthy, text_eq, text_eq_iff}

-- The text that is shown, and the field of the form by its `toString()`; null and `undefined` are
-- `none`.
pub record TrafficInput : Type 0 where
  pub raw_value : Text
  pub traffic_limit : Option Text

abbrev pub shown_limit : Option Text → Text
shown_limit none = []
shown_limit (some t) = t

abbrev pub same_limit : Option Text → Option Text → Bool
same_limit none none = true
same_limit (some s) (some t) = text_eq s t
same_limit _ _ = false

-- The effect of `[trafficLimit]`, which runs when the field is another one than `before`.
unfoldable pub show_limit : Option Text → TrafficInput → TrafficInput
show_limit before s =
    if same_limit before s.traffic_limit
    then s
    else record s { raw_value = shown_limit s.traffic_limit }

-- The user types or clears the field, or the form is reset to a stored limit.
pub data TrafficEvent : Type 0 where
  type_limit : Text → TrafficEvent
  clear_limit : TrafficEvent
  reset_limit : Option Text → TrafficEvent

abbrev pub limit_changed : TrafficEvent → TrafficInput → TrafficInput
limit_changed (type_limit val) s = record {
  raw_value = val;
  traffic_limit = if truthy val then some val else none;
}
limit_changed clear_limit s = record { raw_value = []; traffic_limit = none }
limit_changed (reset_limit limit) s = record s { traffic_limit = limit }

unfoldable pub traffic_step : TrafficEvent → TrafficInput → TrafficInput
unfolding show_limit
traffic_step e s = show_limit s.traffic_limit (limit_changed e s)

unfoldable pub traffic_steps : List TrafficEvent → TrafficInput → TrafficInput
traffic_steps [] s = s
traffic_steps (e ∷ es) s = traffic_steps es (traffic_step e s)

-- The button that clears is drawn.
abbrev pub can_clear : TrafficInput → Bool
can_clear s = truthy s.raw_value

same_limit-shown : (a b : Option Text) → same_limit a b ≡ true → shown_limit a ≡ shown_limit b
same_limit-shown none none h = refl
same_limit-shown none (some t) h = cc
same_limit-shown (some s) none h = cc
same_limit-shown (some s) (some t) h = (text_eq_iff s t).0 h

shown :
    (before : Option Text) (s : TrafficInput)
    → (same_limit before s.traffic_limit ≡ true → s.raw_value ≡ shown_limit s.traffic_limit)
    → (show_limit before s).raw_value ≡ shown_limit (show_limit before s).traffic_limit
unfolding show_limit
shown before s h = elim (Bool-cases (same_limit before s.traffic_limit)) [
  | inl same ↦ rw same (h same)
  | inr other ↦ rw other refl
]

typed : (val : Text) → val ≡ shown_limit (if truthy val then some val else none)
typed [] = refl
typed (c ∷ val) = refl

step-shown :
    (e : TrafficEvent) (s : TrafficInput)
    → s.raw_value ≡ shown_limit s.traffic_limit
    → (traffic_step e s).raw_value ≡ shown_limit (traffic_step e s).traffic_limit
unfolding traffic_step
step-shown (type_limit val) s h =
    shown s.traffic_limit (limit_changed (type_limit val) s) (λ _. typed val)
step-shown clear_limit s h = shown s.traffic_limit (limit_changed clear_limit s) (λ _. refl)
step-shown (reset_limit limit) s h =
    shown s.traffic_limit (limit_changed (reset_limit limit) s)
      (λ same. h ∙ same_limit-shown s.traffic_limit limit same)

-- The text that is shown is the field's after any events, if it is at first, and empty where the
-- field is null.
traffic_steps-shown :
    (es : List TrafficEvent) (s : TrafficInput)
    → s.raw_value ≡ shown_limit s.traffic_limit
    → (traffic_steps es s).raw_value ≡ shown_limit (traffic_steps es s).traffic_limit
unfolding traffic_steps
traffic_steps-shown [] s h = h
traffic_steps-shown (e ∷ es) s h = traffic_steps-shown es (traffic_step e s) (step-shown e s h)
