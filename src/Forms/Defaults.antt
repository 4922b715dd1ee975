-- ===== src/Forms/Defaults.antt =====
-- The defaults of a new peer are set once, in whatever order the lists arrive.
use wgpanelne.Prelude.{
  ℕ, ◌≡◌, refl, sym, ap, ◌∙◌, Bool, true, false, ◌||◌, ◌⊎◌, inl, inr, some, List, [], ◌∷◌, ◌==◌,
  if◌then◌else◌, get_elem?, All, Bool-cases, arith, ==_iff,
}
use wgpanelne.Js.Strings.{Text}
use wgpanelne.Forms.NewPeer.{
  InterfaceEntry, PeerForm, Event, interfaces_arrive, servers_arrive, credentials_arrive,
  address_arrives, choose_interface, type_endpoint, set_defaults, ask_address, arrived,
  peer_form_step, peer_form_steps, blank, defaults_from,
}

-- A list arrives.
abbrev pub IsArrival : Event → Type 0
IsArrival (interfaces_arrive is) = Unit
IsArrival (servers_arrive ss) = Unit
IsArrival _ = ⊥

set_defaults_stop :
    (is_edit : Bool) (s : PeerForm)
    → (is_edit || s.has_set_defaults) ≡ true
    → set_defaults is_edit s ≡ s
unfolding set_defaults
set_defaults_stop is_edit s h = rw h refl

ask_address_same :
    (is_edit : Bool) (n : ℕ) (s : PeerForm)
    → s.fields.interface_id ≡ n
    → ask_address is_edit n s ≡ s
unfolding ask_address
ask_address_same is_edit n s h = ground (arith, h)

step-arrived :
    (is_edit : Bool) (e : Event) (s : PeerForm)
    → (is_edit || (arrived e s).has_set_defaults) ≡ true
    → (arrived e s).fields.interface_id ≡ s.fields.interface_id
    → peer_form_step is_edit e s ≡ arrived e s
unfolding peer_form_step
step-arrived is_edit e s h same =
    ap (ask_address is_edit s.fields.interface_id) (set_defaults_stop is_edit (arrived e s) h)
    ∙ ask_address_same is_edit s.fields.interface_id (arrived e s) same

-- What holds from the state after the first event on.
carry :
    (is_edit : Bool) (es : List Event) (s : PeerForm) {t u : PeerForm}
    → t ≡ u
    → ((peer_form_steps is_edit es u).fields ≡ s.fields)
      × ((peer_form_steps is_edit es u).asked_for ≡ s.asked_for)
    → ((peer_form_steps is_edit es t).fields ≡ s.fields)
      × ((peer_form_steps is_edit es t).asked_for ≡ s.asked_for)
carry is_edit es s e (f, a) = (
  ap (λ v. (peer_form_steps is_edit es v).fields) e ∙ f,
  ap (λ v. (peer_form_steps is_edit es v).asked_for) e ∙ a,
)

steps-fields :
    (is_edit : Bool) (es : List Event) (s : PeerForm)
    → All IsArrival es
    → (is_edit || s.has_set_defaults) ≡ true
    → ((peer_form_steps is_edit es s).fields ≡ s.fields)
      × ((peer_form_steps is_edit es s).asked_for ≡ s.asked_for)
unfolding peer_form_steps
steps-fields is_edit [] s _ h = (refl, refl)
steps-fields is_edit (interfaces_arrive is ∷ es) s (_, later) h =
    carry is_edit es s (step-arrived is_edit (interfaces_arrive is) s h refl)
      (steps-fields is_edit es (arrived (interfaces_arrive is) s) later h)
steps-fields is_edit (servers_arrive ss ∷ es) s (_, later) h =
    carry is_edit es s (step-arrived is_edit (servers_arrive ss) s h refl)
      (steps-fields is_edit es (arrived (servers_arrive ss) s) later h)
steps-fields is_edit (_ ∷ es) s (never, later) h = absurd never

-- Once the defaults are set, and always when a peer is edited, lists that arrive again change no
-- field of the form, so they do not undo what the user chose, and no address is asked for.
pub defaults_once :
    (is_edit : Bool) (es : List Event) (s : PeerForm)
    → All IsArrival es
    → (is_edit ≡ true) ⊎ (s.has_set_defaults ≡ true)
    → ((peer_form_steps is_edit es s).fields ≡ s.fields)
      × ((peer_form_steps is_edit es s).asked_for ≡ s.asked_for)
defaults_once is_edit es s arrivals (inl h) = steps-fields is_edit es s arrivals (ground (arith, h))
defaults_once is_edit es s arrivals (inr h) = steps-fields is_edit es s arrivals (ground (arith, h))

-- From the blank form on, the same form results whichever list arrives first.
arrivals_commute :
    (is_edit : Bool) (is : List InterfaceEntry) (ss : List Text)
    → peer_form_steps is_edit (interfaces_arrive is ∷ servers_arrive ss ∷ []) blank
      ≡ peer_form_steps is_edit (servers_arrive ss ∷ interfaces_arrive is ∷ []) blank
unfolding peer_form_steps peer_form_step set_defaults ask_address
arrivals_commute true is ss = refl
arrivals_commute false [] [] = refl
arrivals_commute false [] (t ∷ ss) = refl
arrivals_commute false (i ∷ is) [] = refl
arrivals_commute false (i ∷ is) (t ∷ ss) = refl

-- No interface is set, or the last address was asked for the interface that is set.
abbrev pub IsAsked : PeerForm → Type 0
IsAsked s = (s.fields.interface_id ≡ 0) ⊎ (get_elem? s.asked_for 0 ≡ some s.fields.interface_id)

ask_address-IsAsked :
    (before : ℕ) (s : PeerForm)
    → (before ≡ 0) ⊎ (get_elem? s.asked_for 0 ≡ some before)
    → IsAsked (ask_address false before s)
unfolding ask_address
ask_address-IsAsked before s h = elim (Bool-cases (s.fields.interface_id == 0)) [
  | inl zero_id ↦ rw zero_id (inl ((==_iff s.fields.interface_id 0).0 zero_id))
  | inr set ↦ elim (Bool-cases (s.fields.interface_id == before)) [
    | inl same ↦ rw (set, same) (unchanged set ((==_iff s.fields.interface_id before).0 same) h)
    | inr other ↦ rw (set, other) (inr refl)
  ]
]
  where
    unchanged :
        (s.fields.interface_id == 0) ≡ false
        → s.fields.interface_id ≡ before
        → (before ≡ 0) ⊎ (get_elem? s.asked_for 0 ≡ some before)
        → IsAsked s
    unchanged set same (inl none_before) = inl (same ∙ none_before)
    unchanged set same (inr last) = inr (last ∙ ap some (sym same))

defaults_from-asked_for :
    (is : List InterfaceEntry) (ss : List Text) (s : PeerForm)
    → (defaults_from is ss s).asked_for ≡ s.asked_for
defaults_from-asked_for [] ss s = refl
defaults_from-asked_for (i ∷ is) [] s = refl
defaults_from-asked_for (i ∷ is) (t ∷ ss) s = refl

either-asked_for :
    (b : Bool) (s t : PeerForm)
    → t.asked_for ≡ s.asked_for
    → (if b then s else t).asked_for ≡ s.asked_for
either-asked_for true s t h = refl
either-asked_for false s t h = h

set_defaults-asked_for : (s : PeerForm) → (set_defaults false s).asked_for ≡ s.asked_for
unfolding set_defaults
set_defaults-asked_for s =
    either-asked_for s.has_set_defaults s _
      (defaults_from-asked_for s.interfaces_list s.servers_list s)

arrived-asked_for : (e : Event) (s : PeerForm) → (arrived e s).asked_for ≡ s.asked_for
arrived-asked_for (interfaces_arrive is) s = refl
arrived-asked_for (servers_arrive ss) s = refl
arrived-asked_for (credentials_arrive private public) s = refl
arrived-asked_for (address_arrives t) s = refl
arrived-asked_for (choose_interface i) s = refl
arrived-asked_for (type_endpoint t) s = refl

step-IsAsked : (e : Event) (s : PeerForm) → IsAsked s → IsAsked (peer_form_step false e s)
unfolding peer_form_step
step-IsAsked e s h =
    ask_address-IsAsked s.fields.interface_id (set_defaults false (arrived e s))
      (rw (set_defaults-asked_for (arrived e s), arrived-asked_for e s) h)

steps-IsAsked_from :
    (es : List Event) (s : PeerForm) → IsAsked s → IsAsked (peer_form_steps false es s)
unfolding peer_form_steps
steps-IsAsked_from [] s h = h
steps-IsAsked_from (e ∷ es) s h =
    steps-IsAsked_from es (peer_form_step false e s) (step-IsAsked e s h)

-- In the form of a new peer, after any events, the last address that was asked for is that of the
-- interface that the form holds, if it holds one.
pub steps-IsAsked : (es : List Event) → IsAsked (peer_form_steps false es blank)
steps-IsAsked es = steps-IsAsked_from es blank (inl refl)
