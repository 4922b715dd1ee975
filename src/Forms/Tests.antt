-- ===== src/Forms/Tests.antt =====
-- Runs of the form of a new peer, and the theorems at concrete data.
use wgpanelne.Prelude.{◌≡◌, refl, true, false, inr, none, List, [], ◌∷◌}
use wgpanelne.Js.Strings.{codes, text_eq}
use wgpanelne.Js.Decimal.{digits, to_string}
use wgpanelne.Auth.Errors.{object, rejected}
use wgpanelne.Zod.Values.{end}
use wgpanelne.Zod.Reference.{reference}
use wgpanelne.Api.Client.{Backend}
use wgpanelne.Auth.Jar.{jar_of_entries}
use wgpanelne.Hooks.Cache.{name}
use wgpanelne.Hooks.Reference.{key_client, fresh}
use wgpanelne.Api.Servers.{update_server}
use wgpanelne.Api.Interfaces.{update_interface}
use wgpanelne.Api.Peers.{update_peer}
use wgpanelne.Forms.Submit.{
  FormValues, submit_server, submit_interface, submit_peer, EndsWell, submit-EndsWell,
}
use wgpanelne.Forms.NewPeer.{
  InterfaceEntry, PeerForm, Event, interfaces_arrive, servers_arrive, choose_interface,
  address_arrives, type_endpoint, set_defaults, ask_address, peer_form_step, peer_form_steps, blank,
}
use wgpanelne.Forms.Defaults.{defaults_once, IsAsked, steps-IsAsked}
use wgpanelne.Prelude.{false, some, Among, first, later}
use wgpanelne.Forms.Select.{
  item_of, on_value_change, find_option, select_items, Chooses, select_items-Chooses,
}
use wgpanelne.Prelude.{ℕ, arith}
use wgpanelne.Forms.RandomName.{random_loop, random_name, IsName, random_name-IsName}

abbrev wg0 : InterfaceEntry
wg0 = record { id = 3; name = codes "wg0" }

abbrev wg1 : InterfaceEntry
wg1 = record { id = 4; name = codes "wg1" }

abbrev visit : List Event
visit =
    interfaces_arrive (wg0 ∷ wg1 ∷ [])
    ∷ servers_arrive (codes "10.0.0.1" ∷ [])
    ∷ address_arrives (codes "10.0.0.2/32")
    ∷ choose_interface wg1
    ∷ type_endpoint (codes "vpn.example")
    ∷ []

visit_end : (peer_form_steps false visit blank).asked_for ≡ 4 ∷ 3 ∷ []
unfolding peer_form_steps peer_form_step set_defaults ask_address
visit_end = refl

abbrev chosen : PeerForm
chosen = record blank { has_set_defaults = true; interfaces_list = wg1 ∷ [] }

defaults_once_example :
    ((peer_form_steps false (interfaces_arrive (wg0 ∷ []) ∷ []) chosen).fields ≡ chosen.fields)
    × ((peer_form_steps false (interfaces_arrive (wg0 ∷ []) ∷ []) chosen).asked_for
        ≡ chosen.asked_for)
defaults_once_example =
    defaults_once false (interfaces_arrive (wg0 ∷ []) ∷ []) chosen (tt, tt) (inr refl)

steps-IsAsked_example : IsAsked (peer_form_steps false visit blank)
steps-IsAsked_example = steps-IsAsked visit

abbrev offline : Backend
offline r = rejected (object none)

abbrev home : FormValues
home = record { id = 1; fields = end }

submit-EndsWell_example :
    EndsWell key_client jar_of_entries
      (name (codes "servers_list") ∷ [])
      (codes "Server updated successfully.")
      (update_server reference 1 end offline)
      fresh
      (submit_server key_client jar_of_entries reference true home offline fresh)
    × EndsWell key_client jar_of_entries
        (name (codes "interfaces_list") ∷ [])
        (codes "Interface updated successfully.")
        (update_interface reference 1 end offline)
        fresh
        (submit_interface key_client jar_of_entries reference true home offline fresh)
    × EndsWell key_client jar_of_entries
        (name (codes "peers_list") ∷ [])
        (codes "Peer updated successfully.")
        (update_peer reference 1 end offline)
        fresh
        (submit_peer key_client jar_of_entries reference true home offline fresh)
submit-EndsWell_example =
    submit-EndsWell key_client jar_of_entries reference true home offline fresh

second_item : Among (item_of wg1) (select_items false false (wg0 ∷ wg1 ∷ []))
unfolding select_items
second_item = later (item_of wg0) (first [])

chosen_text : on_value_change (wg0 ∷ wg1 ∷ []) (codes "4") (some 3) ≡ some 4
unfolding on_value_change find_option to_string digits text_eq
chosen_text = refl

select_items-Chooses_example : Chooses (wg0 ∷ wg1 ∷ []) (some 3) (item_of wg1)
select_items-Chooses_example =
    select_items-Chooses false false (wg0 ∷ wg1 ∷ []) (some 3) (item_of wg1) second_item

-- Always the last character.
abbrev last_char : ℕ → ℕ
last_char i = 61

nines : random_name last_char 11 ≡ some (codes "9999999999")
unfolding random_name random_loop
nines = refl

random_name-IsName_example : IsName (random_name last_char 11)
random_name-IsName_example = random_name-IsName last_char 11 (λ i. omega arith) (omega arith)
