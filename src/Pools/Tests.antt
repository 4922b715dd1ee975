-- ===== src/Pools/Tests.antt =====
-- The form of an address pool at concrete data.

use wgpanelne.Js.Strings.{codes}
use wgpanelne.Zod.Values.{str, end, field}
use wgpanelne.Pools.{PoolValues}
use wgpanelne.Prelude.{List, [], ◌∷◌, ◌≡◌, refl, false, some}
use wgpanelne.Js.Strings.{text_eq}
use wgpanelne.Js.Decimal.{digits, to_string}
use wgpanelne.Forms.NewPeer.{InterfaceEntry}
use wgpanelne.Forms.Select.{on_value_change, find_option}
use wgpanelne.Pools.Choice.{
  PoolEvent, interfaces_arrive, interfaces_fail, choose, default_interface, pool_form_step,
  pool_form_steps, new_pool, ShowsItem, pool_form_steps-ShowsItem,
}

abbrev office : PoolValues
office = record {
  id = 2;
  start_ip = codes "10.0.0.2";
  end_ip = codes "10.0.0.9/32";
  fields = field (codes "name") (str (codes "office")) (
      field (codes "start_ip") (str (codes "10.0.0.2"))
        (field (codes "end_ip") (str (codes "10.0.0.9/32")) end));
}

abbrev wg0 : InterfaceEntry
wg0 = record { id = 3; name = codes "wg0" }

abbrev wg1 : InterfaceEntry
wg1 = record { id = 4; name = codes "wg1" }

-- The second interface is chosen, and the list arrives anew.
abbrev events : List PoolEvent
events =
    interfaces_fail
    ∷ interfaces_arrive (wg0 ∷ wg1 ∷ [])
    ∷ choose (codes "4")
    ∷ interfaces_arrive (wg0 ∷ wg1 ∷ wg1 ∷ [])
    ∷ []

-- The choice of the user is lost.
events_end :
    ((pool_form_steps false
        (interfaces_arrive (wg0 ∷ wg1 ∷ []) ∷ choose (codes "4") ∷ [])
        new_pool).interface_id
      ≡ some 4)
    × ((pool_form_steps false events new_pool).interface_id ≡ some 3)
unfolding pool_form_steps pool_form_step default_interface on_value_change find_option to_string
    digits text_eq
events_end = (refl, refl)

pool_form_steps-ShowsItem_example : ShowsItem (pool_form_steps false events new_pool)
unfolding pool_form_steps pool_form_step default_interface on_value_change find_option to_string
    digits text_eq
pool_form_steps-ShowsItem_example = pool_form_steps-ShowsItem events refl refl
