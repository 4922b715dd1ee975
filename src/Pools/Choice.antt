-- ===== src/Pools/Choice.antt =====
-- ui/src/features/ip-pools/components/pool-form.tsx: the interface of an address pool.
use wgpanelne.Prelude.{
  ℕ, ◌≡◌, refl, ap, ◌∙◌, Bool, true, false, Option, none, some, List, [], ◌∷◌, Among, first, later,
}
use wgpanelne.Js.Strings.{Text}
use wgpanelne.Js.Decimal.{to_string}
use wgpanelne.Zod.Values.{Fields, end}
use wgpanelne.Forms.NewPeer.{InterfaceEntry}
use wgpanelne.Forms.Select.{
  SelectItem, item_of, interface_items, select_items, find_option, chosen_id, on_value_change,
  select_value, IsFound, missing, found, find_option-IsFound,
}

-- The form: the interface, its other fields, and the query of the interfaces, whose list is `[]`
-- while there is no answer.
pub record PoolForm : Type 0 where
  pub interface_id : Option ℕ
  pub others : Fields
  pub interfaces_list : List InterfaceEntry
  pub is_loading : Bool
  pub error : Bool

-- An answer that is equal to the last one keeps the list, so that no effect runs; it is no event.
pub data PoolEvent : Type 0 where
  interfaces_arrive : List InterfaceEntry → PoolEvent
  interfaces_fail : PoolEvent
  choose : Text → PoolEvent
  type_other : Fields → PoolEvent

-- The effect of the list.
unfoldable pub default_interface : Bool → PoolForm → PoolForm
default_interface true s = s
default_interface false s = elim s.is_loading [
  | true ↦ s
  | false ↦ elim s.interfaces_list [ [] ↦ s | o ∷ os ↦ record s { interface_id = some o.id } ]
]

unfoldable pub pool_form_step : Bool → PoolEvent → PoolForm → PoolForm
unfolding default_interface on_value_change
pool_form_step is_edit (interfaces_arrive os) s =
    default_interface is_edit (record s { interfaces_list = os; is_loading = false; error = false })
pool_form_step is_edit interfaces_fail s =
    let failed = record s { is_loading = false; error = true } in
    elim s.is_loading [ true ↦ default_interface is_edit failed | false ↦ failed ]
pool_form_step is_edit (choose t) s = record s {
  interface_id = on_value_change s.interfaces_list t s.interface_id;
}
pool_form_step is_edit (type_other fs) s = record s { others = fs }

unfoldable pub pool_form_steps : Bool → List PoolEvent → PoolForm → PoolForm
pool_form_steps is_edit [] s = s
pool_form_steps is_edit (e ∷ es) s = pool_form_steps is_edit es (pool_form_step is_edit e s)

-- The form of a new pool before the interfaces arrive.
abbrev pub new_pool : PoolForm
new_pool = record {
  interface_id = none;
  others = end;
  interfaces_list = [];
  is_loading = true;
  error = false;
}

-- The interface of the field is one of the list.
data IsListed (os : List InterfaceEntry) : Option ℕ → Type 0 where
  nothing_listed : (value : Option ℕ) → os ≡ [] → IsListed os value
  listed : (o : InterfaceEntry) → Among o os → IsListed os (some o.id)

abbrev IsListedIn : PoolForm → Type 0
IsListedIn s = IsListed s.interfaces_list s.interface_id

chosen_id-IsListed :
    (t : Text) (os : List InterfaceEntry) (value : Option ℕ) (r : Option InterfaceEntry)
    → IsFound t os r
    → IsListed os value
    → IsListed os (chosen_id value r)
chosen_id-IsListed t os value _ missing h = h
chosen_id-IsListed t os value _ (found o i e) h = listed o i

default_interface-IsListed :
    (value : Option ℕ) (fs : Fields) (os : List InterfaceEntry) (error : Bool)
    → IsListedIn (
        default_interface false (record {
          interface_id = value;
          others = fs;
          interfaces_list = os;
          is_loading = false;
          error = error;
        }))
unfolding default_interface
default_interface-IsListed value fs [] error = nothing_listed value refl
default_interface-IsListed value fs (o ∷ os) error = listed o (first os)

step-IsListed :
    (e : PoolEvent) (s : PoolForm) → IsListedIn s → IsListedIn (pool_form_step false e s)
unfolding pool_form_step on_value_change
step-IsListed (interfaces_arrive os) s h =
    default_interface-IsListed s.interface_id s.others os false
step-IsListed interfaces_fail s h = failed s.is_loading
  where
    failed :
        (b : Bool)
        → IsListedIn (elim b [
          | true ↦ default_interface false (record s { is_loading = false; error = true })
          | false ↦ record s { is_loading = false; error = true }
        ])
    failed true = default_interface-IsListed s.interface_id s.others s.interfaces_list true
    failed false = h
step-IsListed (choose t) s h =
    chosen_id-IsListed t s.interfaces_list s.interface_id (find_option t s.interfaces_list)
      (find_option-IsFound t s.interfaces_list) h
step-IsListed (type_other fs) s h = h

steps-IsListed :
    (es : List PoolEvent) (s : PoolForm) → IsListedIn s → IsListedIn (pool_form_steps false es s)
unfolding pool_form_steps
steps-IsListed [] s h = h
steps-IsListed (e ∷ es) s h = steps-IsListed es (pool_form_step false e s) (step-IsListed e s h)

-- What the select draws for a form, and the text of the item that it marks.
abbrev pub drawn_items : PoolForm → List SelectItem
drawn_items s = select_items s.is_loading s.error s.interfaces_list

-- The select marks one of its items, which is the item of an interface.
pub data ShowsItem (s : PoolForm) : Type 0 where
  no_interfaces : s.interfaces_list ≡ [] → ShowsItem s
  shows :
      (o : InterfaceEntry)
      → Among (item_of o) (drawn_items s)
      → select_value s.interface_id ≡ some (to_string o.id)
      → ShowsItem s

item_of-Among :
    (o : InterfaceEntry) (os : List InterfaceEntry)
    → Among o os
    → Among (item_of o) (interface_items os)
item_of-Among o [] i = elim i [ ]
item_of-Among _ (o ∷ os) (first _) = first (interface_items os)
item_of-Among o (p ∷ os) (later _ i) = later (item_of p) (item_of-Among o os i)

shown :
    (s : PoolForm) (os : List InterfaceEntry) (value : Option ℕ)
    → s.interfaces_list ≡ os
    → s.interface_id ≡ value
    → s.is_loading ≡ false
    → s.error ≡ false
    → IsListed os value
    → ShowsItem s
unfolding select_items
shown s os value eo ev hl he (nothing_listed _ h) = no_interfaces (eo ∙ h)
shown s [] _ eo ev hl he (listed o i) = elim i [ ]
shown s (p ∷ os) _ eo ev hl he (listed o i) =
    shows o (rw (hl, he, eo) (item_of-Among o (p ∷ os) i)) (ap select_value ev)

-- In the form of a new pool, after any events: if the list of interfaces is there and its last
-- request did not fail, then the select marks the item of one of its interfaces, whichever was
-- chosen before and whichever are gone, unless there are no interfaces.
pub pool_form_steps-ShowsItem :
    (es : List PoolEvent)
    → (pool_form_steps false es new_pool).is_loading ≡ false
    → (pool_form_steps false es new_pool).error ≡ false
    → ShowsItem (pool_form_steps false es new_pool)
pool_form_steps-ShowsItem es hl he =
    let s = pool_form_steps false es new_pool in
    shown s s.interfaces_list s.interface_id refl refl hl he
      (steps-IsListed es new_pool (nothing_listed none refl))
