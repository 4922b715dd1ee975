-- ===== src/Forms/NewPeer.antt =====
-- ui/src/features/peers/components/peer-form/use-peer-defaults.tsx and the effects of
-- ui/src/features/peers/components/peer-form/use-peer-form.tsx: what fills the form of a new peer
-- while the lists, the keys and the address arrive. A list that is not there yet is empty, as in
-- the source, which asks for both lists to have an entry.
use wgpanelne.Prelude.{ℕ, Bool, true, false, ◌||◌, List, [], ◌∷◌, ◌==◌, if◌then◌else◌}
use wgpanelne.Js.Strings.{Text, codes}

-- An entry of `interfacesList`, and the address of an entry of `serversList`.
pub record InterfaceEntry : Type 0 where
  pub id : ℕ
  pub name : Text

-- The fields that the hooks fill; 0 is an `interface_id` that is not set.
pub record PeerFields : Type 0 where
  pub interface_name : Text
  pub interface_id : ℕ
  pub endpoint : Text
  pub persistent_keepalive : Text
  pub allowed_address : Text
  pub private_key : Text
  pub public_key : Text

-- `asked_for` are the interfaces that an address was asked for, the last one first.
pub record PeerForm : Type 0 where
  pub fields : PeerFields
  pub interfaces_list : List InterfaceEntry
  pub servers_list : List Text
  pub has_set_defaults : Bool
  pub is_defaults_ready : Bool
  pub asked_for : List ℕ

pub data Event : Type 0 where
  interfaces_arrive : List InterfaceEntry → Event
  servers_arrive : List Text → Event
  credentials_arrive : Text → Text → Event
  address_arrives : Text → Event
  choose_interface : InterfaceEntry → Event
  type_endpoint : Text → Event

abbrev with_defaults : InterfaceEntry → Text → PeerForm → PeerForm
with_defaults i ip_address s = record s {
  fields = record s.fields {
    interface_name = i.name;
    interface_id = i.id;
    endpoint = ip_address;
    persistent_keepalive = codes "00:00:25";
  };
  has_set_defaults = true;
}

abbrev pub defaults_from : List InterfaceEntry → List Text → PeerForm → PeerForm
defaults_from [] servers s = s
defaults_from (i ∷ is) [] s = s
defaults_from (i ∷ is) (ip_address ∷ servers) s = with_defaults i ip_address s

-- The effect that sets the defaults.
unfoldable pub set_defaults : Bool → PeerForm → PeerForm
set_defaults is_edit s =
    if is_edit || s.has_set_defaults then s else defaults_from s.interfaces_list s.servers_list s

-- The effect on `interfaceId`, which runs when it is another one than before.
unfoldable pub ask_address : Bool → ℕ → PeerForm → PeerForm
ask_address is_edit before s =
    if is_edit || s.fields.interface_id == 0 || s.fields.interface_id == before
    then s
    else record s { asked_for = s.fields.interface_id ∷ s.asked_for }

abbrev pub arrived : Event → PeerForm → PeerForm
arrived (interfaces_arrive is) s = record s { interfaces_list = is }
arrived (servers_arrive ss) s = record s { servers_list = ss }
arrived (credentials_arrive private public) s = record s {
  fields = record s.fields { private_key = private; public_key = public };
  is_defaults_ready = true;
}
arrived (address_arrives t) s = record s { fields = record s.fields { allowed_address = t } }
arrived (choose_interface i) s = record s { fields = record s.fields { interface_id = i.id } }
arrived (type_endpoint t) s = record s { fields = record s.fields { endpoint = t } }

unfoldable pub peer_form_step : Bool → Event → PeerForm → PeerForm
unfolding set_defaults ask_address
peer_form_step is_edit e s =
    ask_address is_edit s.fields.interface_id (set_defaults is_edit (arrived e s))

unfoldable pub peer_form_steps : Bool → List Event → PeerForm → PeerForm
peer_form_steps is_edit [] s = s
peer_form_steps is_edit (e ∷ es) s = peer_form_steps is_edit es (peer_form_step is_edit e s)

abbrev pub blank : PeerForm
blank = record {
  fields = record {
    interface_name = [];
    interface_id = 0;
    endpoint = [];
    persistent_keepalive = [];
    allowed_address = [];
    private_key = [];
    public_key = [];
  };
  interfaces_list = [];
  servers_list = [];
  has_set_defaults = false;
  is_defaults_ready = false;
  asked_for = [];
}
