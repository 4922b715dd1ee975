-- ===== src/Forms/Drawn.antt =====
-- The fields that the forms of ui/src/features draw, next to the schemas that their values go through.
use wgpanelne.Prelude.{◌≡◌, refl, Bool, true, false, ◌||◌, List, [], ◌∷◌, ◌++◌, if◌then◌else◌}
use wgpanelne.Js.Strings.{Text, codes, text_eq}
use wgpanelne.Tables.Filters.{has}
use wgpanelne.Zod.Syntax.{
  Schema, optional, nullable, default_bool, object, Shape, done, entry, names,
}
use wgpanelne.Schema.Servers.{create_server_schema, update_server_schema}
use wgpanelne.Schema.Interfaces.{create_interface_schema, update_interface_schema}
use wgpanelne.Schema.IpPool.{create_ip_pool_schema, update_ip_pool_schema}
use wgpanelne.Schema.Peers.{create_peer_schema, update_peer_schema}

-- A field by its name and its label.
abbrev pub DrawnField : Type 0
DrawnField = Text × Text

-- `simpleFormFields`, and the fields below them.
abbrev pub simple_form_fields : List DrawnField
simple_form_fields =
    (codes "name", codes "Name")
    ∷ (codes "comment", codes "Comment")
    ∷ (codes "ip_address", codes "IP Address")
    ∷ (codes "api_port", codes "API Port")
    ∷ []

abbrev pub server_form_fields : List DrawnField
server_form_fields =
    simple_form_fields
    ++ (codes "username", codes "Username")
      ∷ (codes "password", codes "Password")
      ∷ (codes "is_ssl", codes "Use SSL/TLS")
      ∷ []

abbrev pub interface_form_fields : List DrawnField
interface_form_fields =
    (codes "comment", codes "Comment")
    ∷ (codes "name", codes "Name")
    ∷ (codes "listen_port", codes "API Port")
    ∷ []

abbrev pub pool_form_fields : List DrawnField
pool_form_fields =
    (codes "name", codes "Name")
    ∷ (codes "interface_id", codes "Interface")
    ∷ (codes "start_ip", codes "Start IP Address")
    ∷ (codes "end_ip", codes "End IP Address")
    ∷ []

-- What is drawn for a new peer only.
abbrev pub new_peer_fields : List DrawnField
new_peer_fields =
    (codes "interface_id", codes "Interface")
    ∷ (codes "endpoint", codes "Endpoint")
    ∷ (codes "private_key", codes "Private Key")
    ∷ (codes "public_key", codes "Public Key")
    ∷ []

abbrev pub peer_form_fields : Bool → List DrawnField
peer_form_fields is_edit =
    (codes "name", codes "Name")
      ∷ (codes "comment", codes "Comment")
      ∷ (if is_edit then [] else new_peer_fields)
    ++ (codes "allowed_address", codes "Allowed Address")
      ∷ (codes "persistent_keepalive", codes "Persistent Keepalive")
      ∷ (codes "traffic_limit", codes "Traffic Limit")
      ∷ (codes "expire_time", codes "Expire Time")
      ∷ (codes "download_bandwidth", codes "Download Bandwidth")
      ∷ (codes "upload_bandwidth", codes "Upload Bandwidth")
      ∷ []

-- The fields that the schema does not name: zod drops their values.
dropped_by : List DrawnField → List Text → List Text
dropped_by [] ns = []
dropped_by ((n, l) ∷ fs) ns = let rest = dropped_by fs ns in if has n ns then rest else n ∷ rest

dropped : List DrawnField → Schema → List Text
unfolding dropped_by
dropped fields (object sh) = dropped_by fields (names sh)
dropped fields _ = []

may_miss : Schema → Bool
may_miss (optional s) = true
may_miss (nullable s) = may_miss s
may_miss (default_bool b s) = true
may_miss _ = false

-- Every field that the schema demands, but the identifier, is drawn.
demanded : List DrawnField → Shape → Bool
unfolding may_miss
demanded fields done = true
demanded fields (entry k s sh) =
    let rest = demanded fields sh in
    if may_miss s || text_eq k (codes "id")
    then rest
    else (if has_field fields then rest else false)
  where
    has_field : List DrawnField → Bool
    has_field [] = false
    has_field ((j, l) ∷ fs) = text_eq j k || has_field fs

asked : List DrawnField → Schema → Bool
unfolding demanded
asked fields (object sh) = demanded fields sh
asked fields _ = false

-- The forms that create draw every field that is demanded and only fields that are kept.
new_forms-dropped :
    (dropped server_form_fields create_server_schema ≡ [])
    × (asked server_form_fields create_server_schema ≡ true)
    × (dropped interface_form_fields create_interface_schema ≡ [])
    × (asked interface_form_fields create_interface_schema ≡ true)
    × (dropped pool_form_fields create_ip_pool_schema ≡ [])
    × (asked pool_form_fields create_ip_pool_schema ≡ true)
    × (dropped (peer_form_fields false) create_peer_schema ≡ [])
    × (asked (peer_form_fields false) create_peer_schema ≡ true)
unfolding dropped asked names text_eq
new_forms-dropped = (refl, refl, refl, refl, refl, refl, refl, refl)

-- Of the forms that change something, that of a peer draws only fields that are kept; the others
-- draw one each that is dropped.
edit_forms-dropped :
    (dropped (peer_form_fields true) update_peer_schema ≡ [])
    × (dropped server_form_fields update_server_schema ≡ codes "is_ssl" ∷ [])
    × (dropped interface_form_fields update_interface_schema ≡ codes "listen_port" ∷ [])
    × (dropped pool_form_fields update_ip_pool_schema ≡ codes "interface_id" ∷ [])
unfolding dropped names text_eq
edit_forms-dropped = (refl, refl, refl, refl)
