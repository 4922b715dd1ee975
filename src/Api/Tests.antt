-- ===== src/Api/Tests.antt =====
-- The calls at concrete data, with a validator that meets the assumptions.
use wgpanelne.Prelude.{ℕ, ◌≡◌, refl, none, some}
use wgpanelne.Js.Strings.{codes}
use wgpanelne.Auth.Errors.{resolved}
use wgpanelne.Zod.Values.{Value, null, num, str, obj, end, field, get_field}
use wgpanelne.Zod.Reference.{reference, parse}
use wgpanelne.Prelude.Int.{pos}
use wgpanelne.Schema.Peers.{create_peer_schema}
use wgpanelne.Api.Client.{Backend}
use wgpanelne.Api.Peers.{create_peer, fetch_peers_list, fetch_sync_peers}
use wgpanelne.Api.Interfaces.{fetch_interfaces_list, fetch_sync_interfaces}
use wgpanelne.Api.IpPool.{fetch_ip_pools_list}
use wgpanelne.Api.Servers.{fetch_servers_list}
use wgpanelne.Api.Creating.{AtMostOne}
use wgpanelne.Api.Created.{IsPeerCreation, create_peer-AtMostOne}
use wgpanelne.Schema.Peers.{peers_response_schema}
use wgpanelne.Schema.Interfaces.{interfaces_response_schema}
use wgpanelne.Schema.IpPool.{ip_pools_response_schema}
use wgpanelne.Schema.Servers.{servers_response_schema}
use wgpanelne.Schema.Sync.{sync_peers_response_schema, sync_interfaces_response_schema}
use wgpanelne.Api.Lists.{EndsInArray, list_calls-EndsInArray}

-- A backend that answers every request with no data.
abbrev answers_nothing : Backend
answers_nothing r = resolved (
    obj (
      field (codes "statusCode") (num (pos 200))
        (field (codes "status") (str (codes "success")) (field (codes "data") null end))))

abbrev new_peer : Value
new_peer = obj (
    field (codes "name") (str (codes "phone")) (
      field (codes "interface_id") (num (pos 1)) (
        field (codes "private_key") (str (codes "a")) (
          field (codes "public_key") (str (codes "b")) (
            field (codes "allowed_address") (str (codes "10.0.0.2/32"))
              (field (codes "endpoint") (str (codes "vpn.example")) end))))))

create_peer-AtMostOne_example :
    AtMostOne IsPeerCreation (create_peer reference new_peer answers_nothing).0
create_peer-AtMostOne_example = create_peer-AtMostOne reference new_peer answers_nothing

refused_empty : reference.parse create_peer_schema (some (obj end)) ≡ none
unfolding parse get_field
refused_empty = refl

list_calls-EndsInArray_example :
    EndsInArray reference peers_response_schema answers_nothing
      (fetch_peers_list reference answers_nothing)
    × EndsInArray reference interfaces_response_schema answers_nothing
        (fetch_interfaces_list reference answers_nothing)
    × EndsInArray reference ip_pools_response_schema answers_nothing
        (fetch_ip_pools_list reference answers_nothing)
    × EndsInArray reference servers_response_schema answers_nothing
        (fetch_servers_list reference answers_nothing)
    × EndsInArray reference sync_peers_response_schema answers_nothing
        (fetch_sync_peers reference none answers_nothing)
    × EndsInArray reference sync_interfaces_response_schema answers_nothing
        (fetch_sync_interfaces reference answers_nothing)
list_calls-EndsInArray_example = list_calls-EndsInArray reference answers_nothing none

abbrev peer_number : ℕ
peer_number = 12
