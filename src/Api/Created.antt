-- ===== src/Api/Created.antt =====
-- What the backend may rely on when something is created: each required field is in the body, as a
-- text that is not empty or an identifier of at least 1.
use wgpanelne.Prelude.{◌≡◌, refl, ap, Option, none, some, []}
use wgpanelne.Js.Strings.{codes, text_eq}
use wgpanelne.Auth.Errors.{object, rejected}
use wgpanelne.Zod.Values.{Value, obj, Fields, get_field}
use wgpanelne.Zod.Interface.{Zod}
use wgpanelne.Zod.Laws.{IsTextOf, IsNumberFrom}
use wgpanelne.Api.Client.{Backend, Request, post, request_with}
use wgpanelne.Api.Creating.{
  AtMostOne, creation-AtMostOne, create-creation, refused_create, body_of, text_field, number_field,
}
use wgpanelne.Schema.Peers.{create_peer_schema, peer_response_schema}
use wgpanelne.Schema.Interfaces.{create_interface_schema, interface_response_schema}
use wgpanelne.Schema.IpPool.{create_ip_pool_schema, ip_pool_response_schema}
use wgpanelne.Schema.Servers.{create_server_schema, server_response_schema}
use wgpanelne.Api.Peers.{create_peer}
use wgpanelne.Api.Interfaces.{create_interface}
use wgpanelne.Api.IpPool.{create_ip_pool}
use wgpanelne.Api.Servers.{create_server}

-- The request that creates a peer: all that the schema requires is there.
abbrev pub IsPeerCreation : Request → Type 0
IsPeerCreation r =
    (gs : Fields) × (r ≡ request_with post (codes "/peer") (some (obj gs)))
    × IsTextOf 1 (get_field (codes "name") gs)
    × IsNumberFrom 1 (get_field (codes "interface_id") gs)
    × IsTextOf 1 (get_field (codes "private_key") gs)
    × IsTextOf 1 (get_field (codes "public_key") gs)
    × IsTextOf 1 (get_field (codes "allowed_address") gs)
    × IsTextOf 1 (get_field (codes "endpoint") gs)

-- The request that creates an interface: all that the schema requires is there.
abbrev pub IsInterfaceCreation : Request → Type 0
IsInterfaceCreation r =
    (gs : Fields) × (r ≡ request_with post (codes "/interface") (some (obj gs)))
    × IsTextOf 1 (get_field (codes "name") gs)
    × IsTextOf 1 (get_field (codes "listen_port") gs)

-- The request that creates an address pool: all that the schema requires is there.
abbrev pub IsPoolCreation : Request → Type 0
IsPoolCreation r =
    (gs : Fields) × (r ≡ request_with post (codes "/ip-pool") (some (obj gs)))
    × IsTextOf 1 (get_field (codes "name") gs)
    × IsNumberFrom 1 (get_field (codes "interface_id") gs)
    × IsTextOf 1 (get_field (codes "start_ip") gs)
    × IsTextOf 1 (get_field (codes "end_ip") gs)

-- The request that creates a server: all that the schema requires is there.
abbrev pub IsServerCreation : Request → Type 0
IsServerCreation r =
    (gs : Fields) × (r ≡ request_with post (codes "/server") (some (obj gs)))
    × IsTextOf 1 (get_field (codes "name") gs)
    × IsTextOf 1 (get_field (codes "ip_address") gs)
    × IsTextOf 1 (get_field (codes "api_port") gs)
    × IsTextOf 1 (get_field (codes "username") gs)
    × IsTextOf 1 (get_field (codes "password") gs)

module _ (z : Zod) where
  peer_body :
      (v : Value) {w : Option Value}
      → z.parse create_peer_schema (some v) ≡ some w
      → IsPeerCreation (request_with post (codes "/peer") w)
  unfolding text_eq
  peer_body v e =
      let text = text_field z _ refl v e 1 in
      let (gs, same) = body_of z _ refl v e in
      (
        gs,
        ap (λ w. request_with post (codes "/peer") w) same,
        text (codes "Name is required") _ refl,
        number_field z _ refl v e 1 (codes "Interface ID is required") _ refl,
        text (codes "Private Key is required") _ refl,
        text (codes "Public Key is required") _ refl,
        text (codes "Allowed Address is required") _ refl,
        text (codes "Endpoint is required") _ refl,
      )

  interface_body :
      (v : Value) {w : Option Value}
      → z.parse create_interface_schema (some v) ≡ some w
      → IsInterfaceCreation (request_with post (codes "/interface") w)
  unfolding text_eq
  interface_body v e =
      let text = text_field z _ refl v e 1 in
      let (gs, same) = body_of z _ refl v e in
      (
        gs,
        ap (λ w. request_with post (codes "/interface") w) same,
        text (codes "Name is required") _ refl,
        text (codes "Listen Port is required") _ refl,
      )

  pool_body :
      (v : Value) {w : Option Value}
      → z.parse create_ip_pool_schema (some v) ≡ some w
      → IsPoolCreation (request_with post (codes "/ip-pool") w)
  unfolding text_eq
  pool_body v e =
      let text = text_field z _ refl v e 1 in
      let (gs, same) = body_of z _ refl v e in
      (
        gs,
        ap (λ w. request_with post (codes "/ip-pool") w) same,
        text (codes "Name is required") _ refl,
        number_field z _ refl v e 1 (codes "Interface ID is required") _ refl,
        text (codes "Start IP is required") _ refl,
        text (codes "End IP is required") _ refl,
      )

  server_body :
      (v : Value) {w : Option Value}
      → z.parse create_server_schema (some v) ≡ some w
      → IsServerCreation (request_with post (codes "/server") w)
  unfolding text_eq
  server_body v e =
      let text = text_field z _ refl v e 1 in
      let (gs, same) = body_of z _ refl v e in
      (
        gs,
        ap (λ w. request_with post (codes "/server") w) same,
        text (codes "Name is required") _ refl,
        text (codes "IP Address is required") _ refl,
        text (codes "Rest API Port is required") _ refl,
        text (codes "Username is required") _ refl,
        text (codes "Password is required") _ refl,
      )

  -- Whatever the form holds and whatever the backend answers, `createPeer` sends at most one
  -- request, and that is a POST to /peer whose body has a name, an interface of identifier 1 or
  -- more, both keys, an address and an endpoint, none of them empty.
  pub create_peer-AtMostOne :
      (v : Value) (backend : Backend) → AtMostOne IsPeerCreation (create_peer z v backend).0
  unfolding create_peer
  create_peer-AtMostOne v backend =
      rw (create-creation z (codes "/peer") create_peer_schema peer_response_schema v backend)
        (creation-AtMostOne IsPeerCreation (codes "/peer") _ (λ w e. peer_body v e))

  create_interface-AtMostOne :
      (v : Value) (backend : Backend)
      → AtMostOne IsInterfaceCreation (create_interface z v backend).0
  unfolding create_interface
  create_interface-AtMostOne v backend =
      rw
        (create-creation z (codes "/interface") create_interface_schema interface_response_schema v
          backend)
        (creation-AtMostOne IsInterfaceCreation (codes "/interface") _ (λ w e. interface_body v e))

  create_ip_pool-AtMostOne :
      (v : Value) (backend : Backend) → AtMostOne IsPoolCreation (create_ip_pool z v backend).0
  unfolding create_ip_pool
  create_ip_pool-AtMostOne v backend =
      rw
        (create-creation z (codes "/ip-pool") create_ip_pool_schema ip_pool_response_schema v
          backend)
        (creation-AtMostOne IsPoolCreation (codes "/ip-pool") _ (λ w e. pool_body v e))

  create_server-AtMostOne :
      (v : Value) (backend : Backend) → AtMostOne IsServerCreation (create_server z v backend).0
  unfolding create_server
  create_server-AtMostOne v backend =
      rw (create-creation z (codes "/server") create_server_schema server_response_schema v backend)
        (creation-AtMostOne IsServerCreation (codes "/server") _ (λ w e. server_body v e))

  -- The creations of interfaces, address pools and servers send at most one request each, a POST to
  -- their own path whose body has every required field, not empty.
  creations-AtMostOne :
      (v : Value) (backend : Backend)
      → AtMostOne IsInterfaceCreation (create_interface z v backend).0
        × AtMostOne IsPoolCreation (create_ip_pool z v backend).0
        × AtMostOne IsServerCreation (create_server z v backend).0
  creations-AtMostOne v backend = (
    create_interface-AtMostOne v backend,
    create_ip_pool-AtMostOne v backend,
    create_server-AtMostOne v backend,
  )

  -- A peer that `CreatePeerSchema` refuses is never sent: the call throws the error of the schema,
  -- and the backend sees no request.
  create_peer_refused :
      (v : Value) (backend : Backend)
      → z.parse create_peer_schema (some v) ≡ none
      → create_peer z v backend ≡ ([], rejected (object none))
  unfolding create_peer
  create_peer_refused v backend h =
      refused_create z (codes "/peer") create_peer_schema peer_response_schema v backend h
