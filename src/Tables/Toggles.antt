-- ===== src/Tables/Toggles.antt =====
-- The switches in the first column of ui/src/features/{peers,interfaces,servers}/components/
-- *-columns.tsx: `handleToggle`.
use wgpanelne.Prelude.{
  ℕ, ◌≡◌, refl, ap, Bool, true, false, not, none, List, [], ◌∷◌, ◌++◌, ◌⊎◌, inl, inr, if◌then◌else◌,
}
use wgpanelne.Js.Strings.{Text, codes}
use wgpanelne.Js.Decimal.{to_string}
use wgpanelne.Auth.Cookies.{Cookies}
use wgpanelne.Auth.Errors.{Thrown, Outcome, resolved, rejected, Panel, toast, mutation_on_error}
use wgpanelne.Zod.Values.{Value}
use wgpanelne.Api.Client.{Backend, Request, request, patch, continue_with, return}
use wgpanelne.Api.Peers.{update_peer_status}
use wgpanelne.Api.Interfaces.{update_interface_status}
use wgpanelne.Api.Servers.{update_server_status}
use wgpanelne.Hooks.Cache.{Key, name, QueryClient, mutate, settled, invalidate_all}
use wgpanelne.Hooks.Mutations.{
  use_update_peer_status_mutation, use_update_interface_status_mutation,
  use_update_server_status_mutation,
}
use wgpanelne.Tables.Columns.{Peer, Interface, Server}

pub record Toggled {ℓ} (Cache Screen : Type ℓ) : Type ℓ where
  pub sent : List Request
  pub cache : Cache
  pub panel : Screen

-- What a switch that is on, or off, says once it is used.
abbrev pub message : Text → Bool → Text
message kind checked =
    kind
    ++ codes " "
    ++ (if checked then codes "disabled" else codes "enabled")
    ++ codes " successfully"

module _ (client : QueryClient) (C : Cookies) where
  -- `onSuccess` of one call.
  abbrev pub toast_on_success :
      Text
      → List Request × Outcome (Unit {0}) × client.Cache × Panel C
      → Toggled client.Cache (Panel C)
  toast_on_success t (sent, resolved u, c, p) = record {
    sent = sent;
    cache = c;
    panel = toast C t p;
  }
  toast_on_success t (sent, rejected e, c, p) = record { sent = sent; cache = c; panel = p }

  unfoldable pub toggle_peer :
      Peer → Backend → client.Cache × Panel C → Toggled client.Cache (Panel C)
  toggle_peer p backend s =
      toast_on_success (message (codes "Peer") (not p.disabled))
        (mutate client C use_update_peer_status_mutation p.id backend s)

  unfoldable pub toggle_interface :
      Interface → Backend → client.Cache × Panel C → Toggled client.Cache (Panel C)
  toggle_interface i backend s =
      toast_on_success (message (codes "Interface") (not i.disabled))
        (mutate client C use_update_interface_status_mutation i.id backend s)

  unfoldable pub toggle_server :
      Server → Backend → client.Cache × Panel C → Toggled client.Cache (Panel C)
  toggle_server s backend before =
      toast_on_success (message (codes "Server") s.is_active)
        (mutate client C use_update_server_status_mutation s.id backend before)

  -- One request was sent; if it was accepted, the text is toasted and the keys are invalidated, and if
  -- it was refused, the cache is as before and the client's handler of errors ran.
  abbrev pub TogglesBy :
      Request
      → List Key
      → Text
      → Backend
      → client.Cache × Panel C
      → Toggled client.Cache (Panel C)
      → Type 0
  TogglesBy r ks t backend before u =
      (u.sent ≡ r ∷ [])
      × (((v : Value) × (backend r ≡ resolved v)
            × (u.panel ≡ toast C t before.1)
            × (u.cache ≡ invalidate_all client ks before.0))
          ⊎ ((e : Thrown) × (backend r ≡ rejected e)
              × (u.panel ≡ mutation_on_error C e before.1)
              × (u.cache ≡ before.0)))

  abbrev patched : Text → ℕ → Request
  patched kind id = request patch (kind ++ to_string id ++ codes "/status")

  toggle-TogglesBy :
      (r : Request) (ks : List Key) (t t' : Text) (backend : Backend) (s : client.Cache × Panel C)
      (o : Outcome Value)
      → backend r ≡ o
      → t ≡ t'
      → TogglesBy r ks t' backend s (
          toast_on_success t (
            (continue_with (r ∷ [], o) (λ _. return (tt {0})) backend).0,
            (continue_with (r ∷ [], o) (λ _. return (tt {0})) backend).1,
            (settled client C ks none
                (continue_with (r ∷ [], o) (λ _. return (tt {0})) backend).1
                s).0,
            (settled client C ks none
                (continue_with (r ∷ [], o) (λ _. return (tt {0})) backend).1
                s).1,
          ))
  toggle-TogglesBy r ks t t' backend (c, p) (resolved v) h same =
      (refl, inl (v, h, ap (λ x. toast C x p) same, refl))
  toggle-TogglesBy r ks t t' backend (c, p) (rejected e) h same = (refl, inr (e, h, refl, refl))

  message-Peer :
      (disabled : Bool)
      → message (codes "Peer") (not disabled) ≡ (
          if disabled
          then codes "Peer enabled successfully"
          else codes "Peer disabled successfully")
  message-Peer true = refl
  message-Peer false = refl

  message-Interface :
      (disabled : Bool)
      → message (codes "Interface") (not disabled) ≡ (
          if disabled
          then codes "Interface enabled successfully"
          else codes "Interface disabled successfully")
  message-Interface true = refl
  message-Interface false = refl

  message-Server :
      (is_active : Bool)
      → message (codes "Server") is_active ≡ (
          if is_active
          then codes "Server disabled successfully"
          else codes "Server enabled successfully")
  message-Server true = refl
  message-Server false = refl

  -- The switch of a row sends one request for that row. If the backend accepts it, the panel says
  -- that the row is enabled if it was disabled (a server: inactive) and that it is disabled
  -- otherwise, and invalidates the list (for a peer also the device data); if it refuses, the cache
  -- is as before and the panel is as the client's default `onError` makes it.
  pub toggles-TogglesBy :
      (p : Peer) (i : Interface) (s : Server) (backend : Backend) (before : client.Cache × Panel C)
      → TogglesBy
          (patched (codes "/peer/") p.id)
          ((name (codes "peers_list") ∷ []) ∷ (name (codes "device_data") ∷ []) ∷ [])
          (if p.disabled
            then codes "Peer enabled successfully"
            else codes "Peer disabled successfully")
          backend
          before
          (toggle_peer p backend before)
        × TogglesBy
            (patched (codes "/interface/") i.id)
            ((name (codes "interfaces_list") ∷ []) ∷ [])
            (if i.disabled
              then codes "Interface enabled successfully"
              else codes "Interface disabled successfully")
            backend
            before
            (toggle_interface i backend before)
        × TogglesBy
            (patched (codes "/server/") s.id)
            ((name (codes "servers_list") ∷ []) ∷ [])
            (if s.is_active
              then codes "Server disabled successfully"
              else codes "Server enabled successfully")
            backend
            before
            (toggle_server s backend before)
  unfolding toggle_peer toggle_interface toggle_server mutate use_update_peer_status_mutation
      use_update_interface_status_mutation use_update_server_status_mutation update_peer_status
      update_interface_status update_server_status
  toggles-TogglesBy p i s backend before = (
    toggle-TogglesBy _ ((name (codes "peers_list") ∷ []) ∷ (name (codes "device_data") ∷ []) ∷ []) _
        _ backend before _ refl (message-Peer p.disabled),
    toggle-TogglesBy _ ((name (codes "interfaces_list") ∷ []) ∷ []) _ _ backend before _ refl
        (message-Interface i.disabled),
    toggle-TogglesBy _ ((name (codes "servers_list") ∷ []) ∷ []) _ _ backend before _ refl
        (message-Server s.is_active),
  )
