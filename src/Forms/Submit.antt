-- ===== src/Forms/Submit.antt =====
-- `onSubmit` of ui/src/features/servers/components/server-form.tsx,
-- ui/src/features/interfaces/components/interface-form.tsx and
-- ui/src/features/peers/components/peer-form/use-peer-form.tsx.
use wgpanelne.Prelude.{
  ℕ, ◌≡◌, refl, Bool, true, false, ◌⊎◌, inl, inr, Option, none, some, List, [], ◌∷◌, head_or,
  if◌then◌else◌,
}
use wgpanelne.Js.Strings.{Text, codes}
use wgpanelne.Auth.Cookies.{Cookies}
use wgpanelne.Auth.Errors.{Thrown, Outcome, resolved, rejected, Panel, toast, mutation_on_error}
use wgpanelne.Zod.Values.{Value, obj, Fields}
use wgpanelne.Zod.Interface.{Zod}
use wgpanelne.Api.Client.{Backend, Request}
use wgpanelne.Api.Peers.{create_peer, update_peer}
use wgpanelne.Api.Servers.{create_server, update_server}
use wgpanelne.Api.Interfaces.{create_interface, update_interface}
use wgpanelne.Hooks.Cache.{Key, name, QueryClient, settled, mutate}
use wgpanelne.Hooks.Mutations.{
  use_create_server_mutation, use_update_server_mutation, use_create_interface_mutation,
  use_update_interface_mutation, use_create_peer_mutation, use_update_peer_mutation,
}

-- The values of a form: the identifier of what is changed, and the other fields.
pub record FormValues : Type 0 where
  pub id : ℕ
  pub fields : Fields

-- The requests, the cache, the panel, whether the form was reset and closed, the values that
-- `setPending` was called with, the latest first, and the error that is thrown.
pub record Submission {ℓ} (Cache Screen : Type ℓ) : Type ℓ where
  pub sent : List Request
  pub cache : Cache
  pub panel : Screen
  pub closed : Bool
  pub pending : List Bool
  pub thrown : Option Thrown

-- The effect on `isPending` of the mutation, which is true and then false; the forms of servers and
-- interfaces call `setPending` in the handler, too, before the call and in its `finally`.
abbrev pub by_effect : List Bool
by_effect = false ∷ true ∷ []

abbrev pub by_handler : List Bool
by_handler = false ∷ false ∷ true ∷ true ∷ []

module _ (client : QueryClient) (C : Cookies) where
  abbrev pub finish :
      List Bool
      → Text
      → List Request × Outcome (Option Value) × client.Cache × Panel C
      → Submission client.Cache (Panel C)
  finish pending text (sent, resolved _, c, p) = record {
    sent = sent;
    cache = c;
    panel = toast C text p;
    closed = true;
    pending = pending;
    thrown = none;
  }
  finish pending text (sent, rejected e, c, p) = record {
    sent = sent;
    cache = c;
    panel = p;
    closed = false;
    pending = pending;
    thrown = some e;
  }

module _ (client : QueryClient) (C : Cookies) (z : Zod) (is_edit : Bool) (values : FormValues)
    (backend : Backend) (before : client.Cache × Panel C) where
  unfoldable pub submit_server : Submission client.Cache (Panel C)
  submit_server = elim is_edit [
    | true ↦
        finish client C by_handler (codes "Server updated successfully.")
          (mutate client C (use_update_server_mutation z) (values.id, values.fields) backend before)
    | false ↦
        finish client C by_handler (codes "Server created successfully.")
          (mutate client C (use_create_server_mutation z) (obj values.fields) backend before)
  ]

  unfoldable pub submit_interface : Submission client.Cache (Panel C)
  submit_interface = elim is_edit [
    | true ↦ finish client C by_handler (codes "Interface updated successfully.") (
        mutate client C (use_update_interface_mutation z) (values.id, values.fields) backend before)
    | false ↦
        finish client C by_handler (codes "Interface created successfully.")
          (mutate client C (use_create_interface_mutation z) (obj values.fields) backend before)
  ]

  unfoldable pub submit_peer : Submission client.Cache (Panel C)
  submit_peer = elim is_edit [
    | true ↦
        finish client C by_effect (codes "Peer updated successfully.")
          (mutate client C (use_update_peer_mutation z) (values.id, values.fields) backend before)
    | false ↦
        finish client C by_effect (codes "Peer created successfully.")
          (mutate client C (use_create_peer_mutation z) (obj values.fields) backend before)
  ]

module _ (client : QueryClient) (C : Cookies) where
  -- The requests of the call were sent, and the button is no longer disabled. If the call resolved, the
  -- form closed with the text and nothing is thrown, and the answers of the key are stale; if it threw,
  -- the form is open, throws the error, and the client's handler of errors ran.
  abbrev pub EndsWell :
      Key
      → Text
      → List Request × Outcome (Option Value)
      → client.Cache × Panel C
      → Submission client.Cache (Panel C)
      → Type 0
  EndsWell k text call before u =
      (u.sent ≡ call.0)
      × (head_or true u.pending ≡ false)
      × (((v : Option Value) × (call.1 ≡ resolved v)
            × (u.closed ≡ true)
            × (u.thrown ≡ none)
            × (u.panel ≡ toast C text before.1)
            × (u.cache ≡ client.invalidate_queries k before.0))
          ⊎ ((e : Thrown) × (call.1 ≡ rejected e)
              × (u.closed ≡ false)
              × (u.thrown ≡ some e)
              × (u.panel ≡ mutation_on_error C e before.1)
              × (u.cache ≡ before.0)))

  finish-EndsWell :
      (pending : List Bool) (k : Key) (text : Text) (sent : List Request)
      (o : Outcome (Option Value)) (before : client.Cache × Panel C)
      → head_or true pending ≡ false
      → EndsWell k text
          (sent, o)
          before
          (finish client C pending text (
            sent,
            o,
            (settled client C (k ∷ []) none o before).0,
            (settled client C (k ∷ []) none o before).1,
          ))
  finish-EndsWell pending k text sent (resolved v) (c, p) h =
      (refl, h, inl (v, refl, refl, refl, refl, refl))
  finish-EndsWell pending k text sent (rejected e) (c, p) h =
      (refl, h, inr (e, refl, refl, refl, refl, refl))

  -- The forms of servers, interfaces and peers, creating or changing, whatever the backend answers,
  -- send the requests of their call and leave the button enabled. If the call resolves, the form
  -- closes with its message, throws nothing, and the list of its kind is stale; if the call throws,
  -- the form stays open and throws the same error, the cache is as before, and the panel is as the
  -- client's default `onError` makes it.
  pub submit-EndsWell :
      (z : Zod) (is_edit : Bool) (values : FormValues) (backend : Backend)
      (before : client.Cache × Panel C)
      → EndsWell
          (name (codes "servers_list") ∷ [])
          (if is_edit
            then codes "Server updated successfully."
            else codes "Server created successfully.")
          (if is_edit
            then update_server z values.id values.fields backend
            else create_server z (obj values.fields) backend)
          before
          (submit_server client C z is_edit values backend before)
        × EndsWell
            (name (codes "interfaces_list") ∷ [])
            (if is_edit
              then codes "Interface updated successfully."
              else codes "Interface created successfully.")
            (if is_edit
              then update_interface z values.id values.fields backend
              else create_interface z (obj values.fields) backend)
            before
            (submit_interface client C z is_edit values backend before)
        × EndsWell
            (name (codes "peers_list") ∷ [])
            (if is_edit
              then codes "Peer updated successfully."
              else codes "Peer created successfully.")
            (if is_edit
              then update_peer z values.id values.fields backend
              else create_peer z (obj values.fields) backend)
            before
            (submit_peer client C z is_edit values backend before)
  unfolding submit_server submit_interface submit_peer mutate use_create_server_mutation
      use_update_server_mutation use_create_interface_mutation use_update_interface_mutation
      use_create_peer_mutation use_update_peer_mutation
  submit-EndsWell z true values backend before = (
    finish-EndsWell by_handler _ _ _ _ before refl,
    finish-EndsWell by_handler _ _ _ _ before refl,
    finish-EndsWell by_effect _ _ _ _ before refl,
  )
  submit-EndsWell z false values backend before = (
    finish-EndsWell by_handler _ _ _ _ before refl,
    finish-EndsWell by_handler _ _ _ _ before refl,
    finish-EndsWell by_effect _ _ _ _ before refl,
  )
