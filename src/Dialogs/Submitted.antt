-- ===== src/Dialogs/Submitted.antt =====
-- What the submission of a selection leads to, by the answer of the backend.
use wgpanelne.Prelude.{
  ◌≡◌, refl, sym, ◌∙◌, ◌⊎◌, inl, inr, true, false, Option, none, some, List, [], ◌∷◌,
}
use mathlib.Core.Path.{subst}
use wgpanelne.Js.Strings.{Text, codes, text_eq}
use wgpanelne.Auth.Errors.{Thrown, Outcome, resolved, rejected}
use wgpanelne.Zod.Values.{Value, str, arr, obj, end, field, get_field}
use wgpanelne.Zod.Syntax.{string, array, entry, done}
use wgpanelne.Zod.Interface.{Zod, Parsed, parse_items}
use wgpanelne.Schema.Sync.{sync_peers_request_schema, sync_interfaces_request_schema}
use wgpanelne.Api.Client.{
  Backend, Request, post, request_with, continue_with, send, return, or_throw, ◌>>=◌, ◌>>◌,
}
use wgpanelne.Api.Peers.{sync_selected_peers}
use wgpanelne.Api.Interfaces.{sync_selected_interfaces}
use wgpanelne.Hooks.Cache.{Key, name}
use wgpanelne.Dialogs.Selection.{
  Selected, checked_ids, strings, Submitted, settle, submit_peers, submit_interfaces,
}

-- The identifiers under their key.
abbrev pub payload : Text → List Text → Value
payload k ids = obj (field k (arr (strings ids)) end)

-- One request was sent. If the backend accepts it, the dialog is closed with a message, its list is
-- marked as stale, and nothing is thrown; if it refuses, the dialog stays open with another message,
-- nothing is marked, and the error goes on.
abbrev pub EndsBy : Request → Key → Text → Text → Backend → Submitted → Type 0
EndsBy r key success failure backend u =
    (u.sent ≡ r ∷ [])
    × (((v : Value) × (backend r ≡ resolved v)
          × (u.stays_open ≡ false)
          × (u.invalidated ≡ key ∷ [])
          × (u.toasted ≡ success)
          × (u.thrown ≡ none))
        ⊎ ((e : Thrown) × (backend r ≡ rejected e)
            × (u.stays_open ≡ true)
            × (u.invalidated ≡ [])
            × (u.toasted ≡ failure)
            × (u.thrown ≡ some e)))

module _ (z : Zod) where
  parse_items-strings :
      (ids : List Text) → parse_items (z.parse string) (strings ids) ≡ some (strings ids)
  parse_items-strings [] = refl
  parse_items-strings (t ∷ ids) = rw (z.parse-string (some (str t)), parse_items-strings ids) refl

  array-strings :
      (ids : List Text)
      → z.parse (array string) (some (arr (strings ids))) ≡ some (some (arr (strings ids)))
  array-strings ids =
      z.parse-array string (some (arr (strings ids))) ∙ rw (parse_items-strings ids) refl

  -- The schema of a selection accepts every one.
  peers-payload :
      (ids : List Text)
      → z.parse sync_peers_request_schema (some (payload (codes "peer_ids") ids))
        ≡ some (some (payload (codes "peer_ids") ids))
  unfolding get_field text_eq
  peers-payload ids =
      z.parse-object (entry (codes "peer_ids") (array string) done)
        (some (payload (codes "peer_ids") ids))
      ∙ rw (array-strings ids) refl

  interfaces-payload :
      (ids : List Text)
      → z.parse sync_interfaces_request_schema (some (payload (codes "interface_ids") ids))
        ≡ some (some (payload (codes "interface_ids") ids))
  unfolding get_field text_eq
  interfaces-payload ids =
      z.parse-object (entry (codes "interface_ids") (array string) done)
        (some (payload (codes "interface_ids") ids))
      ∙ rw (array-strings ids) refl

  abbrev sends : Text → Option Value → Backend → List Request × Outcome (Unit {0})
  sends path validated = send (request_with post path validated) >> return tt

  settle-EndsBy :
      (r : Request) (key : Key) (success failure : Text) (backend : Backend) (o : Outcome Value)
      → backend r ≡ o
      → EndsBy r key success failure backend
          (settle success failure key (continue_with (r ∷ [], o) (λ _. return (tt {0})) backend))
  settle-EndsBy r key success failure backend (resolved v) h =
      (refl, inl (v, h, refl, refl, refl, refl))
  settle-EndsBy r key success failure backend (rejected e) h =
      (refl, inr (e, h, refl, refl, refl, refl))

  -- A call whose payload was parsed.
  parsed-EndsBy :
      (path : Text) (v : Value) (key : Key) (success failure : Text) (backend : Backend)
      (q : Parsed)
      → q ≡ some (some v)
      → EndsBy
          (request_with post path (some v))
          key
          success
          failure
          backend
          (settle success failure key ((or_throw q >>= sends path) backend))
  parsed-EndsBy path v key success failure backend q h =
      subst
        (λ x.
          EndsBy (request_with post path (some v)) key success failure backend
            (settle success failure key ((or_throw x >>= sends path) backend)))
        (sym h) (settle-EndsBy (request_with post path (some v)) key success failure backend _ refl)

  -- Submitting a selection of peers, or of interfaces, sends one request with exactly the identifiers
  -- that are checked. If the backend accepts it, the dialog is closed with the message of success, the
  -- list of its kind is marked as stale and nothing is thrown; if it refuses, the dialog stays open
  -- with the message of failure, nothing is marked and the backend's error is thrown.
  pub submit-EndsBy :
      (selected : Selected) (backend : Backend)
      → EndsBy
          (request_with post
            (codes "/sync/peers/selected")
            (some (payload (codes "peer_ids") (checked_ids selected))))
          (name (codes "peers_list") ∷ [])
          (codes "Selected peers synced successfully")
          (codes "Failed to sync selected peers")
          backend
          (submit_peers z selected backend)
        × EndsBy
            (request_with post
              (codes "/sync/interfaces/selected")
              (some (payload (codes "interface_ids") (checked_ids selected))))
            (name (codes "interfaces_list") ∷ [])
            (codes "Selected interfaces synced successfully")
            (codes "Failed to sync selected interfaces")
            backend
            (submit_interfaces z selected backend)
  unfolding submit_peers submit_interfaces sync_selected_peers sync_selected_interfaces
  submit-EndsBy selected backend = (
    parsed-EndsBy (codes "/sync/peers/selected") _ _ _ _ backend _
        (peers-payload (checked_ids selected)),
    parsed-EndsBy (codes "/sync/interfaces/selected") _ _ _ _ backend _
        (interfaces-payload (checked_ids selected)),
  )
