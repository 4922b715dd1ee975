-- ===== src/Dialogs/Resets.antt =====
-- The dialogs that reset usages: ui/src/features/dashboard/components/traffic-stats-card.tsx,
-- ui/src/features/peers/components/dialogs/peers-reset-usages-dialogs.tsx, and the one of a row in
-- ui/src/features/peers/components/peers-columns.tsx with the dialog of
-- ui/src/features/shared-components/table/dialogs/simple-dialog.tsx.
use wgpanelne.Prelude.{
  ℕ, ◌≡◌, refl, Bool, true, false, Option, none, some, List, [], ◌∷◌, ◌++◌, ◌⊎◌, inl, inr,
  if◌then◌else◌,
}
use wgpanelne.Js.Strings.{Text, codes}
use wgpanelne.Js.Decimal.{to_string}
use wgpanelne.Auth.Cookies.{Cookies}
use wgpanelne.Auth.Errors.{Thrown, Outcome, resolved, rejected, Panel, toast, mutation_on_error}
use wgpanelne.Api.Client.{Backend, Request, request, patch, continue_with, return}
use wgpanelne.Api.Peers.{reset_peer_usage, reset_peer_usages}
use wgpanelne.Api.Dashboard.{reset_total_traffic_usage}
use wgpanelne.Zod.Values.{Value}
use wgpanelne.Hooks.Cache.{Key, name, QueryClient, mutate, settled}
use wgpanelne.Hooks.Mutations.{
  use_reset_total_traffic_mutation, use_reset_usage_mutation, use_reset_usages_mutation,
}

-- After the click on the button that confirms: what was sent, the cache, the panel, whether the
-- dialog is open, and what the handler throws.
pub record Confirmed {ℓ} (Cache Screen : Type ℓ) : Type ℓ where
  pub sent : List Request
  pub cache : Cache
  pub panel : Screen
  pub is_open : Bool
  pub thrown : Option Thrown

module _ (client : QueryClient) (C : Cookies) where
  abbrev Result : Type 0
  Result = Confirmed client.Cache (Panel C)

  -- `await resetUsages(); toast.success(...); setOpen(false)`
  abbrev pub awaited : Text → List Request × Outcome (Unit {0}) × client.Cache × Panel C → Result
  awaited message (sent, resolved u, c, p) = record {
    sent = sent;
    cache = c;
    panel = toast C message p;
    is_open = false;
    thrown = none;
  }
  awaited message (sent, rejected e, c, p) = record {
    sent = sent;
    cache = c;
    panel = p;
    is_open = true;
    thrown = some e;
  }

  unfoldable pub handle_reset : Backend → client.Cache × Panel C → Result
  handle_reset backend s =
      awaited (codes "Total traffic usage reset successfully")
        (mutate client C use_reset_total_traffic_mutation tt backend s)

  unfoldable pub handle_confirm : Backend → client.Cache × Panel C → Result
  handle_confirm backend s =
      awaited (codes "Peer usages reset successfully")
        (mutate client C use_reset_usages_mutation tt backend s)

  -- `onSuccess` and `onError` of one call, after those of the hook and the client.
  abbrev pub with_callbacks :
      Text → List Request × Outcome (Unit {0}) × client.Cache × Panel C → Result
  with_callbacks message (sent, resolved u, c, p) = record {
    sent = sent;
    cache = c;
    panel = toast C message p;
    is_open = false;
    thrown = none;
  }
  with_callbacks message (sent, rejected e, c, p) = record {
    sent = sent;
    cache = c;
    panel = p;
    is_open = false;
    thrown = none;
  }

  unfoldable pub handle_reset_usage : ℕ → Backend → client.Cache × Panel C → Result
  handle_reset_usage id backend s =
      with_callbacks (codes "Peer usage reset successfully")
        (mutate client C use_reset_usage_mutation id backend s)

  -- One request was sent. If it was accepted, the dialog closes with its message and the answers of
  -- the key are stale; if it was refused, the client's handler of errors ran, the cache is as before,
  -- and the dialog is open, with the error going on, as `kept` says.
  abbrev pub ResetsBy :
      Request → Key → Text → Bool → Backend → client.Cache × Panel C → Result → Type 0
  ResetsBy r k message kept backend before u =
      (u.sent ≡ r ∷ [])
      × (((v : Value) × (backend r ≡ resolved v)
            × (u.is_open ≡ false)
            × (u.cache ≡ client.invalidate_queries k before.0)
            × (u.panel ≡ toast C message before.1)
            × (u.thrown ≡ none))
          ⊎ ((e : Thrown) × (backend r ≡ rejected e)
              × (u.is_open ≡ kept)
              × (u.cache ≡ before.0)
              × (u.panel ≡ mutation_on_error C e before.1)
              × (u.thrown ≡ (if kept then some e else none))))

  -- A call that sends one request and returns nothing, given the reply.
  abbrev replied : Request → Outcome Value → Backend → List Request × Outcome (Unit {0})
  replied r o backend = continue_with (r ∷ [], o) (λ _. return tt) backend

  abbrev mutated :
      Key
      → List Request × Outcome (Unit {0})
      → client.Cache × Panel C
      → List Request × Outcome (Unit {0}) × client.Cache × Panel C
  mutated k (sent, o) s = let (c, p) = settled client C (k ∷ []) none o s in (sent, o, c, p)

  awaited-ResetsBy :
      (r : Request) (k : Key) (message : Text) (backend : Backend) (s : client.Cache × Panel C)
      (o : Outcome Value)
      → backend r ≡ o
      → ResetsBy r k message true backend s (awaited message (mutated k (replied r o backend) s))
  awaited-ResetsBy r k message backend (c, p) (resolved v) h =
      (refl, inl (v, h, refl, refl, refl, refl))
  awaited-ResetsBy r k message backend (c, p) (rejected e) h =
      (refl, inr (e, h, refl, refl, refl, refl))

  with_callbacks-ResetsBy :
      (r : Request) (k : Key) (message : Text) (backend : Backend) (s : client.Cache × Panel C)
      (o : Outcome Value)
      → backend r ≡ o
      → ResetsBy r k message false backend s
          (with_callbacks message (mutated k (replied r o backend) s))
  with_callbacks-ResetsBy r k message backend (c, p) (resolved v) h =
      (refl, inl (v, h, refl, refl, refl, refl))
  with_callbacks-ResetsBy r k message backend (c, p) (rejected e) h =
      (refl, inr (e, h, refl, refl, refl, refl))

  -- Each of the three dialogs sends its own request once. If the backend accepts it, the dialog is
  -- closed with its message and exactly the list of its key is marked stale; if it refuses, the cache
  -- is as before and the panel is as the client's default `onError` makes it, and the dialogs of all
  -- usages stay open and throw the error while that of one peer closes and throws nothing.
  pub resets-ResetsBy :
      (id : ℕ) (backend : Backend) (before : client.Cache × Panel C)
      → ResetsBy
          (request patch (codes "/device/traffic/reset"))
          (name (codes "device_data") ∷ [])
          (codes "Total traffic usage reset successfully")
          true
          backend
          before
          (handle_reset backend before)
        × ResetsBy
            (request patch (codes "/peer/reset-usage"))
            (name (codes "peers_list") ∷ [])
            (codes "Peer usages reset successfully")
            true
            backend
            before
            (handle_confirm backend before)
        × ResetsBy
            (request patch (codes "/peer/" ++ to_string id ++ codes "/reset-usage"))
            (name (codes "peers_list") ∷ [])
            (codes "Peer usage reset successfully")
            false
            backend
            before
            (handle_reset_usage id backend before)
  unfolding handle_reset handle_confirm handle_reset_usage mutate use_reset_total_traffic_mutation
      use_reset_usages_mutation use_reset_usage_mutation reset_total_traffic_usage reset_peer_usages
      reset_peer_usage
  resets-ResetsBy id backend before = (
    awaited-ResetsBy _ _ _ backend before _ refl,
    awaited-ResetsBy _ _ _ backend before _ refl,
    with_callbacks-ResetsBy _ _ _ backend before _ refl,
  )
