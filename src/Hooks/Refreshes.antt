-- ===== src/Hooks/Refreshes.antt =====
-- What is stale after a change: the lists that the change is about, and nothing after a failed call.
use wgpanelne.Prelude.{
  ℕ, ◌≡◌, refl, Bool, true, inl, inr, Option, List, [], ◌∷◌, Bool-cases, any, arith,
}
use wgpanelne.Js.Strings.{Text, text_eq}
use wgpanelne.Auth.Cookies.{Cookies}
use wgpanelne.Auth.Errors.{Outcome, resolved, rejected, Panel, mutation_on_error}
use wgpanelne.Zod.Interface.{Zod}
use wgpanelne.Api.Client.{Backend}
use wgpanelne.Hooks.Cache.{Key, begins_with, QueryClient, Mutation, settled, invalidate_all, mutate}
use wgpanelne.Hooks.Mutations.{
  use_update_peer_share_expire_mutation, use_update_peer_share_status_mutation,
}
use wgpanelne.Hooks.Queries.{use_peer_share_query}

module _ (client : QueryClient) (C : Cookies) where
  -- A call that resolves makes the query stale; one that throws leaves what is cached alone, and the
  -- client's handler of errors runs.
  abbrev pub Settles :
      {B : Type 0} → Key → client.Cache × Panel C → Outcome B → client.Cache × Panel C → Type 0
  Settles k before (resolved b) after = client.is_stale k after.0 ≡ true
  Settles k before (rejected e) after = after ≡ (before.0, mutation_on_error C e before.1)

  -- Whatever the mutation is given and the backend answers, the query of the key is settled.
  abbrev pub Refreshes : {A B : Type 0} → Mutation A B → Key → Type 0
  Refreshes {A} m k =
      (a : A) (backend : Backend) (s : client.Cache × Panel C)
      → Settles k s (mutate client C m a backend s).1
          ((mutate client C m a backend s).2, (mutate client C m a backend s).3)

  stays_stale :
      (ks : List Key) (k : Key) (c : client.Cache)
      → client.is_stale k c ≡ true
      → client.is_stale k (invalidate_all client ks c) ≡ true
  stays_stale [] k c h = h
  stays_stale (p ∷ ks) k c h =
      stays_stale ks k (client.invalidate_queries p c)
        (ground (arith, client.is_stale-invalidate_queries p k c, h))

  becomes_stale :
      (ks : List Key) (k : Key) (c : client.Cache)
      → any (λ p. begins_with p k) ks ≡ true
      → client.is_stale k (invalidate_all client ks c) ≡ true
  becomes_stale [] k c h = cc
  becomes_stale (p ∷ ks) k c h = elim (Bool-cases (begins_with p k)) [
    | inl starts ↦
        stays_stale ks k (client.invalidate_queries p c)
          (ground (arith, client.is_stale-invalidate_queries p k c, starts))
    | inr other ↦ becomes_stale ks k (client.invalidate_queries p c) (rw other at h)
  ]

  settles :
      {B : Type 0} (ks : List Key) (t : Option Text) (k : Key) (s : client.Cache × Panel C)
      (o : Outcome B)
      → any (λ p. begins_with p k) ks ≡ true
      → Settles k s o (settled client C ks t o s)
  settles ks t k (c, p) (resolved b) h = becomes_stale ks k c h
  settles ks t k (c, p) (rejected e) h = refl

  mutation-Refreshes :
      {A B : Type 0} (m : Mutation A B) (k : Key)
      → any (λ p. begins_with p k) m.invalidated ≡ true
      → Refreshes m k
  unfolding mutate
  mutation-Refreshes m k h a backend s =
      settles m.invalidated m.toasted k s (m.mutation_fn a backend).1 h

  module _ (z : Zod) where
    -- A change of how any peer is shared makes the answer of `usePeerShareQuery` stale for every
    -- identifier and every `enabled` when its call resolves, and leaves the cache as it is when the
    -- call throws.
    shares-Refresh :
        (id : ℕ) (enabled : Option Bool)
        → Refreshes use_update_peer_share_expire_mutation
            (use_peer_share_query z id enabled).query_key
          × Refreshes use_update_peer_share_status_mutation
              (use_peer_share_query z id enabled).query_key
    unfolding use_peer_share_query use_update_peer_share_expire_mutation
        use_update_peer_share_status_mutation text_eq
    shares-Refresh id enabled = (mutation-Refreshes _ _ refl, mutation-Refreshes _ _ refl)
