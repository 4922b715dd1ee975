-- ===== src/Hooks/Cache.antt =====
-- The query client of @tanstack/react-query as the hooks of ui/src/hooks use it. The client is a
-- parameter; what is assumed of it is what its documentation says of `invalidateQueries`: it marks
-- the queries as stale whose key begins with the given one, and no other.
use wgpanelne.Prelude.{
  ℕ, ◌≡◌, Bool, true, false, ◌&&◌, ◌||◌, Option, none, some, List, [], ◌∷◌, ◌==◌,
}
use wgpanelne.Js.Strings.{Text, text_eq}
use wgpanelne.Auth.Cookies.{Cookies}
use wgpanelne.Auth.Errors.{Outcome, resolved, rejected, Panel, toast, mutation_on_error}
use wgpanelne.Api.Client.{Api, Backend, Request}

pub data KeyPart : Type 0 where
  name : Text → KeyPart
  number : ℕ → KeyPart
  missing : KeyPart

abbrev pub Key : Type 0
Key = List KeyPart

abbrev part_eq : KeyPart → KeyPart → Bool
part_eq (name s) (name t) = text_eq s t
part_eq (number m) (number n) = m == n
part_eq missing missing = true
part_eq _ _ = false

abbrev pub begins_with : Key → Key → Bool
begins_with [] k = true
begins_with (p ∷ ps) [] = false
begins_with (p ∷ ps) (q ∷ k) = part_eq p q && begins_with ps k

pub record QueryClient : Type 1 where
  pub Cache : Type 0
  pub is_stale : Key → Cache → Bool
  pub invalidate_queries : Key → Cache → Cache
  pub is_stale-invalidate_queries :
      (p k : Key) (c : Cache)
      → is_stale k (invalidate_queries p c) ≡ (begins_with p k || is_stale k c)

-- What a hook passes to `useMutation`: `mutationFn`, the keys that `onSuccess` invalidates, in
-- order, and the text that it toasts.
pub record Mutation (A B : Type 0) : Type 0 where
  pub mutation_fn : A → Api B
  pub invalidated : List Key
  pub toasted : Option Text

-- What a hook passes to `useQuery`; `none` is a `refetchInterval` that is not given, or `false`.
pub record Query (A : Type 0) : Type 0 where
  pub query_key : Key
  pub query_fn : Api A
  pub enabled : Bool
  pub refetch_interval : Option ℕ

module _ (client : QueryClient) where
  abbrev pub invalidate_all : List Key → client.Cache → client.Cache
  invalidate_all [] c = c
  invalidate_all (k ∷ ks) c = invalidate_all ks (client.invalidate_queries k c)

  module _ (C : Cookies) where
    abbrev pub told : Option Text → Panel C → Panel C
    told none p = p
    told (some t) p = toast C t p

    -- `onSuccess` of the hook, or the default `onError` of the client, which no hook replaces.
    abbrev pub settled :
        {B : Type 0}
        → List Key
        → Option Text
        → Outcome B
        → client.Cache × Panel C
        → client.Cache × Panel C
    settled ks t (resolved b) (c, p) = (invalidate_all ks c, told t p)
    settled ks t (rejected e) (c, p) = (c, mutation_on_error C e p)

    -- `mutate(a)`: the call, and what it leads to.
    unfoldable pub mutate :
        {A B : Type 0}
        → Mutation A B
        → A
        → Backend
        → client.Cache × Panel C
        → List Request × Outcome B × client.Cache × Panel C
    mutate m a backend s =
        let (sent, o) = m.mutation_fn a backend in
        let (c, p) = settled m.invalidated m.toasted o s in (sent, o, c, p)

-- The requests of a query that is mounted with nothing cached.
unfoldable pub mount : {A : Type 0} → Query A → Backend → List Request
mount q backend = elim q.enabled [ true ↦ (q.query_fn backend).0 | false ↦ [] ]
