-- ===== src/Hooks/Reference.antt =====
-- A query client that meets what is assumed of @tanstack/react-query, and a panel before any event.
use wgpanelne.Prelude.{refl, List, [], ◌∷◌, any}
use wgpanelne.Auth.Errors.{Panel}
use wgpanelne.Auth.Jar.{jar_of_entries}
use wgpanelne.Auth.Synced.{loaded}
use wgpanelne.Hooks.Cache.{Key, begins_with, QueryClient}

-- The cache is the keys that were invalidated.
abbrev pub key_client : QueryClient
key_client = record {
  Cache = List Key;
  is_stale = λ k c. any (λ p. begins_with p k) c;
  invalidate_queries = λ p c. p ∷ c;
  is_stale-invalidate_queries = λ p k c. refl;
}

abbrev pub fresh : List Key × Panel jar_of_entries
fresh = ([], loaded jar_of_entries [])
