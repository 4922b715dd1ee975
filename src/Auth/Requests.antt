-- ===== src/Auth/Requests.antt =====
-- ui/src/api/axios-instance.ts: the interceptor that signs each request.
use wgpanelne.Prelude.{Option, none, some, if◌then◌else◌, ◌++◌}
use wgpanelne.Js.Strings.{Text, codes, truthy}
use wgpanelne.Auth.Cookies.{Cookies}
use wgpanelne.Auth.Store.{token_key}

-- `if (token) config.headers.Authorization = ...`, on the header's value before it.
abbrev pub authorization : Option Text → Option Text → Option Text
authorization none header = header
authorization (some token) header = if truthy token then some (codes "Bearer " ++ token) else header

module _ (C : Cookies) where
  -- The header `Authorization` that leaves with a request that had `header`.
  unfoldable pub sign_request : C.Jar → Option Text → Option Text
  sign_request jar header = authorization (C.get token_key jar) header
