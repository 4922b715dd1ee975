-- ===== src/Api/Authentication.antt =====
-- ui/src/api/authentication.ts
use wgpanelne.Prelude.{Option, some}
use wgpanelne.Js.Strings.{codes}
use wgpanelne.Zod.Values.{Value}
use wgpanelne.Zod.Interface.{Zod}
use wgpanelne.Schema.Authentication.{login_response}
use wgpanelne.Api.Client.{Api, post, put, request_with, send, parse, data_of, return, ◌>>=◌, ◌>>◌}

unfoldable pub update_profile : Value → Api (Unit {0})
update_profile profile = do
  send (request_with put (codes "/auth/profile") (some profile))
  return tt

module _ (z : Zod) where
  unfoldable pub login : Value → Api (Option Value)
  login credentials = do
    reply ← send (request_with post (codes "/auth/login") (some credentials))
    parsed ← parse z login_response reply
    return (data_of parsed)
