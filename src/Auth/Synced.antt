-- ===== src/Auth/Synced.antt =====
-- The store and the cookie hold one token, whatever happens in the panel, so that what the store
-- shows is what the interceptor sends.
use wgpanelne.Prelude.{
  ◌≡◌, refl, Bool, true, false, Option, none, some, List, [], ◌∷◌, ◌++◌, if◌then◌else◌,
}
use wgpanelne.Js.Strings.{Text, codes, truthy, text_eq, text_eq_refl}
use wgpanelne.Auth.Cookies.{Cookies}
use wgpanelne.Auth.Store.{
  AuthAdmin, Session, token_key, username_key, text_or_empty, init, set_admin, set_access_token,
  reset_access_token, reset,
}
use wgpanelne.Auth.Requests.{authorization, sign_request}
use wgpanelne.Auth.Errors.{Panel, Thrown, handle_global_http_error, mutation_on_error}
use wgpanelne.Auth.Expiry.{is_unauthorized, global-session, mutation-session}
use wgpanelne.Auth.SignIn.{LoginResponse, sign_in, log_out, update_profile}
use wgpanelne.Auth.Errors.{Outcome, resolved, rejected}
use wgpanelne.Auth.Leaving.{
  sign_in-session, sign_in_rejected, log_out-session, update_profile-session,
  update_profile_rejected,
}

-- What the user and the server do to the session.
pub data Event : Type 0 where
  signing_in : Outcome LoginResponse → Event
  logging_out : Event
  updating_profile : Outcome (Unit {0}) → Event
  query_failed : Thrown → Event
  mutation_failed : Thrown → Event

text_or_empty-some : (t : Text) → text_or_empty (some t) ≡ t
text_or_empty-some [] = refl
text_or_empty-some (c ∷ t) = refl

other_key : text_eq token_key username_key ≡ false
unfolding text_eq
other_key = refl

authorization-text_or_empty :
    (found header : Option Text)
    → authorization found header ≡ (
        if truthy (text_or_empty found)
        then some (codes "Bearer " ++ text_or_empty found)
        else header)
authorization-text_or_empty none header = refl
authorization-text_or_empty (some []) header = refl
authorization-text_or_empty (some (c ∷ t)) header = refl

module _ (C : Cookies) where
  unfoldable pub handle : Event → Panel C → Panel C
  handle (signing_in o) p = sign_in C o p
  handle logging_out p = log_out C p
  handle (updating_profile o) p = update_profile C o p
  handle (query_failed e) p = handle_global_http_error C e p
  handle (mutation_failed e) p = mutation_on_error C e p

  unfoldable pub handle_all : List Event → Panel C → Panel C
  unfolding handle
  handle_all [] p = p
  handle_all (e ∷ es) p = handle_all es (handle e p)

  abbrev pub Synced : Session C → Type 0
  Synced s = s.auth.access_token ≡ text_or_empty (C.get token_key s.jar)

  init-Synced : (jar : C.Jar) → Synced (init C jar)
  unfolding init
  init-Synced jar = refl

  set_admin-Synced : (a : AuthAdmin) (s : Session C) → Synced s → Synced (set_admin C a s)
  unfolding set_admin
  set_admin-Synced a s h = rw (C.get-set, other_key) h

  set_access_token-Synced : (t : Text) (s : Session C) → Synced (set_access_token C t s)
  unfolding set_access_token
  set_access_token-Synced t s = rw (C.get-set, text_eq_refl token_key, text_or_empty-some t)

  reset_access_token-Synced : (s : Session C) → Synced (reset_access_token C s)
  unfolding reset_access_token
  reset_access_token-Synced s = rw (C.get-remove, text_eq_refl token_key)

  reset-Synced : (s : Session C) → Synced (reset C s)
  unfolding reset
  reset-Synced s = simp (C.get-remove, other_key, text_eq_refl)

  expiry-Synced : (b : Bool) (s : Session C) → Synced s → Synced (if b then reset C s else s)
  expiry-Synced true s h = reset-Synced s
  expiry-Synced false s h = h

  mutation-Synced :
      (e : Thrown) (p : Panel C) → Synced p.session → Synced (mutation_on_error C e p).session
  mutation-Synced e p h =
      rw (mutation-session C e p) (expiry-Synced (is_unauthorized e) p.session h)

  sign_in-Synced :
      (o : Outcome LoginResponse) (p : Panel C) → Synced p.session → Synced (sign_in C o p).session
  sign_in-Synced (resolved r) p h = rw (sign_in-session C r p) (
      set_admin-Synced (record { user_id = r.user_id; username = r.username })
        (set_access_token C r.access_token p.session)
        (set_access_token-Synced r.access_token p.session))
  sign_in-Synced (rejected error) p h = rw (sign_in_rejected C error p) (mutation-Synced error p h)

  handle-Synced : (e : Event) (p : Panel C) → Synced p.session → Synced (handle e p).session
  unfolding handle
  handle-Synced (signing_in o) p h = sign_in-Synced o p h
  handle-Synced logging_out p h = rw (log_out-session C p) (reset_access_token-Synced p.session)
  handle-Synced (updating_profile (resolved _)) p h =
      rw (update_profile-session C p) (reset_access_token-Synced p.session)
  handle-Synced (updating_profile (rejected error)) p h =
      rw (update_profile_rejected C error p) (mutation-Synced error p h)
  handle-Synced (query_failed e) p h =
      rw (global-session C e p) (expiry-Synced (is_unauthorized e) p.session h)
  handle-Synced (mutation_failed e) p h = mutation-Synced e p h

  handle_all-Synced_from :
      (es : List Event) (p : Panel C) → Synced p.session → Synced (handle_all es p).session
  unfolding handle_all
  handle_all-Synced_from [] p h = h
  handle_all-Synced_from (e ∷ es) p h = handle_all-Synced_from es (handle e p) (handle-Synced e p h)

  -- A panel that was just loaded.
  abbrev pub loaded : C.Jar → Panel C
  loaded jar = record { session = init C jar; toasts = []; navigations = [] }

  -- From a page load on, after any events, the token of the store is that of the cookie.
  pub handle_all-Synced :
      (es : List Event) (jar : C.Jar) → Synced (handle_all es (loaded jar)).session
  handle_all-Synced es jar = handle_all-Synced_from es (loaded jar) (init-Synced jar)

  -- After any events, a request leaves with `Bearer` and the store's token, and with the header
  -- that it had where the store has no token.
  pub sign_request-handle_all :
      (es : List Event) (jar : C.Jar) (header : Option Text)
      → let s = (handle_all es (loaded jar)).session in
        sign_request C s.jar header ≡ (
          if truthy s.auth.access_token
          then some (codes "Bearer " ++ s.auth.access_token)
          else header)
  unfolding sign_request
  sign_request-handle_all es jar header =
      rw (handle_all-Synced es jar) (authorization-text_or_empty _ header)
