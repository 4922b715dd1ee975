-- ===== src/Auth/Leaving.antt =====
-- What signing in and leaving do to the session.
use wgpanelne.Prelude.{◌≡◌, refl, ◌≢◌, Option, some, [], ◌∷◌, ◌++◌}
use wgpanelne.Js.Strings.{Text, codes, text_eq, text_eq_refl}
use wgpanelne.Auth.Cookies.{Cookies}
use wgpanelne.Auth.Store.{
  AuthAdmin, Session, username_key, set_admin, set_access_token, reset_access_token,
}
use wgpanelne.Auth.Requests.{sign_request}
use wgpanelne.Auth.Errors.{Panel, Thrown, mutation_on_error}
use wgpanelne.Auth.SignIn.{LoginResponse, sign_in, log_out, update_profile}
use wgpanelne.Auth.Errors.{resolved, rejected}

module _ (C : Cookies) where
  pub sign_in-session :
      (r : LoginResponse) (p : Panel C)
      → (sign_in C (resolved r) p).session
        ≡ set_admin C
            (record { user_id = r.user_id; username = r.username })
            (set_access_token C r.access_token p.session)
  unfolding sign_in
  sign_in-session r p = refl

  pub sign_in_rejected :
      (e : Thrown) (p : Panel C) → sign_in C (rejected e) p ≡ mutation_on_error C e p
  unfolding sign_in
  sign_in_rejected e p = refl

  pub log_out-session : (p : Panel C) → (log_out C p).session ≡ reset_access_token C p.session
  unfolding log_out
  log_out-session p = refl

  pub update_profile-session :
      (p : Panel C) → (update_profile C (resolved tt) p).session ≡ reset_access_token C p.session
  unfolding update_profile
  update_profile-session p = refl

  pub update_profile_rejected :
      (e : Thrown) (p : Panel C) → update_profile C (rejected e) p ≡ mutation_on_error C e p
  unfolding update_profile
  update_profile_rejected e p = refl

  signed_by :
      (t : Text) (a : AuthAdmin) (s : Session C) (header : Option Text)
      → t ≢ []
      → sign_request C (set_admin C a (set_access_token C t s)).jar header
        ≡ some (codes "Bearer " ++ t)
  unfolding sign_request set_admin set_access_token text_eq
  signed_by [] a s header h = absurd (h refl)
  signed_by (c ∷ t) a s header h = simp C.get-set

  -- Signing in: if the server's token is not empty, the next request carries it whatever header
  -- it had; the store and the cookie `username` name the administrator of the response.
  pub sign_in_starts_session :
      (r : LoginResponse) (p : Panel C) (header : Option Text)
      → r.access_token ≢ []
      → let q = sign_in C (resolved r) p in
        (sign_request C q.session.jar header ≡ some (codes "Bearer " ++ r.access_token))
        × (q.session.auth.admin ≡ some (record { user_id = r.user_id; username = r.username }))
        × (C.get username_key q.session.jar ≡ some r.username)
  sign_in_starts_session r p header h = rw (sign_in-session r p) (
    signed_by r.access_token _ p.session header h,
    (unfold set_admin in refl),
    (unfold set_admin in rw (C.get-set, text_eq_refl username_key)),
  )

  -- Logging out, or a changed account, takes the token away: no `Authorization` is added to the
  -- next request. The administrator and the cookie `username` stay as they were.
  pub log_out_leaves_name :
      (p : Panel C) (header : Option Text)
      → let q = log_out C p in
        (sign_request C q.session.jar header ≡ header)
        × (q.session.auth.admin ≡ p.session.auth.admin)
        × (C.get username_key q.session.jar ≡ C.get username_key p.session.jar)
        × ((update_profile C (resolved tt) p).session ≡ q.session)
  unfolding log_out reset_access_token sign_request text_eq update_profile
  log_out_leaves_name p header = (simp C.get-remove, refl, simp C.get-remove, refl)
