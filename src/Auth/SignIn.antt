-- ===== src/Auth/SignIn.antt =====
-- ui/src/features/auth/sign-in/components/user-auth-form.tsx, the log-out item of
-- ui/src/components/profile-dropdown.tsx and ui/src/hooks/authentication.
use wgpanelne.Prelude.{ℕ, false}
use wgpanelne.Js.Strings.{Text, codes}
use wgpanelne.Auth.Cookies.{Cookies}
use wgpanelne.Auth.Store.{set_admin, set_access_token, reset_access_token}
use wgpanelne.Auth.Errors.{Panel, Outcome, resolved, rejected, toast, navigate, mutation_on_error}

-- What `loginResponseSchema` lets through.
pub record LoginResponse : Type 0 where
  pub user_id : ℕ
  pub username : Text
  pub access_token : Text
  pub refresh_token : Text
  pub expires_in : ℕ

module _ (C : Cookies) where
  signed_in : LoginResponse → Panel C → Panel C
  signed_in r p = record p {
    session =
        set_admin C (record { user_id = r.user_id; username = r.username })
          (set_access_token C r.access_token p.session);
  }

  -- `onSubmit` of the sign-in form; a rejected mutation runs the client's `onError` and throws.
  unfoldable pub sign_in : Outcome LoginResponse → Panel C → Panel C
  unfolding signed_in set_admin set_access_token navigate mutation_on_error
  sign_in (resolved r) p = navigate C (codes "/") false (signed_in r p)
  sign_in (rejected error) p = mutation_on_error C error p

  unfoldable pub log_out : Panel C → Panel C
  unfolding reset_access_token navigate
  log_out p =
      navigate C (codes "/sign-in") false (record p { session = reset_access_token C p.session })

  -- `useUpdateProfileMutation`: the mutation with its `onSuccess`.
  unfoldable pub update_profile : Outcome (Unit {0}) → Panel C → Panel C
  unfolding reset_access_token navigate toast mutation_on_error
  update_profile (resolved _) p =
      toast C (codes "Account updated successfully.") (
        navigate C (codes "/sign-in") false (record p { session = reset_access_token C p.session }))
  update_profile (rejected error) p = mutation_on_error C error p
