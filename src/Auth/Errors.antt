-- ===== src/Auth/Errors.antt =====
-- ui/src/main.tsx and ui/src/utils/handle-server-error.ts: what the panel does with a failed request.
use wgpanelne.Prelude.{ℕ, Bool, true, false, Option, none, some, List, ◌∷◌, ◌==◌, if◌then◌else◌}
use wgpanelne.Js.Strings.{Text, codes, truthy}
use wgpanelne.Auth.Cookies.{Cookies}
use wgpanelne.Auth.Store.{Session, reset}

-- `error.response`: its status, and the two texts that `data` may hold.
pub record HttpResponse : Type 0 where
  pub status : ℕ
  pub message : Option Text
  pub detail : Option Text

-- A thrown value: an `AxiosError` with `response` and `message`; another object, with the number
-- that its field `status` has, if it has one; or a value that is no object.
pub data Thrown : Type 0 where
  axios_error : Option HttpResponse → Text → Thrown
  object : Option ℕ → Thrown
  primitive : Thrown

-- The outcome of an awaited call.
pub data Outcome {ℓ} (A : Type ℓ) : Type ℓ where
  resolved : A → Outcome A
  rejected : Thrown → Outcome A

pub record Navigation : Type 0 where
  pub to : Text
  pub replace : Bool

-- What the handlers act on; the toasts and the navigations, the latest first.
pub record Panel (C : Cookies) : Type 0 where
  pub session : Session C
  pub toasts : List Text
  pub navigations : List Navigation

-- `a || b`, on texts that may be missing.
abbrev pub or_text : Option Text → Text → Text
or_text none b = b
or_text (some a) b = if truthy a then a else b

-- `error.response?.data?.message || error.response?.data?.detail || error.message || '...'`
unfoldable pub axios_text : Option HttpResponse → Text → Text
axios_text none message = or_text (some message) (codes "Something went wrong")
axios_text (some r) message =
    or_text r.message (or_text r.detail (or_text (some message) (codes "Something went wrong")))

-- The text that `handleServerError` shows.
unfoldable pub server_error_text : Thrown → Text
unfolding axios_text
server_error_text (axios_error response message) = axios_text response message
server_error_text (object (some status)) =
    if status == 204 then codes "Content not found." else codes "Something went wrong!"
server_error_text (object none) = codes "Something went wrong!"
server_error_text primitive = codes "Something went wrong!"

-- `error.response?.status ?? 0`
abbrev pub status_of : Option HttpResponse → ℕ
status_of none = 0
status_of (some r) = r.status

module _ (C : Cookies) where
  unfoldable pub toast : Text → Panel C → Panel C
  toast t p = record p { toasts = t ∷ p.toasts }

  unfoldable pub navigate : Text → Bool → Panel C → Panel C
  navigate to replace p = record p {
    navigations = record { to = to; replace = replace } ∷ p.navigations;
  }

  -- `useAuthStore.getState().auth.reset()`
  unfoldable pub end_session : Panel C → Panel C
  unfolding reset
  end_session p = record p { session = reset C p.session }

  expired : ℕ → Panel C → Panel C
  expired status p =
      if status == 401
      then navigate (codes "/sign-in") false (end_session (toast (codes "Session expired!") p))
      else p

  denied : ℕ → Panel C → Panel C
  denied status p =
      if status == 403 then navigate (codes "/403") true (toast (codes "Access denied!") p) else p

  unfoldable pub handle_global_http_error : Thrown → Panel C → Panel C
  unfolding toast navigate end_session expired denied
  handle_global_http_error (axios_error response message) p =
      denied (status_of response) (expired (status_of response) p)
  handle_global_http_error (object status) p = p
  handle_global_http_error primitive p = p

  unfoldable pub handle_server_error : Thrown → Panel C → Panel C
  unfolding toast server_error_text
  handle_server_error error p = toast (server_error_text error) p

  not_modified : Thrown → Panel C → Panel C
  unfolding toast
  not_modified (axios_error (some r) message) p =
      if r.status == 304 then toast (codes "Content not modified!") p else p
  not_modified (axios_error none message) p = p
  not_modified (object status) p = p
  not_modified primitive p = p

  -- `mutations.onError`. The query cache's `onError` is `handle_global_http_error` alone.
  unfoldable pub mutation_on_error : Thrown → Panel C → Panel C
  unfolding handle_global_http_error handle_server_error not_modified
  mutation_on_error error p =
      not_modified error (handle_server_error error (handle_global_http_error error p))
