-- ===== src/Auth/Tests.antt =====
-- Runs of the session's operations, and the theorems at
-- concrete data.
use wgpanelne.Prelude.{◌≡◌, refl, Option, none, some, List, [], ◌∷◌, ◌++◌, if◌then◌else◌}
use wgpanelne.Js.Strings.{codes, truthy}
use wgpanelne.Auth.Jar.{jar_of_entries, find}
use wgpanelne.Auth.Store.{token_key, username_key}
use wgpanelne.Auth.Requests.{sign_request}
use wgpanelne.Auth.Errors.{
  HttpResponse, Thrown, axios_error, object, Panel, server_error_text, mutation_on_error,
}
use wgpanelne.Auth.SignIn.{LoginResponse, sign_in, log_out, update_profile}
use wgpanelne.Auth.Errors.{resolved}
use wgpanelne.Auth.Leaving.{sign_in_starts_session, log_out_leaves_name}
use wgpanelne.Auth.Expiry.{shown_page, unauthorized_signs_out}
use wgpanelne.Auth.Synced.{
  Event, signing_in, logging_out, mutation_failed, handle_all, Synced, loaded, handle_all-Synced,
  sign_request-handle_all,
}

abbrev ann : LoginResponse
ann = record {
  user_id = 4;
  username = codes "ann";
  access_token = codes "t1";
  refresh_token = codes "r1";
  expires_in = 60;
}

abbrev blank : Panel jar_of_entries
blank = loaded jar_of_entries ((token_key, codes "old") ∷ [])

abbrev unauthorized : Thrown
unauthorized =
    axios_error (some (record { status = 401; message = none; detail = some (codes "expired") }))
      (codes "Request failed")

abbrev conflict : Thrown
conflict =
    axios_error (some (record { status = 409; message = some []; detail = some (codes "taken") }))
      []

signed_in_panel :
    (sign_in jar_of_entries (resolved ann) blank).session.auth.access_token ≡ codes "t1"
unfolding sign_in
signed_in_panel = refl

conflict_text : server_error_text conflict ≡ codes "taken"
unfolding server_error_text
conflict_text = refl

expired_toasts :
    (mutation_on_error jar_of_entries unauthorized blank).toasts
    ≡ codes "expired" ∷ codes "Session expired!" ∷ []
unfolding mutation_on_error
expired_toasts = refl

no_content_object : server_error_text (object (some 204)) ≡ codes "Content not found."
unfolding server_error_text
no_content_object = refl

abbrev visit : List Event
visit = signing_in (resolved ann) ∷ mutation_failed conflict ∷ logging_out ∷ []

handle_all-Synced_example : Synced jar_of_entries (handle_all jar_of_entries visit blank).session
handle_all-Synced_example = handle_all-Synced jar_of_entries visit ((token_key, codes "old") ∷ [])

sign_request-handle_all_example :
    let s = (handle_all jar_of_entries visit blank).session in
    sign_request jar_of_entries s.jar none
    ≡ (if truthy s.auth.access_token then some (codes "Bearer " ++ s.auth.access_token) else none)
sign_request-handle_all_example =
    sign_request-handle_all jar_of_entries visit ((token_key, codes "old") ∷ []) none

sign_in_starts_session_example :
    let q = sign_in jar_of_entries (resolved ann) blank in
    (sign_request jar_of_entries q.session.jar none ≡ some (codes "Bearer t1"))
    × (q.session.auth.admin ≡ some (record { user_id = 4; username = codes "ann" }))
    × (find username_key q.session.jar ≡ some (codes "ann"))
sign_in_starts_session_example = sign_in_starts_session jar_of_entries ann blank none (cc)

log_out_leaves_name_example :
    let q = log_out jar_of_entries blank in
    (sign_request jar_of_entries q.session.jar none ≡ none)
    × (q.session.auth.admin ≡ blank.session.auth.admin)
    × (find username_key q.session.jar ≡ find username_key blank.session.jar)
    × ((update_profile jar_of_entries (resolved tt) blank).session ≡ q.session)
log_out_leaves_name_example = log_out_leaves_name jar_of_entries blank none

unauthorized_signs_out_example :
    let q = mutation_on_error jar_of_entries unauthorized blank in
    (sign_request jar_of_entries q.session.jar none ≡ none)
    × (q.session.auth.admin ≡ none)
    × (find username_key q.session.jar ≡ none)
    × (shown_page jar_of_entries q ≡ some (codes "/sign-in"))
unauthorized_signs_out_example = unauthorized_signs_out jar_of_entries unauthorized blank none refl

abbrev conflict_response : Option HttpResponse
conflict_response = some (record { status = 409; message = some []; detail = some (codes "taken") })
