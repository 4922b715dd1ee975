-- ===== src/Auth/Expiry.antt =====
-- Which failures end a session, and what the user is told.
use wgpanelne.Prelude.{
  ◌≡◌, ◌≢◌, refl, ◌∙◌, ap, Bool, true, false, Option, none, some, List, [], ◌∷◌, arith, ◌==◌,
  if◌then◌else◌,
}
use wgpanelne.Js.Strings.{Text, codes, text_eq, text_eq_refl}
use wgpanelne.Auth.Cookies.{Cookies}
use wgpanelne.Auth.Store.{Session, token_key, username_key, reset}
use wgpanelne.Auth.Requests.{sign_request}
use wgpanelne.Auth.Errors.{
  HttpResponse, Thrown, axios_error, object, primitive, Panel, or_text, server_error_text,
  status_of, handle_global_http_error, mutation_on_error,
}

-- A response that says that the token is no longer good.
abbrev pub is_unauthorized : Thrown → Bool
is_unauthorized (axios_error response message) = status_of response == 401
is_unauthorized (object status) = false
is_unauthorized primitive = false

module _ (C : Cookies) where
  pub global-session :
      (e : Thrown) (p : Panel C)
      → (handle_global_http_error C e p).session
        ≡ (if is_unauthorized e then reset C p.session else p.session)
  unfolding handle_global_http_error
  global-session (axios_error response message) p = ground arith
  global-session (object status) p = refl
  global-session primitive p = refl

  pub mutation-session :
      (e : Thrown) (p : Panel C)
      → (mutation_on_error C e p).session
        ≡ (if is_unauthorized e then reset C p.session else p.session)
  unfolding mutation_on_error
  mutation-session (axios_error none message) p = refl
  mutation-session (axios_error (some r) message) p = ground arith
  mutation-session (object status) p = refl
  mutation-session primitive p = refl

  signed_out :
      (s : Session C) (header : Option Text) → sign_request C (reset C s).jar header ≡ header
  unfolding sign_request reset
  signed_out s header = simp (C.get-remove, text_eq_refl, other)
    where
      other : text_eq token_key username_key ≡ false
      other = unfold text_eq in refl

  forgotten : (s : Session C) → C.get username_key (reset C s).jar ≡ none
  unfolding reset
  forgotten s = rw (C.get-remove, text_eq_refl username_key)

  reset-admin : (s : Session C) → (reset C s).auth.admin ≡ none
  unfolding reset
  reset-admin s = refl

  -- The page that the latest navigation leads to.
  abbrev pub shown_page : Panel C → Option Text
  shown_page p = elim p.navigations [ [] ↦ none | n ∷ _ ↦ some n.to ]

  unauthorized-shown_page :
      (e : Thrown) (p : Panel C)
      → is_unauthorized e ≡ true
      → shown_page (mutation_on_error C e p) ≡ some (codes "/sign-in")
  unfolding mutation_on_error
  unauthorized-shown_page (axios_error none message) p h = ground arith
  unauthorized-shown_page (axios_error (some r) message) p h = ground arith
  unauthorized-shown_page (object status) p h = cc
  unauthorized-shown_page primitive p h = cc

  -- A mutation that the server answers with 401 signs the user out: whatever headers the next
  -- request has, the interceptor adds no `Authorization`; the administrator is forgotten, in the
  -- store and in the cookie `username`; and the panel goes to the sign-in page.
  pub unauthorized_signs_out :
      (e : Thrown) (p : Panel C) (header : Option Text)
      → is_unauthorized e ≡ true
      → (sign_request C (mutation_on_error C e p).session.jar header ≡ header)
        × ((mutation_on_error C e p).session.auth.admin ≡ none)
        × (C.get username_key (mutation_on_error C e p).session.jar ≡ none)
        × (shown_page (mutation_on_error C e p) ≡ some (codes "/sign-in"))
  unauthorized_signs_out e p header h =
      let now : (mutation_on_error C e p).session ≡ reset C p.session =
        rw (mutation-session e p, h) in
      (
        rw now (signed_out p.session header),
        rw now (reset-admin p.session),
        rw now (forgotten p.session),
        unauthorized-shown_page e p h,
      )

  -- Every other failure leaves the cookies and the store as they are, whether a query or a
  -- mutation failed.
  other_failure_keeps_session :
      (e : Thrown) (p : Panel C)
      → is_unauthorized e ≡ false
      → ((handle_global_http_error C e p).session ≡ p.session)
        × ((mutation_on_error C e p).session ≡ p.session)
  other_failure_keeps_session e p h = (rw (global-session e p, h), rw (mutation-session e p, h))

-- The first text of the list that is not empty.
abbrev pub first_truthy : List (Option Text) → Text → Text
first_truthy [] default = default
first_truthy (none ∷ ts) default = first_truthy ts default
first_truthy (some [] ∷ ts) default = first_truthy ts default
first_truthy (some (c ∷ t) ∷ ts) default = c ∷ t

-- What the server and axios say about a failure, the most specific first.
abbrev pub reasons : Option HttpResponse → Text → List (Option Text)
reasons none message = some message ∷ []
reasons (some r) message = r.message ∷ r.detail ∷ some message ∷ []

or_text-first_truthy :
    (a : Option Text) (ts : List (Option Text)) (d : Text)
    → or_text a (first_truthy ts d) ≡ first_truthy (a ∷ ts) d
or_text-first_truthy none ts d = refl
or_text-first_truthy (some []) ts d = refl
or_text-first_truthy (some (c ∷ t)) ts d = refl

first_truthy-ne-nil : (ts : List (Option Text)) (d : Text) → d ≢ [] → first_truthy ts d ≢ []
first_truthy-ne-nil [] d h = h
first_truthy-ne-nil (none ∷ ts) d h = first_truthy-ne-nil ts d h
first_truthy-ne-nil (some [] ∷ ts) d h = first_truthy-ne-nil ts d h
first_truthy-ne-nil (some (c ∷ t) ∷ ts) d h = cc

axios-first_truthy :
    (response : Option HttpResponse) (message : Text)
    → server_error_text (axios_error response message)
      ≡ first_truthy (reasons response message) (codes "Something went wrong")
unfolding server_error_text
axios-first_truthy none message = or_text-first_truthy (some message) [] _
axios-first_truthy (some r) message =
    let default = codes "Something went wrong" in
    ap (λ t. or_text r.message (or_text r.detail t))
      (or_text-first_truthy (some message) [] default)
    ∙ ap (or_text r.message) (or_text-first_truthy r.detail (some message ∷ []) default)
    ∙ or_text-first_truthy r.message (r.detail ∷ some message ∷ []) default

-- For a failed HTTP request the user reads the first of the server's `message`, the server's
-- `detail` and axios' own message that is not empty, or a fixed text; and for no thrown value is
-- the text empty.
server_error_text_lem :
    (response : Option HttpResponse) (message : Text) (e : Thrown)
    → (server_error_text (axios_error response message)
        ≡ first_truthy (reasons response message) (codes "Something went wrong"))
      × (server_error_text e ≢ [])
server_error_text_lem response message e = (axios-first_truthy response message, shown e)
  where
    default-ne-nil : codes "Something went wrong" ≢ []
    default-ne-nil = cc

    shown : (e : Thrown) → server_error_text e ≢ []
    shown (axios_error response message) =
        rw (axios-first_truthy response message)
          (first_truthy-ne-nil (reasons response message) _ default-ne-nil)
    shown (object none) = unfold server_error_text in cc
    shown (object (some status)) = unfold server_error_text in ground arith
    shown primitive = unfold server_error_text in cc
