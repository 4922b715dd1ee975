-- ===== src/Api/Routes.antt =====
-- The request of a call on one peer tells which call it is and which peer is meant.
use mathlib.Core.Path.{subst}
use mathlib.Core.List.{append_cancel_left, head-eq_of_cons-eq}
use wgpanelne.Prelude.{
  ℕ, if◌then◌else◌, ◌≡◌, refl, sym, ap, ◌∙◌, Bool, true, false, none, List, [], ◌∷◌, ◌++◌,
  append-nil, append_assoc,
}
use wgpanelne.Js.Strings.{Text, codes, text_eq}
use wgpanelne.Js.Decimal.{to_string, value_from}
use wgpanelne.Js.Decimal.Laws.{value_from-to_string}
use wgpanelne.Auth.Errors.{Outcome, resolved, rejected}
use wgpanelne.Zod.Values.{Value, end}
use wgpanelne.Api.Client.{
  Backend, Method, get, patch, delete, Request, continue_with, send, return, ◌>>◌,
}
use wgpanelne.Api.Peers.{
  update_peer_status, update_peer_share_status, delete_peer, reset_peer_usage, fetch_peer_config,
}

-- The calls that take only the identifier of a peer.
pub data PeerCall : Type 0 where
  status share_status remove reset_usage config : PeerCall

abbrev method_of : PeerCall → Method
method_of remove = delete
method_of config = get
method_of _ = patch

abbrev suffix_of : PeerCall → Text
suffix_of status = codes "/status"
suffix_of share_status = codes "/share/status"
suffix_of remove = []
suffix_of reset_usage = codes "/reset-usage"
suffix_of config = codes "/config"

-- The requests that the call sends.
unfoldable pub requests_of : PeerCall → ℕ → Backend → List Request
requests_of status id backend = (update_peer_status id backend).0
requests_of share_status id backend = (update_peer_share_status id backend).0
requests_of remove id backend = (delete_peer id backend).0
requests_of reset_usage id backend = (reset_peer_usage id backend).0
requests_of config id backend = (fetch_peer_config id backend).0

abbrev is_blob : PeerCall → Bool
is_blob config = true
is_blob _ = false

abbrev request_of : PeerCall → ℕ → Request
request_of c id = record {
  method = method_of c;
  path = codes "/peer/" ++ (to_string id ++ suffix_of c);
  body = none;
  params = end;
  blob = is_blob c;
}

sent_once :
    (r : Request) (backend : Backend) → ((send r >> return {A = Unit {0}} tt) backend).0 ≡ r ∷ []
sent_once r backend = go (backend r)
  where
    go :
        (o : Outcome Value)
        → (continue_with (r ∷ [], o) (λ _. return {A = Unit {0}} tt) backend).0 ≡ r ∷ []
    go (resolved v) = refl
    go (rejected e) = refl

requests_of-request_of :
    (c : PeerCall) (id : ℕ) (backend : Backend) → requests_of c id backend ≡ request_of c id ∷ []
unfolding requests_of update_peer_status update_peer_share_status delete_peer reset_peer_usage
    fetch_peer_config
requests_of-request_of status id backend =
    rw sent_once (rw (append_assoc (codes "/peer/") (to_string id) _))
requests_of-request_of share_status id backend =
    rw sent_once (rw (append_assoc (codes "/peer/") (to_string id) _))
requests_of-request_of remove id backend = rw sent_once (rw append-nil)
requests_of-request_of reset_usage id backend =
    rw sent_once (rw (append_assoc (codes "/peer/") (to_string id) _))
requests_of-request_of config id backend = rw (append_assoc (codes "/peer/") (to_string id) _)

value-suffix_of : (c : PeerCall) (id : ℕ) → value_from 0 (to_string id ++ suffix_of c) ≡ id
unfolding value_from
value-suffix_of status id = value_from-to_string id (suffix_of status)
value-suffix_of share_status id = value_from-to_string id (suffix_of share_status)
value-suffix_of remove id = value_from-to_string id (suffix_of remove)
value-suffix_of reset_usage id = value_from-to_string id (suffix_of reset_usage)
value-suffix_of config id = value_from-to_string id (suffix_of config)

call_of : Text → PeerCall
call_of s =
    if text_eq s []
    then remove
    else if text_eq s (codes "/share/status")
    then share_status
    else if text_eq s (codes "/reset-usage")
    then reset_usage
    else if text_eq s (codes "/config")
    then config
    else status

call_of-suffix_of : (c : PeerCall) → call_of (suffix_of c) ≡ c
unfolding call_of text_eq
call_of-suffix_of status = refl
call_of-suffix_of share_status = refl
call_of-suffix_of remove = refl
call_of-suffix_of reset_usage = refl
call_of-suffix_of config = refl

-- If two calls on peers send the same requests, they are the same call on the same peer: no
-- identifier and no path is mistaken for another.
requests_of-injective :
    (c d : PeerCall) (m n : ℕ) (backend : Backend)
    → requests_of c m backend ≡ requests_of d n backend
    → (c ≡ d) × (m ≡ n)
requests_of-injective c d m n backend e =
    let same : request_of c m ∷ [] ≡ request_of d n ∷ [] =
      sym (requests_of-request_of c m backend) ∙ e ∙ requests_of-request_of d n backend in
    let one : request_of c m ≡ request_of d n = head-eq_of_cons-eq same in
    let rest : to_string m ++ suffix_of c ≡ to_string n ++ suffix_of d =
      append_cancel_left (codes "/peer/") _ _ (ap (λ r. r.path) one) in
    let number : m ≡ n = sym (value-suffix_of c m) ∙ ap (value_from 0) rest ∙ value-suffix_of d n in
    let suffix : suffix_of c ≡ suffix_of d =
      append_cancel_left (to_string n) _ _
        (subst (λ k. to_string k ++ suffix_of c ≡ to_string n ++ suffix_of d) number rest) in
    (sym (call_of-suffix_of c) ∙ ap call_of suffix ∙ call_of-suffix_of d, number)
