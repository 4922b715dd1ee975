-- ===== src/Api/Lists.antt =====
-- The list calls: what they make of every answer.
use wgpanelne.Prelude.{◌≡◌, refl, sym, ap, ◌∙◌, ◌⊎◌, inl, inr, Option, none, some, List, [], ◌∷◌}
use wgpanelne.Js.Strings.{Text, codes, text_eq}
use wgpanelne.Auth.Errors.{Thrown, object, Outcome, resolved, rejected}
use wgpanelne.Zod.Values.{Value, null, bool, num, str, arr, obj, Items, nil, get_field}
use wgpanelne.Zod.Syntax.{Schema, Shape, nullable, array, number, entry, done}
use wgpanelne.Zod.Interface.{Parsed, Zod, parse_items}
use wgpanelne.Zod.Laws.{>>=-eq-some, object_sound}
use wgpanelne.Zod.Shapes.{parse_shape-get_field}
use wgpanelne.Schema.ApiResponse.{create_api_response_schema, api_status_enum}
use wgpanelne.Api.Client.{
  Api, Backend, Request, after, continue_with, or_throw, send, parse, data_of, or_empty, return,
  ◌>>=◌,
}
use wgpanelne.Schema.Peers.{peers_response_schema}
use wgpanelne.Schema.Interfaces.{interfaces_response_schema}
use wgpanelne.Schema.IpPool.{ip_pools_response_schema}
use wgpanelne.Schema.Servers.{servers_response_schema}
use wgpanelne.Schema.Sync.{sync_peers_response_schema, sync_interfaces_response_schema}
use wgpanelne.Api.Peers.{fetch_peers_list, fetch_sync_peers}
use wgpanelne.Api.Interfaces.{fetch_interfaces_list, fetch_sync_interfaces}
use wgpanelne.Api.IpPool.{fetch_ip_pools_list}
use wgpanelne.Api.Servers.{fetch_servers_list}

abbrev pub IsArray : Option Value → Type 0
IsArray v = (vs : Items) × (v ≡ some (arr vs))

-- The fields of every reply.
abbrev reply_shape : Schema → Shape
reply_shape s =
    entry (codes "statusCode") number
      (entry (codes "status") api_status_enum (entry (codes "data") s done))

module _ (z : Zod) where
  data_of-parse :
      (s : Schema) (v : Option Value) {w : Option Value}
      → z.parse (create_api_response_schema s) v ≡ some w
      → (u : Option Value) × (z.parse s u ≡ some (data_of w))
  unfolding text_eq
  data_of-parse s v {w} e =
      let (fs, gs, _, inside, same) = object_sound z (reply_shape s) v e in
      let own = parse_shape-get_field z (reply_shape s) fs refl inside (codes "data") s refl in
      (get_field (codes "data") fs, own ∙ ap (λ u. some (data_of u)) (sym same))

  array-IsArray :
      (s : Schema) (v : Option Value) {w : Option Value} → z.parse (array s) v ≡ some w → IsArray w
  array-IsArray s none e = cc (z.parse-array s none)
  array-IsArray s (some (arr vs)) {w} e =
      let (ws, _, same) =
        >>=-eq-some (parse_items (z.parse s) vs) _ (rw (z.parse-array s (some (arr vs))) at e) in
      (ws, cc)
  array-IsArray s (some null) e = cc (z.parse-array s (some null))
  array-IsArray s (some (bool b)) e = cc (z.parse-array s (some (bool b)))
  array-IsArray s (some (num n)) e = cc (z.parse-array s (some (num n)))
  array-IsArray s (some (str t)) e = cc (z.parse-array s (some (str t)))
  array-IsArray s (some (obj fs)) e = cc (z.parse-array s (some (obj fs)))

  nullable_array :
      (s : Schema) (v : Option Value) {w : Option Value}
      → z.parse (nullable (array s)) v ≡ some w
      → (w ≡ some null) ⊎ IsArray w
  nullable_array s (some null) e = inl (cc (z.parse-nullable (array s) (some null)))
  nullable_array s v e = inr (array-IsArray s v (rw (z.parse-nullable (array s) v) at e))

  -- The list calls have this form.
  abbrev list_call : Request → Schema → Api Value
  list_call r s = do reply ← send r; parsed ← parse z s reply; return (or_empty (data_of parsed))

  -- What a list call makes of a reply that the schema turned into `w`: its array, or an empty one for
  -- null.
  abbrev pub Listed : Option Value → Outcome Value → Type 0
  Listed w o =
      ((data_of w ≡ some null) × (o ≡ resolved (arr nil)))
      ⊎ ((vs : Items) × (data_of w ≡ some (arr vs)) × (o ≡ resolved (arr vs)))

  -- One request was sent. If it was refused, the call throws that error; if the schema refuses the
  -- reply, the call throws; otherwise the call ends in the array of the reply.
  abbrev pub EndsInArray : Schema → Backend → List Request × Outcome Value → Type 0
  EndsInArray s backend call =
      (r : Request) × (call.0 ≡ r ∷ [])
      × (((e : Thrown) × (backend r ≡ rejected e) × (call.1 ≡ rejected e))
          ⊎ ((v : Value) × (backend r ≡ resolved v)
              × (((z.parse s (some v) ≡ none) × (call.1 ≡ rejected (object none)))
                  ⊎ ((w : Option Value) × (z.parse s (some v) ≡ some w) × Listed w call.1))))

  or_empty-Listed :
      (w : Option Value)
      → (data_of w ≡ some null) ⊎ IsArray (data_of w)
      → Listed w (resolved (or_empty (data_of w)))
  or_empty-Listed w (inl e) = inl (e, ap (λ d. resolved (or_empty d)) e)
  or_empty-Listed w (inr (vs, e)) = inr (vs, e, ap (λ d. resolved (or_empty d)) e)

  list_call-EndsInArray :
      (r : Request) (s : Schema) (backend : Backend)
      → ((v : Option Value) (w : Option Value) → z.parse s v ≡ some w → (w ≡ some null) ⊎ IsArray w)
      → EndsInArray
          (create_api_response_schema s)
          backend
          (list_call r (create_api_response_schema s) backend)
  list_call-EndsInArray r s backend h = replied (backend r) refl
    where
      response : Schema
      response = create_api_response_schema s

      from_reply : Outcome Value → List Request × Outcome Value
      from_reply o =
          continue_with (r ∷ [], o)
            (λ reply. parse z response reply >>= λ parsed. return (or_empty (data_of parsed)))
            backend

      from_parsed : Parsed → List Request × Outcome Value
      from_parsed q =
          after (r ∷ []) ((or_throw q >>= λ parsed. return (or_empty (data_of parsed))) backend)

      parsed_as :
          (v : Value) (q : Parsed)
          → backend r ≡ resolved v
          → z.parse response (some v) ≡ q
          → EndsInArray response backend (from_parsed q)
      parsed_as v none b e = (r, refl, inr (v, b, inl (e, refl)))
      parsed_as v (some w) b e =
          let (u, own) = data_of-parse s (some v) e in
          (r, refl, inr (v, b, inr (w, e, or_empty-Listed w (h u (data_of w) own))))

      replied : (o : Outcome Value) → backend r ≡ o → EndsInArray response backend (from_reply o)
      replied (resolved v) b = parsed_as v (z.parse response (some v)) b refl
      replied (rejected e) b = (r, refl, inl (e, b, refl))

  -- Each of the six list calls sends one request. If the backend refuses it, the call throws that
  -- error, and if the schema of the call refuses the reply, it throws, too; otherwise it ends in the
  -- array that is the reply's `data`, or in an empty array where `data` is null.
  pub list_calls-EndsInArray :
      (backend : Backend) (interface_name : Option Text)
      → EndsInArray peers_response_schema backend (fetch_peers_list z backend)
        × EndsInArray interfaces_response_schema backend (fetch_interfaces_list z backend)
        × EndsInArray ip_pools_response_schema backend (fetch_ip_pools_list z backend)
        × EndsInArray servers_response_schema backend (fetch_servers_list z backend)
        × EndsInArray sync_peers_response_schema backend (fetch_sync_peers z interface_name backend)
        × EndsInArray sync_interfaces_response_schema backend (fetch_sync_interfaces z backend)
  unfolding fetch_peers_list fetch_interfaces_list fetch_ip_pools_list fetch_servers_list
      fetch_sync_peers fetch_sync_interfaces
  list_calls-EndsInArray backend interface_name = (
    list_call-EndsInArray _ _ backend (λ v w. nullable_array _ v),
    list_call-EndsInArray _ _ backend (λ v w. nullable_array _ v),
    list_call-EndsInArray _ _ backend (λ v w. nullable_array _ v),
    list_call-EndsInArray _ _ backend (λ v w. nullable_array _ v),
    list_call-EndsInArray _ _ backend (λ v w e. inr (array-IsArray _ v e)),
    list_call-EndsInArray _ _ backend (λ v w e. inr (array-IsArray _ v e)),
  )
