-- ===== src/Api/Client.antt =====
-- A call of the backend: the requests that it sends, in order, and how it ends. The backend behind
-- axios is a parameter, a function from the request; it stands for all that the network and the
-- server do. A reply is the field `data` of the axios response; a request that fails throws.
use wgpanelne.Prelude.{ℕ, Bool, true, false, Option, none, some, List, [], ◌∷◌, ◌++◌}
use wgpanelne.Prelude.Int.{pos}
use wgpanelne.Js.Strings.{Text, codes}
use wgpanelne.Auth.Errors.{object, Outcome, resolved, rejected}
use wgpanelne.Zod.Values.{Value, null, bool, num, str, arr, obj, nil, Fields, end, field, get_field}
use wgpanelne.Zod.Syntax.{Schema}
use wgpanelne.Zod.Interface.{Parsed, Zod}

pub data Method : Type 0 where
  get post put patch delete : Method

pub record Request : Type 0 where
  pub method : Method
  pub path : Text
  pub body : Option Value
  -- `params`, and whether `responseType` is `'blob'`
  pub params : Fields
  pub blob : Bool

abbrev pub Backend : Type 0
Backend = Request → Outcome Value

abbrev pub Api {ℓ} : Type ℓ → Type ℓ
Api A = Backend → List Request × Outcome A

abbrev pub after {ℓ} :
    {B : Type ℓ} → List Request → List Request × Outcome B → List Request × Outcome B
after sent (more, o) = (sent ++ more, o)

abbrev pub continue_with {ℓ κ} :
    {A : Type ℓ} {B : Type κ}
    → List Request × Outcome A
    → (A → Api B)
    → Backend
    → List Request × Outcome B
continue_with (sent, resolved a) f backend = after sent (f a backend)
continue_with (sent, rejected e) f backend = (sent, rejected e)

infixl 5 ◌>>=◌ ◌>>◌
abbrev pub ◌>>=◌ {ℓ κ} : {A : Type ℓ} {B : Type κ} → Api A → (A → Api B) → Api B
◌>>=◌ m f backend = continue_with (m backend) f backend

abbrev pub ◌>>◌ {ℓ κ} : {A : Type ℓ} {B : Type κ} → Api A → Api B → Api B
m >> k = m >>= λ _. k

abbrev pub return {ℓ} : {A : Type ℓ} → A → Api A
return a backend = ([], resolved a)

abbrev pub request : Method → Text → Request
request m path = record { method = m; path = path; body = none; params = end; blob = false }

abbrev pub request_with : Method → Text → Option Value → Request
request_with m path body = record {
  method = m;
  path = path;
  body = body;
  params = end;
  blob = false;
}

abbrev pub request_blob : Method → Text → Request
request_blob m path = record { method = m; path = path; body = none; params = end; blob = true }

abbrev pub send : Request → Api Value
send r backend = (r ∷ [], backend r)

abbrev pub or_throw : Parsed → Api (Option Value)
or_throw none backend = ([], rejected (object none))
or_throw (some v) backend = ([], resolved v)

-- `schema.parse(v)`; a `ZodError` is an object with no field `status`.
abbrev pub parse : Zod → Schema → Value → Api (Option Value)
parse z s v = or_throw (z.parse s (some v))

abbrev pub with_id : ℕ → Fields → Fields
with_id id fs = field (codes "id") (num (pos id)) fs

-- `${uuid}` for a text that may be missing.
abbrev pub or_undefined : Option Text → Text
or_undefined none = codes "undefined"
or_undefined (some t) = t

-- `parsed.data`
abbrev pub data_of : Option Value → Option Value
data_of (some (obj fs)) = get_field (codes "data") fs
data_of _ = none

-- `v || []`
abbrev pub or_empty : Option Value → Value
or_empty none = arr nil
or_empty (some null) = arr nil
or_empty (some (bool false)) = arr nil
or_empty (some (num (pos ℕ.zero))) = arr nil
or_empty (some (str [])) = arr nil
or_empty (some v) = v
