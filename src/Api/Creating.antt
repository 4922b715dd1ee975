-- ===== src/Api/Creating.antt =====
-- What leaves the browser when something is created.
use wgpanelne.Prelude.{ℕ, ◌≡◌, refl, true, Option, none, some, List, [], ◌∷◌}
use wgpanelne.Js.Strings.{Text}
use wgpanelne.Auth.Errors.{object, Outcome, resolved, rejected}
use wgpanelne.Zod.Values.{Value, obj, Fields, get_field}
use wgpanelne.Zod.Syntax.{Schema, Shape, string, number, min_length, min_number}
use wgpanelne.Zod.Syntax
use wgpanelne.Zod.Interface.{Parsed, Zod}
use wgpanelne.Zod.Laws.{IsTextOf, IsNumberFrom, min_length_sound, min_number_sound, object_sound}
use wgpanelne.Zod.Shapes.{has_distinct_names, schema_of, parse_shape-get_field}
use wgpanelne.Api.Client.{
  Api, Backend, Request, post, request_with, send, or_throw, parse, data_of, return, continue_with,
  ◌>>=◌,
}

-- The requests of a creation: none if the schema refuses the value, else one.
abbrev pub creation : Text → Parsed → List Request
creation path none = []
creation path (some body) = request_with post path body ∷ []

module _ (z : Zod) where
  -- The four creations have this form.
  abbrev pub create : Text → Schema → Schema → Value → Api (Option Value)
  create path cs rs v = do
    validated ← parse z cs v
    reply ← send (request_with post path validated)
    parsed ← parse z rs reply
    return (data_of parsed)

  pub create-creation :
      (path : Text) (cs rs : Schema) (v : Value) (backend : Backend)
      → (create path cs rs v backend).0 ≡ creation path (z.parse cs (some v))
  create-creation path cs rs v backend = go (z.parse cs (some v))
    where
      replied :
          (o : Outcome Value) (r : Request)
          → (continue_with
              (r ∷ [], o)
              (λ reply. parse z rs reply >>= λ parsed. return (data_of parsed))
              backend).0
            ≡ r ∷ []
      replied (resolved reply) r = last (z.parse rs (some reply))
        where
          last :
              (q : Parsed)
              → (continue_with
                  (r ∷ [], resolved reply)
                  (λ reply. or_throw q >>= λ parsed. return (data_of parsed))
                  backend).0
                ≡ r ∷ []
          last none = refl
          last (some w) = refl
      replied (rejected e) r = refl

      go :
          (q : Parsed)
          → ((or_throw q >>= λ validated. send (request_with post path validated) >>= λ reply.
                parse z rs reply >>= λ parsed. return (data_of parsed))
              backend).0
            ≡ creation path q
      go none = refl
      go (some w) = replied (backend (request_with post path w)) (request_with post path w)

  pub refused_create :
      (path : Text) (cs rs : Schema) (v : Value) (backend : Backend)
      → z.parse cs (some v) ≡ none
      → create path cs rs v backend ≡ ([], rejected (object none))
  refused_create path cs rs v backend h = rw h

  module _ (sh : Shape) (distinct : has_distinct_names sh ≡ true) (v : Value) {w : Option Value}
      (parsed : z.parse (Syntax.object sh) (some v) ≡ some w) where
    pub body_of : (gs : Fields) × (w ≡ some (obj gs))
    body_of = let (fs, gs, _, _, e) = object_sound z sh (some v) parsed in (gs, e)

    pub text_field :
        (n : ℕ) (t : Text) (k : Text)
        → schema_of k sh ≡ some (min_length n t string)
        → IsTextOf n (get_field k body_of.0)
    unfolding body_of
    text_field n t k found =
        let (fs, gs, _, inside, _) = object_sound z sh (some v) parsed in
        let own = parse_shape-get_field z sh fs distinct inside k (min_length n t string) found in
        let (ok, same) = min_length_sound z n t (get_field k fs) own in rw same ok

    pub number_field :
        (n : ℕ) (t : Text) (k : Text)
        → schema_of k sh ≡ some (min_number n t number)
        → IsNumberFrom n (get_field k body_of.0)
    unfolding body_of
    number_field n t k found =
        let (fs, gs, _, inside, _) = object_sound z sh (some v) parsed in
        let own = parse_shape-get_field z sh fs distinct inside k (min_number n t number) found in
        let (ok, same) = min_number_sound z n t (get_field k fs) own in rw same ok

-- At most one request, and that one is as `P` says.
abbrev pub AtMostOne : (Request → Type 0) → List Request → Type 0
AtMostOne P [] = Unit
AtMostOne P (r ∷ rs) = P r × (rs ≡ [])

pub creation-AtMostOne :
    (P : Request → Type 0) (path : Text) (q : Parsed)
    → ((w : Option Value) → q ≡ some w → P (request_with post path w))
    → AtMostOne P (creation path q)
creation-AtMostOne P path none h = tt
creation-AtMostOne P path (some w) h = (h w refl, refl)
