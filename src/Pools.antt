-- ===== src/Pools.antt =====
-- ui/src/features/ip-pools/components/pool-form.tsx: what the form of an address pool submits.
use wgpanelne.Prelude.{
  ℕ, ◌≡◌, refl, ◌∙◌, ap, Bool, true, false, Option, none, some, List, [], ◌∷◌, ◌++◌, if◌then◌else◌,
  arith, Bool-cases, inl, inr,
}
use wgpanelne.Js.Strings.{Text, codes, ends_with, ends_with-append, text_eq, text_eq_iff}
use wgpanelne.Auth.Cookies.{Cookies}
use wgpanelne.Auth.Errors.{Panel}
use wgpanelne.Zod.Values.{Value, str, obj, Fields, end, field, get_field}
use wgpanelne.Zod.Interface.{Zod}
use wgpanelne.Api.Client.{Backend}
use wgpanelne.Hooks.Cache.{QueryClient, mutate}
use wgpanelne.Hooks.Mutations.{use_create_ip_pool_mutation, use_update_ip_pool_mutation}
use wgpanelne.Forms.Submit.{Submission, by_handler, finish}
pub mod Choice
mod Tests

abbrev pub mask : Text
mask = codes "/32"

-- `ip.endsWith('/32') ? ip : `${ip}/32``
unfoldable pub with_mask : Text → Text
with_mask ip = if ends_with ip mask then ip else ip ++ mask

-- `{ ...values, [k]: v }`
unfoldable pub set_field : Text → Value → Fields → Fields
set_field k v end = field k v end
set_field k v (field j u fs) =
    let rest = set_field k v fs in if text_eq k j then field j v fs else field j u rest

-- The values of the form: the two addresses, and all fields in their order.
pub record PoolValues : Type 0 where
  pub id : ℕ
  pub start_ip : Text
  pub end_ip : Text
  pub fields : Fields

unfoldable pub patched_values : PoolValues → Fields
unfolding set_field with_mask
patched_values values =
    set_field (codes "end_ip") (str (with_mask values.end_ip))
      (set_field (codes "start_ip") (str (with_mask values.start_ip)) values.fields)

module _ (client : QueryClient) (C : Cookies) (z : Zod) where
  unfoldable pub on_submit :
      Bool → PoolValues → Backend → client.Cache × Panel C → Submission client.Cache (Panel C)
  unfolding patched_values
  on_submit true values backend before =
      finish client C by_handler (codes "Pool updated successfully.") (
        mutate client C (use_update_ip_pool_mutation z) (values.id, patched_values values) backend
          before)
  on_submit false values backend before =
      finish client C by_handler (codes "Pool created successfully.") (
        mutate client C (use_create_ip_pool_mutation z) (obj (patched_values values)) backend
          before)

-- The mask is there in the end, and it is never written twice.
with_mask_lem :
    (ip : Text)
    → (ends_with (with_mask ip) mask ≡ true)
      × (with_mask (with_mask ip) ≡ with_mask ip)
      × (with_mask (ip ++ mask) ≡ ip ++ mask)
unfolding with_mask
with_mask_lem ip = elim (Bool-cases (ends_with ip mask)) [
  | inl h ↦ (rw h h, rw h (rw h refl), rw (ends_with-append ip mask) refl)
  | inr h ↦ (
    rw h (ends_with-append ip mask),
    rw h (rw (ends_with-append ip mask) refl),
    rw (ends_with-append ip mask) refl,
  )
]

get_field-set_field :
    (j k : Text) (v : Value) (fs : Fields)
    → get_field j (set_field k v fs) ≡ (if text_eq j k then some v else get_field j fs)
unfolding set_field get_field
get_field-set_field j k v end = ground arith
get_field-set_field j k v (field i u fs) =
    ground (arith, get_field-set_field j k v fs, text_eq_iff j k, text_eq_iff k i, text_eq_iff j i)

-- An address with its mask: the mask is at the end, and putting it there again changes nothing.
abbrev pub IsMasked : Text → Type 0
IsMasked ip = (ends_with ip mask ≡ true) × (with_mask ip ≡ ip)

-- What the form submits has both addresses with their masks, each written once, whether the user
-- wrote them or not, and every other field as it is in the form.
patched_values_lem :
    (values : PoolValues) (k : Text)
    → text_eq k (codes "start_ip") ≡ false
    → text_eq k (codes "end_ip") ≡ false
    → (get_field (codes "start_ip") (patched_values values)
        ≡ some (str (with_mask values.start_ip)))
      × (get_field (codes "end_ip") (patched_values values) ≡ some (str (with_mask values.end_ip)))
      × IsMasked (with_mask values.start_ip)
      × IsMasked (with_mask values.end_ip)
      × (get_field k (patched_values values) ≡ get_field k values.fields)
unfolding patched_values text_eq
patched_values_lem values k hs he =
    let (sm, ss, _) = with_mask_lem values.start_ip in
    let (em, ee, _) = with_mask_lem values.end_ip in
    (
      get_field-set_field (codes "start_ip") (codes "end_ip") (str (with_mask values.end_ip)) inner
          ∙ get_field-set_field (codes "start_ip") (codes "start_ip")
              (str (with_mask values.start_ip)) values.fields,
      get_field-set_field (codes "end_ip") (codes "end_ip") (str (with_mask values.end_ip)) inner,
      (sm, ss),
      (em, ee),
      rw
          (
            get_field-set_field k (codes "end_ip") (str (with_mask values.end_ip)) inner,
            get_field-set_field k (codes "start_ip") (str (with_mask values.start_ip))
                values.fields,
            hs,
            he,
          )
          refl,
    )
  where
    inner : Fields
    inner = set_field (codes "start_ip") (str (with_mask values.start_ip)) values.fields
