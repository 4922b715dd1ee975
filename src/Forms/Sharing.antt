-- ===== src/Forms/Sharing.antt =====
-- ui/src/features/peers/components/dialogs/peers-share-dialog.tsx: the link of a shared peer, and
-- the two changes of how it is shared.
use wgpanelne.Prelude.{ℕ, ◌≡◌, refl, Bool, true, false, Option, none, some, List, [], ◌∷◌, ◌++◌}
use mathlib.Core.List.{append_cancel_left}
use wgpanelne.Js.Strings.{Text, codes, truthy}
use wgpanelne.Auth.Errors.{Thrown, Outcome, resolved, rejected}
use wgpanelne.Zod.Values.{Value, null, str, end, field}
use wgpanelne.Api.Client.{Backend, Request}
use wgpanelne.Api.Peers.{update_peer_share_expire, update_peer_share_status}

-- The fields of `PeerShare` that the dialog reads.
pub record PeerShare : Type 0 where
  pub uuid : Option Text
  pub is_shared : Bool

abbrev link_of : Text → Text → Text
link_of origin uuid = origin ++ codes "/share?shareId=" ++ uuid

abbrev link_to : Text → Option Text → Text → Text
link_to origin none share_link = share_link
link_to origin (some []) share_link = share_link
link_to origin (some (c ∷ uuid)) share_link = link_of origin (c ∷ uuid)

-- The effect on `shareData`; `none` is data that has not arrived.
unfoldable pub update_share_link : Text → Option PeerShare → Text → Text
update_share_link origin none share_link = share_link
update_share_link origin (some share) share_link = link_to origin share.uuid share_link

-- The requests of a change, and what is toasted or thrown.
pub data Notice : Type 0 where
  toasted : Text → Notice
  thrown : Thrown → Notice

abbrev noticed : Text → List Request × Outcome (Unit {0}) → List Request × Notice
noticed text (sent, resolved _) = (sent, toasted text)
noticed text (sent, rejected e) = (sent, thrown e)

abbrev expire_time : Option Text → Value
expire_time none = null
expire_time (some t) = str t

abbrev is_given : Option Text → Bool
is_given none = false
is_given (some t) = truthy t

unfoldable pub handle_expire_date_change : ℕ → Option Text → Backend → List Request × Notice
handle_expire_date_change id value backend =
    noticed
      (elim (is_given value) [
        | true ↦ codes "Expiration date updated successfully"
        | false ↦ codes "Expiration date cleared successfully"
      ])
      (update_peer_share_expire id (field (codes "expire_time") (expire_time value) end) backend)

abbrev was_shared : Option PeerShare → Bool
was_shared none = false
was_shared (some share) = share.is_shared

unfoldable pub handle_toggle_status : ℕ → Option PeerShare → Backend → List Request × Notice
handle_toggle_status id share_data backend =
    noticed
      (elim (was_shared share_data) [
        | true ↦ codes "Peer sharing stopped successfully"
        | false ↦ codes "Peer sharing started successfully"
      ])
      (update_peer_share_status id backend)

abbrev pub shared_as : Text → PeerShare
shared_as uuid = record { uuid = some uuid; is_shared = true }

-- Peers that are shared under different identifiers, not empty, have different links, whatever
-- link the dialog showed before; while the data has not arrived, or has no identifier, the link
-- stays.
update_share_link-injective :
    (origin u v : Text) (c d : ℕ) (before link : Text)
    → (update_share_link origin (some (shared_as (c ∷ u))) before
          ≡ update_share_link origin (some (shared_as (d ∷ v))) link
        → c ∷ u ≡ d ∷ v)
      × (update_share_link origin none before ≡ before)
      × (update_share_link origin (some (record { uuid = none; is_shared = false })) before
          ≡ before)
unfolding update_share_link
update_share_link-injective origin u v c d before link =
    (append_cancel_left (origin ++ codes "/share?shareId=") (c ∷ u) (d ∷ v), refl, refl)
