-- ===== src/Peers/Config.antt =====
-- ui/src/features/peers/components/dialogs/peers-config-dialog.tsx: the configuration of a peer, shown
-- or downloaded. `render` is one run of the effect, with what it reads; lists have the latest first.
use wgpanelne.Prelude.{
  ℕ, suc, ◌≡◌, refl, ap, ◌∙◌, Bool, true, false, not, ◌&&◌, ◌||◌, Option, none, some, List, [], ◌∷◌,
  ◌++◌, if◌then◌else◌, length, any, Bool-cases, inl, inr, arith,
}
use wgpanelne.Js.Strings.{Text, codes, truthy}

-- What the effect depends on: the blob of the query, which is there even if it is empty, `download`,
-- and the name of the row.
pub record Render : Type 0 where
  pub peer_config_blob : Option Text
  pub download : Bool
  pub row_name : Text

-- `configText`, which the reader sets a moment later, the files that were downloaded, how often
-- `onOpenChange(false)` was called, and what was copied.
pub record ConfigDialog : Type 0 where
  pub config_text : Text
  pub has_downloaded : Bool
  pub downloads : List (Text × Text)
  pub closed : ℕ
  pub clipboard : List Text

abbrev pub fresh : ConfigDialog
fresh = record {
  config_text = [];
  has_downloaded = false;
  downloads = [];
  closed = 0;
  clipboard = [];
}

-- `${currentRow.name || 'peer'}.conf`
abbrev pub config_file : Text → Text
config_file n = (if truthy n then n else codes "peer") ++ codes ".conf"

unfoldable pub with_blob : Text → Render → ConfigDialog → ConfigDialog
with_blob blob r s =
    if r.download && not s.has_downloaded
    then record {
      config_text = blob;
      has_downloaded = true;
      downloads = (config_file r.row_name, blob) ∷ s.downloads;
      closed = suc s.closed;
      clipboard = s.clipboard;
    }
    else record {
      config_text = blob;
      has_downloaded = s.has_downloaded;
      downloads = s.downloads;
      closed = s.closed;
      clipboard = s.clipboard;
    }

abbrev pub if_blob : Option Text → Render → ConfigDialog → ConfigDialog
if_blob none r s = s
if_blob (some blob) r s = with_blob blob r s

unfoldable pub effect : Render → ConfigDialog → ConfigDialog
effect r s = if_blob r.peer_config_blob r s

unfoldable pub handle_copy : ConfigDialog → ConfigDialog
handle_copy s =
    if truthy s.config_text then record s { clipboard = s.config_text ∷ s.clipboard } else s

pub data Event : Type 0 where
  render : Render → Event
  copy : Event

unfoldable pub dialog_step : Event → ConfigDialog → ConfigDialog
dialog_step (render r) s = effect r s
dialog_step copy s = handle_copy s

unfoldable pub dialog_steps : List Event → ConfigDialog → ConfigDialog
dialog_steps [] s = s
dialog_steps (e ∷ es) s = dialog_steps es (dialog_step e s)

-- What the dialog draws: nothing while it downloads.
pub data View : Type 0 where
  skeleton : View
  code : Text → View
  not_available : View

unfoldable pub drawn : Bool → Bool → ConfigDialog → Option View
drawn download is_loading s =
    if download
    then none
    else some (
        if is_loading
        then skeleton
        else if truthy s.config_text
        then code s.config_text
        else not_available)

-- A run of the effect that finds the configuration and is to download it.
abbrev pub has_blob : Option Text → Bool
has_blob none = false
has_blob (some b) = true

abbrev pub is_download : Event → Bool
is_download (render r) = has_blob r.peer_config_blob && r.download
is_download copy = false

-- How many files are expected.
abbrev pub once : Bool → ℕ
once true = 1
once false = 0

-- The files so far, and the calls that close the dialog, are one if something was downloaded.
abbrev pub IsOnce : ConfigDialog → Type 0
IsOnce s = (length s.downloads ≡ once s.has_downloaded) × (s.closed ≡ once s.has_downloaded)

abbrev After : Bool → ConfigDialog → ConfigDialog → Type 0
After d s u = IsOnce u × (u.has_downloaded ≡ (d || s.has_downloaded))

blob-After :
    (blob : Text) (r : Render) (s : ConfigDialog)
    → IsOnce s
    → After r.download s (with_blob blob r s)
unfolding with_blob
blob-After blob r s (h, k) = elim (Bool-cases r.download) [
  | inr d ↦ rw d ((h, k), refl)
  | inl d ↦ elim (Bool-cases s.has_downloaded) [
    | inl w ↦ rw (d, w) ((h ∙ ap once w, k ∙ ap once w), refl)
    | inr w ↦ rw (d, w) ((ap suc (h ∙ ap once w), ap suc (k ∙ ap once w)), refl)
  ]
]

copy-After : (s : ConfigDialog) → IsOnce s → After false s (handle_copy s)
unfolding handle_copy
copy-After s h = elim (Bool-cases (truthy s.config_text)) [
  | inl e ↦ rw e (h, refl)
  | inr e ↦ rw e (h, refl)
]

if_blob-After :
    (b : Option Text) (r : Render) (s : ConfigDialog)
    → IsOnce s
    → After (has_blob b && r.download) s (if_blob b r s)
if_blob-After none r s h = (h, refl)
if_blob-After (some b) r s h = blob-After b r s h

step-After : (e : Event) (s : ConfigDialog) → IsOnce s → After (is_download e) s (dialog_step e s)
unfolding dialog_step effect
step-After (render r) s h = if_blob-After r.peer_config_blob r s h
step-After copy s h = copy-After s h

steps-After :
    (es : List Event) (s : ConfigDialog)
    → IsOnce s
    → After (any is_download es) s (dialog_steps es s)
unfolding dialog_steps
steps-After [] s h = (h, refl)
steps-After (e ∷ es) s h =
    let (now, d) = step-After e s h in
    let (later, l) = steps-After es (dialog_step e s) now in (later, ground (arith, d, l))

-- However often a mounted dialog is drawn anew and its button used: it downloads one file and asks
-- once to be closed if at some time it had the configuration while it was to download it, and never
-- otherwise.
pub dialog_steps-once :
    (es : List Event)
    → (length (dialog_steps es fresh).downloads ≡ once (any is_download es))
      × ((dialog_steps es fresh).closed ≡ once (any is_download es))
dialog_steps-once es =
    let ((h, k), d) = steps-After es fresh (refl, refl) in
    let e : (dialog_steps es fresh).has_downloaded ≡ any is_download es = ground (arith, d) in
    (h ∙ ap once e, k ∙ ap once e)
