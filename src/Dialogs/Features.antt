-- ===== src/Dialogs/Features.antt =====
-- The pages of the four features: the dialog that is named is rendered.
use wgpanelne.Prelude.{
  Among, first, later, ℕ, suc, Bool, true, false, if◌then◌else◌, ◌==◌, Option, none, some, [], ◌∷◌,
  ◌≡◌, refl,
}
use wgpanelne.Js.Strings.{Text, codes, text_eq}
use wgpanelne.Dialogs.Opening.{set_open}
use wgpanelne.Dialogs.Rows.{Rows, press, handle_close, opened, Closer, Dialog}
use wgpanelne.Dialogs.Pages.{
  peers_dialogs, interfaces_dialogs, servers_dialogs, pools_dialogs, Feature, of_peers,
  of_interfaces, of_servers, of_pools, page,
}
use wgpanelne.Dialogs.Shown.{IsPage, Single, Shown, at}

module _ {ℓ} {A : Type ℓ} where
  peers_of_menu :
      (t : Text) (r : A) (n : ℕ)
      → Among t (page A of_peers).menu
      → Single (page A of_peers) (at (some t) (some r) n) (some r) (at none (some r) (suc n))
  unfolding opened peers_dialogs handle_close set_open text_eq
  peers_of_menu t r n (first _) = (_, refl, refl, refl)
  peers_of_menu t r n (later _ (first _)) = (_, refl, refl, refl)
  peers_of_menu t r n (later _ (later _ (first _))) = (_, refl, refl, refl)
  peers_of_menu t r n (later _ (later _ (later _ (first _)))) = (_, refl, refl, refl)
  peers_of_menu t r n (later _ (later _ (later _ (later _ (first _))))) = (_, refl, refl, refl)
  peers_of_menu t r n (later _ (later _ (later _ (later _ (later _ (first _)))))) =
      (_, refl, refl, refl)
  peers_of_menu t r n (later _ (later _ (later _ (later _ (later _ (later _ (first _))))))) =
      (_, refl, refl, refl)
  peers_of_menu t r n (later _ (later _ (later _ (later _ (later _ (later _ (later _ x))))))) =
      elim x [ ]

  peers_hidden :
      (t : Text) (n : ℕ)
      → Among t (page A of_peers).menu
      → opened ((page A of_peers).dialogs (at (some t) none n)) ≡ []
  unfolding opened peers_dialogs handle_close set_open text_eq
  peers_hidden t n (first _) = refl
  peers_hidden t n (later _ (first _)) = refl
  peers_hidden t n (later _ (later _ (first _))) = refl
  peers_hidden t n (later _ (later _ (later _ (first _)))) = refl
  peers_hidden t n (later _ (later _ (later _ (later _ (first _))))) = refl
  peers_hidden t n (later _ (later _ (later _ (later _ (later _ (first _)))))) = refl
  peers_hidden t n (later _ (later _ (later _ (later _ (later _ (later _ (first _))))))) = refl
  peers_hidden t n (later _ (later _ (later _ (later _ (later _ (later _ (later _ x))))))) =
      elim x [ ]

  peers_shut : (r : Option A) (n : ℕ) → opened ((page A of_peers).dialogs (at none r n)) ≡ []
  unfolding opened peers_dialogs handle_close set_open text_eq
  peers_shut none n = refl
  peers_shut (some r) n = refl

  peers_of_button :
      (t : Text) (r : Option A) (n : ℕ)
      → Among t (page A of_peers).buttons
      → Single (page A of_peers) (at (some t) r n) none (at none r n)
  unfolding opened peers_dialogs handle_close set_open text_eq
  peers_of_button t none n (first _) = (_, refl, refl, refl)
  peers_of_button t (some r) n (first _) = (_, refl, refl, refl)
  peers_of_button t none n (later _ (first _)) = (_, refl, refl, refl)
  peers_of_button t (some r) n (later _ (first _)) = (_, refl, refl, refl)
  peers_of_button t none n (later _ (later _ x)) = elim x [ ]
  peers_of_button t (some r) n (later _ (later _ x)) = elim x [ ]

  -- `setOpen(null)` closes a synchronisation, and `setOpen('add')` a form.
  closing_of : Text → Closer A
  closing_of t = if text_eq t (codes "sync") then press none else press (some t)

  peers_closing :
      (t : Text) (r : Option A) (n : ℕ) (d : Dialog A)
      → Among t (page A of_peers).buttons
      → Among d (opened ((page A of_peers).dialogs (at (some t) r n)))
      → d.on_open_change ≡ closing_of t
  unfolding opened peers_dialogs set_open text_eq closing_of
  peers_closing t none n d (first _) (first _) = refl
  peers_closing t (some r) n d (first _) (first _) = refl
  peers_closing t none n d (first _) (later _ x) = elim x [ ]
  peers_closing t (some r) n d (first _) (later _ x) = elim x [ ]
  peers_closing t none n d (later _ (first _)) (first _) = refl
  peers_closing t (some r) n d (later _ (first _)) (first _) = refl
  peers_closing t none n d (later _ (first _)) (later _ x) = elim x [ ]
  peers_closing t (some r) n d (later _ (first _)) (later _ x) = elim x [ ]
  peers_closing t r n d (later _ (later _ x)) m = elim x [ ]

  peers_page_lem : IsPage (page A of_peers)
  peers_page_lem = record {
    shut = peers_shut;
    of_menu = peers_of_menu;
    of_menu_hidden = peers_hidden;
    of_button = peers_of_button;
    closing = closing_of;
    of_closing = peers_closing;
  }

  interfaces_of_menu :
      (t : Text) (r : A) (n : ℕ)
      → Among t (page A of_interfaces).menu
      → Single (page A of_interfaces) (at (some t) (some r) n) (some r) (at none (some r) (suc n))
  unfolding opened interfaces_dialogs handle_close set_open text_eq
  interfaces_of_menu t r n (first _) = (_, refl, refl, refl)
  interfaces_of_menu t r n (later _ (first _)) = (_, refl, refl, refl)
  interfaces_of_menu t r n (later _ (later _ x)) = elim x [ ]

  interfaces_hidden :
      (t : Text) (n : ℕ)
      → Among t (page A of_interfaces).menu
      → opened ((page A of_interfaces).dialogs (at (some t) none n)) ≡ []
  unfolding opened interfaces_dialogs handle_close set_open text_eq
  interfaces_hidden t n (first _) = refl
  interfaces_hidden t n (later _ (first _)) = refl
  interfaces_hidden t n (later _ (later _ x)) = elim x [ ]

  interfaces_shut :
      (r : Option A) (n : ℕ) → opened ((page A of_interfaces).dialogs (at none r n)) ≡ []
  unfolding opened interfaces_dialogs handle_close set_open text_eq
  interfaces_shut none n = refl
  interfaces_shut (some r) n = refl

  interfaces_of_button :
      (t : Text) (r : Option A) (n : ℕ)
      → Among t (page A of_interfaces).buttons
      → Single (page A of_interfaces) (at (some t) r n) none (at none r n)
  unfolding opened interfaces_dialogs handle_close set_open text_eq
  interfaces_of_button t none n (first _) = (_, refl, refl, refl)
  interfaces_of_button t (some r) n (first _) = (_, refl, refl, refl)
  interfaces_of_button t none n (later _ (first _)) = (_, refl, refl, refl)
  interfaces_of_button t (some r) n (later _ (first _)) = (_, refl, refl, refl)
  interfaces_of_button t none n (later _ (later _ x)) = elim x [ ]
  interfaces_of_button t (some r) n (later _ (later _ x)) = elim x [ ]

  interfaces_closing :
      (t : Text) (r : Option A) (n : ℕ) (d : Dialog A)
      → Among t (page A of_interfaces).buttons
      → Among d (opened ((page A of_interfaces).dialogs (at (some t) r n)))
      → d.on_open_change ≡ closing_of t
  unfolding opened interfaces_dialogs set_open text_eq closing_of
  interfaces_closing t none n d (first _) (first _) = refl
  interfaces_closing t (some r) n d (first _) (first _) = refl
  interfaces_closing t none n d (first _) (later _ x) = elim x [ ]
  interfaces_closing t (some r) n d (first _) (later _ x) = elim x [ ]
  interfaces_closing t none n d (later _ (first _)) (first _) = refl
  interfaces_closing t (some r) n d (later _ (first _)) (first _) = refl
  interfaces_closing t none n d (later _ (first _)) (later _ x) = elim x [ ]
  interfaces_closing t (some r) n d (later _ (first _)) (later _ x) = elim x [ ]
  interfaces_closing t r n d (later _ (later _ x)) m = elim x [ ]

  interfaces_page_lem : IsPage (page A of_interfaces)
  interfaces_page_lem = record {
    shut = interfaces_shut;
    of_menu = interfaces_of_menu;
    of_menu_hidden = interfaces_hidden;
    of_button = interfaces_of_button;
    closing = closing_of;
    of_closing = interfaces_closing;
  }

  servers_of_menu :
      (k : ℕ)
      → (t : Text) (r : A) (n : ℕ) → Among t (page A (of_servers k)).menu
      → Single (page A (of_servers k)) (at (some t) (some r) n) (some r) (at none (some r) (suc n))
  unfolding opened servers_dialogs handle_close set_open text_eq
  servers_of_menu k t r n (first _) = (_, refl, refl, refl)
  servers_of_menu k t r n (later _ (first _)) = (_, refl, refl, refl)
  servers_of_menu k t r n (later _ (later _ x)) = elim x [ ]

  servers_hidden :
      (k : ℕ)
      → (t : Text) (n : ℕ) → Among t (page A (of_servers k)).menu
      → opened ((page A (of_servers k)).dialogs (at (some t) none n)) ≡ []
  unfolding opened servers_dialogs handle_close set_open text_eq
  servers_hidden k t n (first _) = refl
  servers_hidden k t n (later _ (first _)) = refl
  servers_hidden k t n (later _ (later _ x)) = elim x [ ]

  servers_shut :
      (k : ℕ) → (r : Option A) (n : ℕ) → opened ((page A (of_servers k)).dialogs (at none r n)) ≡ []
  unfolding opened servers_dialogs handle_close set_open text_eq
  servers_shut k none n = refl
  servers_shut k (some r) n = refl

  servers_add :
      (k : ℕ) (t : Text) (r : Option A) (n : ℕ) (b : Bool)
      → Among t (if b then [] else codes "add" ∷ [])
      → Single (page A (of_servers k)) (at (some t) r n) none (at none r n)
  unfolding opened servers_dialogs handle_close set_open text_eq
  servers_add k t none n false (first _) = (_, refl, refl, refl)
  servers_add k t (some r) n false (first _) = (_, refl, refl, refl)
  servers_add k t none n false (later _ x) = elim x [ ]
  servers_add k t none n true x = elim x [ ]
  servers_add k t (some r) n false (later _ x) = elim x [ ]
  servers_add k t (some r) n true x = elim x [ ]

  servers_closing :
      (k : ℕ) (t : Text) (r : Option A) (n : ℕ) (b : Bool) (d : Dialog A)
      → Among t (if b then [] else codes "add" ∷ [])
      → Among d (opened ((page A (of_servers k)).dialogs (at (some t) r n)))
      → d.on_open_change ≡ closing_of t
  unfolding opened servers_dialogs set_open text_eq closing_of
  servers_closing k t none n false d (first _) (first _) = refl
  servers_closing k t (some r) n false d (first _) (first _) = refl
  servers_closing k t none n false d (first _) (later _ x) = elim x [ ]
  servers_closing k t (some r) n false d (first _) (later _ x) = elim x [ ]
  servers_closing k t r n false d (later _ x) m = elim x [ ]
  servers_closing k t r n true d x m = elim x [ ]

  servers_page_lem : (k : ℕ) → IsPage (page A (of_servers k))
  servers_page_lem k = record {
    shut = servers_shut k;
    of_menu = servers_of_menu k;
    of_menu_hidden = servers_hidden k;
    of_button = λ t r n. servers_add k t r n (k == 1);
    closing = closing_of;
    of_closing = λ t r n d. servers_closing k t r n (k == 1) d;
  }

  pools_of_menu :
      (t : Text) (r : A) (n : ℕ)
      → Among t (page A of_pools).menu
      → Single (page A of_pools) (at (some t) (some r) n) (some r) (at none (some r) (suc n))
  unfolding opened pools_dialogs handle_close set_open text_eq
  pools_of_menu t r n (first _) = (_, refl, refl, refl)
  pools_of_menu t r n (later _ (first _)) = (_, refl, refl, refl)
  pools_of_menu t r n (later _ (later _ x)) = elim x [ ]

  pools_hidden :
      (t : Text) (n : ℕ)
      → Among t (page A of_pools).menu
      → opened ((page A of_pools).dialogs (at (some t) none n)) ≡ []
  unfolding opened pools_dialogs handle_close set_open text_eq
  pools_hidden t n (first _) = refl
  pools_hidden t n (later _ (first _)) = refl
  pools_hidden t n (later _ (later _ x)) = elim x [ ]

  pools_shut : (r : Option A) (n : ℕ) → opened ((page A of_pools).dialogs (at none r n)) ≡ []
  unfolding opened pools_dialogs handle_close set_open text_eq
  pools_shut none n = refl
  pools_shut (some r) n = refl

  pools_of_button :
      (t : Text) (r : Option A) (n : ℕ)
      → Among t (page A of_pools).buttons
      → Single (page A of_pools) (at (some t) r n) none (at none r n)
  unfolding opened pools_dialogs handle_close set_open text_eq
  pools_of_button t none n (first _) = (_, refl, refl, refl)
  pools_of_button t (some r) n (first _) = (_, refl, refl, refl)
  pools_of_button t none n (later _ x) = elim x [ ]
  pools_of_button t (some r) n (later _ x) = elim x [ ]

  pools_closing :
      (t : Text) (r : Option A) (n : ℕ) (d : Dialog A)
      → Among t (page A of_pools).buttons
      → Among d (opened ((page A of_pools).dialogs (at (some t) r n)))
      → d.on_open_change ≡ closing_of t
  unfolding opened pools_dialogs set_open text_eq closing_of
  pools_closing t none n d (first _) (first _) = refl
  pools_closing t (some r) n d (first _) (first _) = refl
  pools_closing t none n d (first _) (later _ x) = elim x [ ]
  pools_closing t (some r) n d (first _) (later _ x) = elim x [ ]
  pools_closing t r n d (later _ x) m = elim x [ ]

  pools_page_lem : IsPage (page A of_pools)
  pools_page_lem = record {
    shut = pools_shut;
    of_menu = pools_of_menu;
    of_menu_hidden = pools_hidden;
    of_button = pools_of_button;
    closing = closing_of;
    of_closing = pools_closing;
  }

  pub page-IsPage : (f : Feature) → IsPage (page A f)
  page-IsPage of_peers = peers_page_lem
  page-IsPage of_interfaces = interfaces_page_lem
  page-IsPage (of_servers k) = servers_page_lem k
  page-IsPage of_pools = pools_page_lem

-- What the menu opens to change a row, or to delete it, sends a request, and its closer toggles.
pub submitting_dialog {ℓ} :
    {A : Type ℓ} (f : Feature) (r : A) (t : Text)
    → Among t (codes "edit" ∷ codes "delete" ∷ [])
    → (d : Dialog A) × (opened ((page A f).dialogs (at (some t) (some r) 0)) ≡ d ∷ [])
      × (d.submits ≡ true)
      × (d.on_open_change ≡ handle_close t)
unfolding opened peers_dialogs interfaces_dialogs servers_dialogs pools_dialogs text_eq
submitting_dialog of_peers r t (first _) = (_, refl, refl, refl)
submitting_dialog of_peers r t (later _ (first _)) = (_, refl, refl, refl)
submitting_dialog of_interfaces r t (first _) = (_, refl, refl, refl)
submitting_dialog of_interfaces r t (later _ (first _)) = (_, refl, refl, refl)
submitting_dialog (of_servers k) r t (first _) = (_, refl, refl, refl)
submitting_dialog (of_servers k) r t (later _ (first _)) = (_, refl, refl, refl)
submitting_dialog of_pools r t (first _) = (_, refl, refl, refl)
submitting_dialog of_pools r t (later _ (first _)) = (_, refl, refl, refl)
submitting_dialog f r t (later _ (later _ x)) = elim x [ ]
