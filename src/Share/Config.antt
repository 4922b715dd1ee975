-- ===== src/Share/Config.antt =====
-- ui/src/features/share/components/peer-config-card.tsx: the configuration that is copied and
-- downloaded. A read of the blob, a click and the callback of the timer are events; `written` says
-- whether the clipboard took the text. Lists have the latest first.
use wgpanelne.Prelude.{
  ℕ, zero, suc, Bool, true, false, ◌&&◌, Option, none, some, List, [], ◌∷◌, ◌++◌, if◌then◌else◌,
}
use wgpanelne.Js.Strings.{Text, codes, truthy}

pub record ConfigCard : Type 0 where
  pub config_text : Text
  pub copied : Bool
  pub timers : ℕ
  pub clipboard : List Text
  pub toasts : ℕ
  pub downloads : List (Text × Text)

abbrev pub empty_card : ConfigCard
empty_card = record {
  config_text = [];
  copied = false;
  timers = 0;
  clipboard = [];
  toasts = 0;
  downloads = [];
}

pub data Event : Type 0 where
  read : Text → Event
  copy : Bool → Event
  download : Option Text → Event
  timeout : Event

-- `${peerName || 'config'}.conf`
abbrev pub file_name : Option Text → Text
file_name none = codes "config.conf"
file_name (some n) = (if truthy n then n else codes "config") ++ codes ".conf"

-- `if (!configText) return`, and what follows once the clipboard has the text.
unfoldable pub handle_copy : Bool → ConfigCard → ConfigCard
handle_copy written s =
    if truthy s.config_text && written
    then record {
      config_text = s.config_text;
      copied = true;
      timers = suc s.timers;
      clipboard = s.config_text ∷ s.clipboard;
      toasts = suc s.toasts;
      downloads = s.downloads;
    }
    else s

unfoldable pub handle_download : Option Text → ConfigCard → ConfigCard
handle_download peer_name s =
    if truthy s.config_text
    then record {
      config_text = s.config_text;
      copied = s.copied;
      timers = s.timers;
      clipboard = s.clipboard;
      toasts = s.toasts;
      downloads = (file_name peer_name, s.config_text) ∷ s.downloads;
    }
    else s

-- `setTimeout(() => setCopied(false), 2000)`, once it is due.
unfoldable pub timed_out : ℕ → ConfigCard → ConfigCard
timed_out zero s = s
timed_out (suc n) s = record {
  config_text = s.config_text;
  copied = false;
  timers = n;
  clipboard = s.clipboard;
  toasts = s.toasts;
  downloads = s.downloads;
}

unfoldable pub card_step : Event → ConfigCard → ConfigCard
card_step (read t) s = record s { config_text = t }
card_step (copy written) s = handle_copy written s
card_step (download peer_name) s = handle_download peer_name s
card_step timeout s = timed_out s.timers s

unfoldable pub card_steps : List Event → ConfigCard → ConfigCard
card_steps [] s = s
card_steps (e ∷ es) s = card_steps es (card_step e s)

-- The texts that were read, the latest first, behind those before.
unfoldable pub texts_read : List Event → List Text → List Text
texts_read [] before = before
texts_read (read t ∷ es) before = texts_read es (t ∷ before)
texts_read (copy b ∷ es) before = texts_read es before
texts_read (download n ∷ es) before = texts_read es before
texts_read (timeout ∷ es) before = texts_read es before
