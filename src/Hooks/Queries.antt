-- ===== src/Hooks/Queries.antt =====
-- The hooks of ui/src/hooks that ask for something: the key of the answer, the call, and whether
-- the backend may be asked. `none` is `undefined`.
use wgpanelne.Prelude.{
  ℕ, Bool, true, false, not, ◌&&◌, Option, none, some, [], ◌∷◌, ◌==◌, if◌then◌else◌,
}
use wgpanelne.Js.Strings.{Text, codes, truthy}
use wgpanelne.Zod.Values.{Value}
use wgpanelne.Zod.Interface.{Zod}
use wgpanelne.Hooks.Cache.{KeyPart, name, number, missing, Query}
use wgpanelne.Api.Peers.{
  fetch_peers_list, fetch_sync_peers, fetch_peer_config, fetch_peer_qr_code, fetch_peer_sessions,
  fetch_peer_share_status,
}
use wgpanelne.Api.Interfaces.{fetch_interfaces_list, fetch_sync_interfaces}
use wgpanelne.Api.IpPool.{fetch_ip_pools_list}
use wgpanelne.Api.Servers.{fetch_servers_list}
use wgpanelne.Api.Dashboard.{fetch_device_data, fetch_daily_traffic_usage}
use wgpanelne.Api.Telegram.{fetch_peer_telegram_status, fetch_telegram_status}
use wgpanelne.Api.User.{fetch_user_config, fetch_user_details, fetch_user_qr_code}

-- `options?.enabled ?? true`
abbrev pub or_true : Option Bool → Bool
or_true none = true
or_true (some b) = b

-- `interfaceName ?? ''`
abbrev or_empty_text : Option Text → Text
or_empty_text none = []
or_empty_text (some t) = t

-- `!!uuid`
abbrev pub is_given : Option Text → Bool
is_given none = false
is_given (some t) = truthy t

abbrev key_of : Option Text → KeyPart
key_of none = missing
key_of (some t) = name t

unfoldable pub use_peer_config_query : ℕ → Option Bool → Query Value
use_peer_config_query id enabled = record {
  query_key = name (codes "peer_config") ∷ number id ∷ [];
  query_fn = fetch_peer_config id;
  enabled = not (id == 0) && or_true enabled;
  refetch_interval = none;
}

unfoldable pub use_peer_qr_code_query : (Value → Text) → ℕ → Option Bool → Query Text
use_peer_qr_code_query create_object_url id enabled = record {
  query_key = name (codes "peer_qrcode") ∷ number id ∷ [];
  query_fn = fetch_peer_qr_code create_object_url id;
  enabled = not (id == 0) && or_true enabled;
  refetch_interval = none;
}

unfoldable pub use_user_config_query : Option Text → Option Bool → Query Value
use_user_config_query uuid enabled = record {
  query_key = name (codes "user_config") ∷ key_of uuid ∷ [];
  query_fn = fetch_user_config uuid;
  enabled = is_given uuid && or_true enabled;
  refetch_interval = none;
}

unfoldable pub use_user_qr_code_query : (Value → Text) → Option Text → Option Bool → Query Text
use_user_qr_code_query create_object_url uuid enabled = record {
  query_key = name (codes "user_qrcode") ∷ key_of uuid ∷ [];
  query_fn = fetch_user_qr_code create_object_url uuid;
  enabled = is_given uuid && or_true enabled;
  refetch_interval = none;
}

module _ (z : Zod) where
  unfoldable pub use_peers_list_query : Query Value
  use_peers_list_query = record {
    query_key = name (codes "peers_list") ∷ [];
    query_fn = fetch_peers_list z;
    enabled = true;
    refetch_interval = none;
  }

  unfoldable pub use_interfaces_list_query : Query Value
  use_interfaces_list_query = record {
    query_key = name (codes "interfaces_list") ∷ [];
    query_fn = fetch_interfaces_list z;
    enabled = true;
    refetch_interval = none;
  }

  unfoldable pub use_ip_pools_list_query : Query Value
  use_ip_pools_list_query = record {
    query_key = name (codes "ip_pools_list") ∷ [];
    query_fn = fetch_ip_pools_list z;
    enabled = true;
    refetch_interval = none;
  }

  unfoldable pub use_servers_list_query : Query Value
  use_servers_list_query = record {
    query_key = name (codes "servers_list") ∷ [];
    query_fn = fetch_servers_list z;
    enabled = true;
    refetch_interval = none;
  }

  unfoldable pub use_device_data_query : Query (Option Value)
  use_device_data_query = record {
    query_key = name (codes "device_data") ∷ [];
    query_fn = fetch_device_data z;
    enabled = true;
    refetch_interval = none;
  }

  unfoldable pub use_daily_traffic_usage_query : ℕ → Query (Option Value)
  use_daily_traffic_usage_query range = record {
    query_key = name (codes "daily_traffic_usage") ∷ number range ∷ [];
    query_fn = fetch_daily_traffic_usage z range;
    enabled = true;
    refetch_interval = none;
  }

  unfoldable pub use_sync_interfaces_query : Bool → Query Value
  use_sync_interfaces_query enabled = record {
    query_key = name (codes "sync_interfaces") ∷ [];
    query_fn = fetch_sync_interfaces z;
    enabled = enabled;
    refetch_interval = none;
  }

  unfoldable pub use_sync_peers_query : Bool → Option Text → Query Value
  use_sync_peers_query enabled interface_name = record {
    query_key = name (codes "sync_peers") ∷ name (or_empty_text interface_name) ∷ [];
    query_fn = fetch_sync_peers z interface_name;
    enabled = enabled;
    refetch_interval = none;
  }

  unfoldable pub use_peer_sessions_query : ℕ → Option Bool → Query (Option Value)
  use_peer_sessions_query id enabled = record {
    query_key = name (codes "peer_sessions") ∷ number id ∷ [];
    query_fn = fetch_peer_sessions z id;
    enabled = not (id == 0) && or_true enabled;
    refetch_interval = (if or_true enabled then some 10_000 else none);
  }

  unfoldable pub use_peer_share_query : ℕ → Option Bool → Query (Option Value)
  use_peer_share_query id enabled = record {
    query_key = name (codes "peer_share") ∷ number id ∷ [];
    query_fn = fetch_peer_share_status z id;
    enabled = not (id == 0) && or_true enabled;
    refetch_interval = none;
  }

  unfoldable pub use_peer_telegram_status_query : Option Text → Query (Option Value)
  use_peer_telegram_status_query uuid = record {
    query_key = name (codes "peer_telegram_status") ∷ key_of uuid ∷ [];
    query_fn = fetch_peer_telegram_status z uuid;
    enabled = is_given uuid;
    refetch_interval = some 8_000;
  }

  unfoldable pub use_telegram_status_query : Query (Option Value)
  use_telegram_status_query = record {
    query_key = name (codes "telegram_status") ∷ [];
    query_fn = fetch_telegram_status z;
    enabled = true;
    refetch_interval = none;
  }

  unfoldable pub use_user_details_query : Option Text → Query (Option Value)
  use_user_details_query uuid = record {
    query_key = name (codes "user_details") ∷ key_of uuid ∷ [];
    query_fn = fetch_user_details z uuid;
    enabled = is_given uuid;
    refetch_interval = none;
  }
