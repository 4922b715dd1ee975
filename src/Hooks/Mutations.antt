-- ===== src/Hooks/Mutations.antt =====
-- The hooks of ui/src/hooks that change something: each one's call and what it invalidates.
use wgpanelne.Prelude.{ℕ, Option, none, some, [], ◌∷◌}
use wgpanelne.Js.Strings.{codes}
use wgpanelne.Zod.Values.{Value, Fields}
use wgpanelne.Zod.Interface.{Zod}
use wgpanelne.Hooks.Cache.{name, Mutation}
use wgpanelne.Api.Authentication.{login}
use wgpanelne.Api.Dashboard.{reset_total_traffic_usage}
use wgpanelne.Api.Interfaces.{
  create_interface, delete_interface, sync_interfaces, update_interface, update_interface_status,
}
use wgpanelne.Api.IpPool.{create_ip_pool, delete_ip_pool, update_ip_pool}
use wgpanelne.Api.Peers.{
  create_peer, delete_peer, fetch_peer_allowed_address, reset_peer_usage, reset_peer_usages,
  sync_peers, update_peer, update_peer_share_expire, update_peer_share_status, update_peer_status,
}
use wgpanelne.Api.Servers.{create_server, delete_server, update_server, update_server_status}

unfoldable pub use_reset_total_traffic_mutation : Mutation (Unit {0}) (Unit {0})
use_reset_total_traffic_mutation = record {
  mutation_fn = λ _. reset_total_traffic_usage;
  invalidated = (name (codes "device_data") ∷ []) ∷ [];
  toasted = none;
}

unfoldable pub use_delete_interface_mutation : Mutation ℕ (Unit {0})
use_delete_interface_mutation = record {
  mutation_fn = delete_interface;
  invalidated = (name (codes "interfaces_list") ∷ []) ∷ [];
  toasted = none;
}

unfoldable pub use_sync_interfaces_mutation : Mutation (Unit {0}) (Unit {0})
use_sync_interfaces_mutation = record {
  mutation_fn = λ _. sync_interfaces;
  invalidated = (name (codes "interfaces_list") ∷ []) ∷ [];
  toasted = some (codes "Interfaces synced successfully");
}

unfoldable pub use_update_interface_status_mutation : Mutation ℕ (Unit {0})
use_update_interface_status_mutation = record {
  mutation_fn = update_interface_status;
  invalidated = (name (codes "interfaces_list") ∷ []) ∷ [];
  toasted = none;
}

unfoldable pub use_delete_ip_pool_mutation : Mutation ℕ (Unit {0})
use_delete_ip_pool_mutation = record {
  mutation_fn = delete_ip_pool;
  invalidated = (name (codes "ip_pools_list") ∷ []) ∷ [];
  toasted = none;
}

unfoldable pub use_delete_peer_mutation : Mutation ℕ (Unit {0})
use_delete_peer_mutation = record {
  mutation_fn = delete_peer;
  invalidated = (name (codes "peers_list") ∷ []) ∷ [];
  toasted = none;
}

unfoldable pub use_reset_usage_mutation : Mutation ℕ (Unit {0})
use_reset_usage_mutation = record {
  mutation_fn = reset_peer_usage;
  invalidated = (name (codes "peers_list") ∷ []) ∷ [];
  toasted = none;
}

unfoldable pub use_reset_usages_mutation : Mutation (Unit {0}) (Unit {0})
use_reset_usages_mutation = record {
  mutation_fn = λ _. reset_peer_usages;
  invalidated = (name (codes "peers_list") ∷ []) ∷ [];
  toasted = none;
}

unfoldable pub use_sync_peers_mutation : Mutation (Unit {0}) (Unit {0})
use_sync_peers_mutation = record {
  mutation_fn = λ _. sync_peers;
  invalidated = (name (codes "peers_list") ∷ []) ∷ [];
  toasted = some (codes "Peers synced successfully");
}

unfoldable pub use_update_peer_share_expire_mutation : Mutation (ℕ × Fields) (Unit {0})
use_update_peer_share_expire_mutation = record {
  mutation_fn = λ a. update_peer_share_expire a.0 a.1;
  invalidated = (name (codes "peer_share") ∷ []) ∷ [];
  toasted = none;
}

unfoldable pub use_update_peer_share_status_mutation : Mutation ℕ (Unit {0})
use_update_peer_share_status_mutation = record {
  mutation_fn = update_peer_share_status;
  invalidated = (name (codes "peer_share") ∷ []) ∷ [];
  toasted = none;
}

unfoldable pub use_update_peer_status_mutation : Mutation ℕ (Unit {0})
use_update_peer_status_mutation = record {
  mutation_fn = update_peer_status;
  invalidated = (name (codes "peers_list") ∷ []) ∷ (name (codes "device_data") ∷ []) ∷ [];
  toasted = none;
}

unfoldable pub use_delete_server_mutation : Mutation ℕ (Unit {0})
use_delete_server_mutation = record {
  mutation_fn = delete_server;
  invalidated = (name (codes "servers_list") ∷ []) ∷ [];
  toasted = none;
}

unfoldable pub use_update_server_status_mutation : Mutation ℕ (Unit {0})
use_update_server_status_mutation = record {
  mutation_fn = update_server_status;
  invalidated = (name (codes "servers_list") ∷ []) ∷ [];
  toasted = none;
}

module _ (z : Zod) where
  unfoldable pub use_login_mutation : Mutation Value (Option Value)
  use_login_mutation = record {
    mutation_fn = login z;
    invalidated = (name (codes "device_data") ∷ []) ∷ [];
    toasted = none;
  }

  unfoldable pub use_create_interface_mutation : Mutation Value (Option Value)
  use_create_interface_mutation = record {
    mutation_fn = create_interface z;
    invalidated = (name (codes "interfaces_list") ∷ []) ∷ [];
    toasted = none;
  }

  unfoldable pub use_update_interface_mutation : Mutation (ℕ × Fields) (Option Value)
  use_update_interface_mutation = record {
    mutation_fn = λ a. update_interface z a.0 a.1;
    invalidated = (name (codes "interfaces_list") ∷ []) ∷ [];
    toasted = none;
  }

  unfoldable pub use_create_ip_pool_mutation : Mutation Value (Option Value)
  use_create_ip_pool_mutation = record {
    mutation_fn = create_ip_pool z;
    invalidated = (name (codes "ip_pools_list") ∷ []) ∷ [];
    toasted = none;
  }

  unfoldable pub use_update_ip_pool_mutation : Mutation (ℕ × Fields) (Option Value)
  use_update_ip_pool_mutation = record {
    mutation_fn = λ a. update_ip_pool z a.0 a.1;
    invalidated = (name (codes "ip_pools_list") ∷ []) ∷ [];
    toasted = none;
  }

  unfoldable pub use_create_peer_mutation : Mutation Value (Option Value)
  use_create_peer_mutation = record {
    mutation_fn = create_peer z;
    invalidated = (name (codes "peers_list") ∷ []) ∷ [];
    toasted = none;
  }

  unfoldable pub use_peer_allowed_address_mutation : Mutation Value (Option Value)
  use_peer_allowed_address_mutation = record {
    mutation_fn = fetch_peer_allowed_address z;
    invalidated = [];
    toasted = none;
  }

  unfoldable pub use_update_peer_mutation : Mutation (ℕ × Fields) (Option Value)
  use_update_peer_mutation = record {
    mutation_fn = λ a. update_peer z a.0 a.1;
    invalidated = (name (codes "peers_list") ∷ []) ∷ [];
    toasted = none;
  }

  unfoldable pub use_create_server_mutation : Mutation Value (Option Value)
  use_create_server_mutation = record {
    mutation_fn = create_server z;
    invalidated = (name (codes "servers_list") ∷ []) ∷ [];
    toasted = none;
  }

  unfoldable pub use_update_server_mutation : Mutation (ℕ × Fields) (Option Value)
  use_update_server_mutation = record {
    mutation_fn = λ a. update_server z a.0 a.1;
    invalidated = (name (codes "servers_list") ∷ []) ∷ [];
    toasted = none;
  }
