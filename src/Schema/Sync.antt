-- ===== src/Schema/Sync.antt =====
-- ui/src/schema/sync.ts, one schema for each that the file declares.
use wgpanelne.Js.Strings.{codes}
use wgpanelne.Zod.Syntax.{Schema, array, boolean, done, entry, nullable, object, string}
use wgpanelne.Schema.ApiResponse.{create_api_response_schema}

abbrev pub sync_interface_preview_schema : Schema
sync_interface_preview_schema = object (
    entry (codes "id") string (
      entry (codes "disabled") boolean (
        entry (codes "comment") (nullable string) (
          entry (codes "name") string (
            entry (codes "listen_port") string
              (entry (codes "mtu") string (entry (codes "is_running") boolean done)))))))

abbrev pub sync_peer_preview_schema : Schema
sync_peer_preview_schema = object (
    entry (codes "id") string (
      entry (codes "disabled") boolean (
        entry (codes "comment") (nullable string) (
          entry (codes "name") string
            (entry (codes "interface") string (entry (codes "allowed_address") string done))))))

abbrev pub sync_interfaces_response_schema : Schema
sync_interfaces_response_schema = create_api_response_schema (array sync_interface_preview_schema)

abbrev pub sync_peers_response_schema : Schema
sync_peers_response_schema = create_api_response_schema (array sync_peer_preview_schema)

abbrev pub sync_interfaces_request_schema : Schema
sync_interfaces_request_schema = object (entry (codes "interface_ids") (array string) done)

abbrev pub sync_peers_request_schema : Schema
sync_peers_request_schema = object (entry (codes "peer_ids") (array string) done)
