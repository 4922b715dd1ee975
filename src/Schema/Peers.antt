-- ===== src/Schema/Peers.antt =====
-- ui/src/schema/peers.ts, one schema for each that the file declares.
use wgpanelne.Prelude.{[], ◌∷◌}
use wgpanelne.Prelude.{false}
use wgpanelne.Js.Strings.{codes}
use wgpanelne.Zod.Syntax.{
  Schema, array, boolean, default_bool, done, entry, enum, int, min_length, min_number, nullable,
  number, object, optional, positive, string,
}
use wgpanelne.Schema.ApiResponse.{create_api_response_schema}

abbrev pub peer_status_enum : Schema
peer_status_enum =
    enum (codes "active" ∷ codes "inactive" ∷ codes "expired" ∷ codes "suspended" ∷ [])

abbrev pub peer_schema : Schema
peer_schema = object (
    entry (codes "id") number (
      entry (codes "uuid") string (
        entry (codes "disabled") boolean (
          entry (codes "comment") (nullable string) (
            entry (codes "telegram_username") (nullable string) (
              entry (codes "telegram_linked") (default_bool false boolean) (
                entry (codes "name") string (
                  entry (codes "interface") string (
                    entry (codes "allowed_address") string (
                      entry (codes "traffic_limit") (nullable string) (
                        entry (codes "expire_time") (nullable string) (
                          entry (codes "download_bandwidth") (nullable string) (
                            entry (codes "upload_bandwidth") (nullable string) (
                              entry (codes "total_usage") string (
                                entry (codes "status") (array peer_status_enum) (
                                  entry (codes "is_online") boolean
                                    (entry (codes "is_shared") boolean done)))))))))))))))))

abbrev pub peers_schema : Schema
peers_schema = nullable (array peer_schema)

abbrev pub peer_allowed_address_schema : Schema
peer_allowed_address_schema = object (entry (codes "allowed_address") string done)

abbrev pub peer_credentials_schema : Schema
peer_credentials_schema =
    object (entry (codes "private_key") string (entry (codes "public_key") string done))

abbrev pub peer_share_schema : Schema
peer_share_schema = object (
    entry (codes "is_shared") boolean
      (entry (codes "uuid") (nullable string) (entry (codes "expire_time") (nullable string) done)))

abbrev pub peer_stats_schema : Schema
peer_stats_schema = object (
    entry (codes "name") string (
      entry (codes "uuid") string (
        entry (codes "expire_time") (nullable string) (
          entry (codes "traffic_limit") (nullable string) (
            entry (codes "download_usage") string (
              entry (codes "upload_usage") string (
                entry (codes "total_usage") string (
                  entry (codes "usage_percent") (nullable string)
                    (entry (codes "is_online") boolean done)))))))))

abbrev pub peer_response_schema : Schema
peer_response_schema = create_api_response_schema peer_schema

abbrev pub peers_response_schema : Schema
peers_response_schema = create_api_response_schema peers_schema

abbrev pub peer_allowed_address_response_schema : Schema
peer_allowed_address_response_schema = create_api_response_schema peer_allowed_address_schema

abbrev pub peer_credentials_response_schema : Schema
peer_credentials_response_schema = create_api_response_schema peer_credentials_schema

abbrev pub peer_session_status_enum : Schema
peer_session_status_enum = enum (codes "ongoing" ∷ codes "ended" ∷ [])

abbrev pub peer_session_schema : Schema
peer_session_schema = object (
    entry (codes "id") number (
      entry (codes "status") peer_session_status_enum (
        entry (codes "connected_at") string (
          entry (codes "disconnected_at") (nullable string) (
            entry (codes "duration") number (
              entry (codes "duration_label") string (
                entry (codes "endpoint") (nullable string) (
                  entry (codes "download_usage") string (
                    entry (codes "upload_usage") string
                      (entry (codes "total_usage") string done))))))))))

abbrev pub peer_sessions_schema : Schema
peer_sessions_schema = object (
    entry (codes "peer_id") number (
      entry (codes "peer_name") string (
        entry (codes "total_sessions") number (
          entry (codes "ongoing_sessions") number (
            entry (codes "total_duration") number (
              entry (codes "total_duration_label") string (
                entry (codes "total_download_usage") string (
                  entry (codes "total_upload_usage") string (
                    entry (codes "total_usage") string
                      (entry (codes "sessions") (array peer_session_schema) done))))))))))

abbrev pub peer_share_response_schema : Schema
peer_share_response_schema = create_api_response_schema peer_share_schema

abbrev pub peer_stats_response_schema : Schema
peer_stats_response_schema = create_api_response_schema peer_stats_schema

abbrev pub peer_sessions_response_schema : Schema
peer_sessions_response_schema = create_api_response_schema peer_sessions_schema

abbrev pub fetch_peer_allowed_address_schema : Schema
fetch_peer_allowed_address_schema =
    object (entry (codes "interface_id") (positive (int number)) done)

abbrev pub create_peer_schema : Schema
create_peer_schema = object (
    entry (codes "comment") (nullable (optional string)) (
      entry (codes "name") (min_length 1 (codes "Name is required") string) (
        entry (codes "interface_id") (min_number 1 (codes "Interface ID is required") number) (
          entry (codes "private_key") (min_length 1 (codes "Private Key is required") string) (
            entry (codes "public_key") (min_length 1 (codes "Public Key is required") string) (
              entry (codes "allowed_address")
                (min_length 1 (codes "Allowed Address is required") string)
                (entry (codes "preshared_key") (nullable (optional string)) (
                  entry (codes "persistent_keepalive") (nullable (optional string)) (
                    entry (codes "endpoint") (min_length 1 (codes "Endpoint is required") string) (
                      entry (codes "expire_time") (nullable (optional string)) (
                        entry (codes "traffic_limit") (nullable (optional string)) (
                          entry (codes "download_bandwidth") (nullable (optional string)) (
                            entry (codes "upload_bandwidth") (nullable (optional string))
                              done)))))))))))))

abbrev pub update_peer_schema : Schema
update_peer_schema = object (
    entry (codes "id") (positive (int number)) (
      entry (codes "disabled") (optional boolean) (
        entry (codes "comment") (nullable (optional string)) (
          entry (codes "name") (min_length 1 (codes "Name is required") string) (
            entry (codes "allowed_address")
              (min_length 1 (codes "Allowed Address is required") string)
              (entry (codes "persistent_keepalive") (nullable (optional string)) (
                entry (codes "expire_time") (nullable (optional string)) (
                  entry (codes "traffic_limit") (nullable (optional string)) (
                    entry (codes "download_bandwidth") (nullable (optional string))
                      (entry (codes "upload_bandwidth") (nullable (optional string)) done))))))))))

abbrev pub update_peer_share_expire_schema : Schema
update_peer_share_expire_schema = object (
    entry (codes "id") (positive (int number))
      (entry (codes "expire_time") (nullable (optional string)) done))
