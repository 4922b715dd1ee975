-- ===== src/Schema/Servers.antt =====
-- ui/src/schema/servers.ts, one schema for each that the file declares.
use wgpanelne.Prelude.{[], ◌∷◌}
use wgpanelne.Js.Strings.{codes}
use wgpanelne.Zod.Syntax.{
  Schema, array, boolean, done, entry, enum, int, min_length, nullable, number, object, optional,
  positive, string,
}
use wgpanelne.Schema.ApiResponse.{create_api_response_schema}

abbrev pub server_status_enum : Schema
server_status_enum = enum (codes "available" ∷ codes "not_available" ∷ [])

abbrev pub server_schema : Schema
server_schema = object (
    entry (codes "id") number (
      entry (codes "comment") (nullable string) (
        entry (codes "name") string (
          entry (codes "ip_address") string (
            entry (codes "api_port") string (
              entry (codes "status") server_status_enum
                (entry (codes "is_active") boolean done)))))))

abbrev pub create_server_schema : Schema
create_server_schema = object (
    entry (codes "comment") (nullable (optional string)) (
      entry (codes "name") (min_length 1 (codes "Name is required") string) (
        entry (codes "ip_address") (min_length 1 (codes "IP Address is required") string) (
          entry (codes "api_port") (min_length 1 (codes "Rest API Port is required") string) (
            entry (codes "is_ssl") boolean (
              entry (codes "username") (min_length 1 (codes "Username is required") string) (
                entry (codes "password") (min_length 1 (codes "Password is required") string)
                  done)))))))

abbrev pub update_server_schema : Schema
update_server_schema = object (
    entry (codes "id") (positive (int number)) (
      entry (codes "comment") (nullable (optional string)) (
        entry (codes "name") (nullable (optional string)) (
          entry (codes "ip_address") (nullable (optional string)) (
            entry (codes "api_port") (nullable (optional string)) (
              entry (codes "username") (nullable (optional string))
                (entry (codes "password") (nullable (optional string)) done)))))))

abbrev pub servers_schema : Schema
servers_schema = nullable (array server_schema)

abbrev pub server_response_schema : Schema
server_response_schema = create_api_response_schema server_schema

abbrev pub servers_response_schema : Schema
servers_response_schema = create_api_response_schema servers_schema
