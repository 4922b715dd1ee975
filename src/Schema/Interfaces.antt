-- ===== src/Schema/Interfaces.antt =====
-- ui/src/schema/interfaces.ts, one schema for each that the file declares.
use wgpanelne.Js.Strings.{codes}
use wgpanelne.Zod.Syntax.{
  Schema, array, boolean, done, entry, int, min_length, nullable, number, object, optional,
  positive, string,
}
use wgpanelne.Schema.ApiResponse.{create_api_response_schema}

abbrev pub interface_schema : Schema
interface_schema = object (
    entry (codes "id") number (
      entry (codes "interface_id") string (
        entry (codes "disabled") boolean (
          entry (codes "comment") (nullable string) (
            entry (codes "name") string (
              entry (codes "listen_port") string
                (entry (codes "mtu") string (entry (codes "is_running") boolean done))))))))

abbrev pub interfaces_schema : Schema
interfaces_schema = nullable (array interface_schema)

abbrev pub create_interface_schema : Schema
create_interface_schema = object (
    entry (codes "comment") (nullable (optional string)) (
      entry (codes "name") (min_length 1 (codes "Name is required") string)
        (entry (codes "listen_port") (min_length 1 (codes "Listen Port is required") string) done)))

abbrev pub update_interface_schema : Schema
update_interface_schema = object (
    entry (codes "id") (positive (int number)) (
      entry (codes "disabled") (optional boolean) (
        entry (codes "comment") (nullable (optional string))
          (entry (codes "name") (optional string) done))))

abbrev pub interface_response_schema : Schema
interface_response_schema = create_api_response_schema interface_schema

abbrev pub interfaces_response_schema : Schema
interfaces_response_schema = create_api_response_schema interfaces_schema
