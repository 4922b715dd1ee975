-- ===== src/Schema/ApiResponse.antt =====
-- ui/src/schema/api-response.ts, one schema for each that the file declares.
use wgpanelne.Prelude.{[], ◌∷◌}
use wgpanelne.Js.Strings.{codes}
use wgpanelne.Zod.Syntax.{Schema, done, entry, enum, number, object}

abbrev pub api_status_enum : Schema
api_status_enum = enum (codes "success" ∷ codes "error" ∷ [])

abbrev pub create_api_response_schema : Schema → Schema
create_api_response_schema data_schema = object (
    entry (codes "statusCode") number
      (entry (codes "status") api_status_enum (entry (codes "data") data_schema done)))
