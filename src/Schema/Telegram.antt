-- ===== src/Schema/Telegram.antt =====
-- ui/src/schema/telegram.ts, one schema for each that the file declares.
use wgpanelne.Js.Strings.{codes}
use wgpanelne.Zod.Syntax.{Schema, boolean, done, entry, nullable, object, optional, string}
use wgpanelne.Schema.ApiResponse.{create_api_response_schema}

abbrev pub telegram_status_schema : Schema
telegram_status_schema = object (
    entry (codes "enabled") boolean (
      entry (codes "bot_username") (optional string)
        (entry (codes "bot_url") (optional string) done)))

abbrev pub telegram_status_response_schema : Schema
telegram_status_response_schema = create_api_response_schema telegram_status_schema

abbrev pub peer_telegram_status_schema : Schema
peer_telegram_status_schema = object (
    entry (codes "linked") boolean (
      entry (codes "username") (optional (nullable string))
        (entry (codes "notify_enabled") boolean done)))

abbrev pub peer_telegram_status_response_schema : Schema
peer_telegram_status_response_schema = create_api_response_schema peer_telegram_status_schema
