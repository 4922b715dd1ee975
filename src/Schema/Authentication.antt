-- ===== src/Schema/Authentication.antt =====
-- ui/src/schema/authentication.ts, one schema for each that the file declares.
use wgpanelne.Prelude.{[]}
use wgpanelne.Js.Strings.{codes}
use wgpanelne.Zod.Syntax.{
  Schema, done, either, entry, literal, min_length, number, object, optional, string,
}
use wgpanelne.Schema.ApiResponse.{create_api_response_schema}

abbrev pub login_request_schema : Schema
login_request_schema = object (
    entry (codes "username") (min_length 1 (codes "Please enter your username") string) (
      entry (codes "password")
        (min_length 7 (codes "Password must be at least 7 characters long")
          (min_length 1 (codes "Please enter your password") string))
        done))

abbrev pub login_response_schema : Schema
login_response_schema = object (
    entry (codes "user_id") number (
      entry (codes "username") string (
        entry (codes "access_token") string
          (entry (codes "refresh_token") string (entry (codes "expires_in") number done)))))

abbrev pub login_response : Schema
login_response = create_api_response_schema login_response_schema

abbrev pub update_profile_schema : Schema
update_profile_schema = object (
    entry (codes "old_username") (min_length 1 (codes "Please enter your username") string) (
      entry (codes "old_password") (min_length 1 (codes "Please enter your password") string) (
        entry (codes "new_username") (optional string) (
          entry (codes "new_password")
            (either
              (optional (min_length 8 (codes "Password must be at least 8 characters long") string))
              (literal []))
            done))))
