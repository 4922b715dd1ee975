-- ===== src/Schema/IpPool.antt =====
-- ui/src/schema/ip-pool.ts, one schema for each that the file declares.
use wgpanelne.Js.Strings.{codes}
use wgpanelne.Zod.Syntax.{
  Schema, array, done, entry, min_length, min_number, nullable, number, object, optional, string,
}
use wgpanelne.Schema.ApiResponse.{create_api_response_schema}

abbrev pub ip_pool_schema : Schema
ip_pool_schema = object (
    entry (codes "id") number (
      entry (codes "name") string (
        entry (codes "start_ip") string (
          entry (codes "end_ip") string (
            entry (codes "total_ip") number (
              entry (codes "used_ip") number (
                entry (codes "remaining_ip") number
                  (entry (codes "last_used_ip") (optional (nullable string)) done))))))))

abbrev pub ip_pools_schema : Schema
ip_pools_schema = nullable (array ip_pool_schema)

abbrev pub ip_pool_response_schema : Schema
ip_pool_response_schema = create_api_response_schema ip_pool_schema

abbrev pub ip_pools_response_schema : Schema
ip_pools_response_schema = create_api_response_schema ip_pools_schema

abbrev pub create_ip_pool_schema : Schema
create_ip_pool_schema = object (
    entry (codes "name") (min_length 1 (codes "Name is required") string) (
      entry (codes "interface_id") (min_number 1 (codes "Interface ID is required") number) (
        entry (codes "start_ip") (min_length 1 (codes "Start IP is required") string)
          (entry (codes "end_ip") (min_length 1 (codes "End IP is required") string) done))))

abbrev pub update_ip_pool_schema : Schema
update_ip_pool_schema = object (
    entry (codes "id") (min_number 1 (codes "ID is required") number) (
      entry (codes "name") (min_length 1 (codes "Name is required") string) (
        entry (codes "start_ip") (min_length 1 (codes "Start IP is required") string)
          (entry (codes "end_ip") (min_length 1 (codes "End IP is required") string) done))))
