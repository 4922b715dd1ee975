-- ===== src/Schema/Dashboard.antt =====
-- ui/src/schema/dashboard.ts, one schema for each that the file declares.
use wgpanelne.Js.Strings.{codes}
use wgpanelne.Zod.Syntax.{Schema, array, done, entry, nullable, number, object, optional, string}
use wgpanelne.Schema.ApiResponse.{create_api_response_schema}

abbrev pub recent_online_peer_schema : Schema
recent_online_peer_schema =
    object (entry (codes "name") string (entry (codes "last_seen") string done))

abbrev pub device_data_schema : Schema
device_data_schema = object (
    entry (codes "ServerInfo")
      (object (entry (codes "total_servers") number (entry (codes "active_servers") number done)))
      (entry (codes "InterfaceInfo")
        (object
          (entry (codes "total_interfaces") number (entry (codes "active_interfaces") number done)))
        (entry (codes "PeerInfo")
          (object (
            entry (codes "recent_online_peers") (nullable (array recent_online_peer_schema)) (
              entry (codes "total_peers") number (
                entry (codes "online_peers") number (
                  entry (codes "offline_peers") number
                    (entry (codes "disabled_peers") number done))))))
          (entry (codes "TrafficInfo") (object (entry (codes "total_usage") string done)) (
            entry (codes "DeviceIdentity") (object (entry (codes "identity") string done)) (
              entry (codes "DeviceInfo")
                (object (
                  entry (codes "board_name") string (
                    entry (codes "os_version") string (
                      entry (codes "cpu_arch") string (
                        entry (codes "uptime") string (
                          entry (codes "cpu_load") string (
                            entry (codes "total_memory") string (
                              entry (codes "free_memory") string (
                                entry (codes "total_disk") string
                                  (entry (codes "free_disk") string done))))))))))
                (entry (codes "DeviceIPv4Address")
                  (nullable (
                    object (
                      entry (codes "ipv4") (optional string)
                        (entry (codes "isp") (optional string) done))))
                  (entry (codes "DNSConfig")
                    (nullable (object (entry (codes "dns_servers") string done))) done))))))))

abbrev pub traffic_usage_schema : Schema
traffic_usage_schema = object (
    entry (codes "interface_id") number (
      entry (codes "date") string (
        entry (codes "download") string
          (entry (codes "upload") string (entry (codes "total") string done)))))

abbrev pub daily_traffic_usage_schema : Schema
daily_traffic_usage_schema = nullable (array traffic_usage_schema)

abbrev pub device_data_response_schema : Schema
device_data_response_schema = create_api_response_schema device_data_schema

abbrev pub daily_traffic_usage_response_schema : Schema
daily_traffic_usage_response_schema = create_api_response_schema daily_traffic_usage_schema
