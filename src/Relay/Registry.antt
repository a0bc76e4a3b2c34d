-- ===== src/Relay/Registry.antt =====
-- relay/internal/registry/registry.go. Each operation holds the lock, so it is one step. Times are
-- arguments.
pub mod Laws
pub mod Invariant
pub mod Ordering
pub mod Refinement
use pocketclaude.Base.{
  ℕ, GoString, str_eq, Option, none, some, List, [], map, filter, length, if◌then◌else◌, ◌==◌,
}
use pocketclaude.Base.GoMap.{GoMap, lookup, insert, delete, values}
use pocketclaude.Relay.Protocol.{Time}

-- A `*websocket.Conn` by its identity; 0 is nil.
abbrev pub Conn : Type 0
Conn = ℕ

pub record DeviceInfo : Type 0 where
  pub device_id : GoString
  pub device_type : GoString
  pub public_key : GoString
  pub conn : Conn
  pub registered : Time
  pub last_seen : Time

abbrev pub Registry : Type 0
Registry = GoMap DeviceInfo

abbrev pub new : Registry
new = []

unfoldable pub register : Registry → GoString → GoString → GoString → Conn → Time → Registry
register r device_id device_type public_key conn now =
    insert device_id
      (record {
        device_id = device_id;
        device_type = device_type;
        public_key = public_key;
        conn = conn;
        registered = now;
        last_seen = now;
      })
      r

-- The new registry, and the removed device.
unfoldable pub unregister : Registry → GoString → Conn → Registry × Option DeviceInfo
unregister r device_id conn = elim (lookup device_id r) [
  | none ↦ (r, none)
  | some dev ↦ if dev.conn == conn then (delete device_id r, some dev) else (r, none)
]

abbrev pub get : Registry → GoString → Option DeviceInfo
get r device_id = lookup device_id r

-- `dev.LastSeen = now` writes through the pointer in the map.
unfoldable pub touch : GoString → Time → Registry → Registry
touch device_id now =
    map λ e. if str_eq e.0 device_id then (e.0, record (e.1) { last_seen = now }) else e

unfoldable pub update_last_seen : Registry → GoString → Time → Registry
unfolding touch
update_last_seen r device_id now = elim (lookup device_id r) [
  | none ↦ r
  | some dev ↦ touch device_id now r
]

-- A copy of the three fields that a client may see; the others are zero.
abbrev pub snapshot : DeviceInfo → DeviceInfo
snapshot dev = record {
  device_id = dev.device_id;
  device_type = dev.device_type;
  public_key = dev.public_key;
  conn = 0;
  registered = 0;
  last_seen = 0;
}

unfoldable pub list_online : Registry → List DeviceInfo
list_online r = map snapshot (values r)

unfoldable pub list_online_by_type : Registry → GoString → List DeviceInfo
list_online_by_type r device_type =
    map snapshot (filter (λ dev. str_eq dev.device_type device_type) (values r))

unfoldable pub size : Registry → ℕ
size r = length r
