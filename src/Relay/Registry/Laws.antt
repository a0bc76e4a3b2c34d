-- ===== src/Relay/Registry/Laws.antt =====
-- What each operation of the registry does to a lookup, and to a property of all entries.
use pocketclaude.Base.{
  GoString, str_eq, str_eq_iff, ◌≡◌, refl, Option, none, some, [], ◌∷◌, arith, true, false,
  if◌then◌else◌, ◌==◌,
}
use pocketclaude.Base.GoMap.{lookup, delete, lookup-insert, lookup-delete, Every}
use pocketclaude.Relay.Protocol.{Time}
use pocketclaude.Relay.Registry.{
  Conn, DeviceInfo, Registry, register, update_last_seen, unregister, touch,
}

pub lookup-register :
    (r : Registry) (id ty key : GoString) (conn : Conn) (now : Time) (j : GoString)
    → lookup j (register r id ty key conn now) ≡ (
        if str_eq id j
        then some (record {
          device_id = id;
          device_type = ty;
          public_key = key;
          conn = conn;
          registered = now;
          last_seen = now;
        })
        else lookup j r)
unfolding register
lookup-register r id ty key conn now j = lookup-insert id j _ r

-- The entry that `unregister` removes, if the connection matches.
pub owned_by : Conn → Option DeviceInfo → Option DeviceInfo
owned_by conn none = none
owned_by conn (some dev) = if dev.conn == conn then some dev else none

pub unregister-snd :
    (r : Registry) (id : GoString) (conn : Conn)
    → (unregister r id conn).1 ≡ owned_by conn (lookup id r)
unfolding unregister owned_by
unregister-snd r id conn = ground arith

pub unregister_miss :
    (r : Registry) (id : GoString) (conn : Conn)
    → owned_by conn (lookup id r) ≡ none
    → unregister r id conn ≡ (r, none)
unfolding unregister owned_by
unregister_miss r id conn h = ground arith

pub unregister_hit :
    (r : Registry) (id : GoString) (conn : Conn) (dev : DeviceInfo)
    → owned_by conn (lookup id r) ≡ some dev
    → unregister r id conn ≡ (delete id r, some dev)
unfolding unregister owned_by
unregister_hit r id conn dev h = ground arith

pub lookup-touch :
    (id : GoString) (now : Time) (r : Registry) (j : GoString)
    → lookup j (touch id now r) ≡ elim (lookup j r) [
      | none ↦ none
      | some dev ↦ some (if str_eq j id then record dev { last_seen = now } else dev)
    ]
unfolding lookup touch
lookup-touch id now [] j = refl
lookup-touch id now ((k, dev) ∷ r) j =
    ground (arith, lookup-touch id now r j, str_eq_iff k j, str_eq_iff k id, str_eq_iff j id)

pub Every-touch {κ} :
    (P : GoString → DeviceInfo → Type κ) (id : GoString) (now : Time) (r : Registry)
    → ((k : GoString) (dev : DeviceInfo) → P k dev → P k (record dev { last_seen = now }))
    → Every P r
    → Every P (touch id now r)
unfolding touch
Every-touch P id now [] f h = tt
Every-touch P id now ((k, dev) ∷ r) f h = (
  elim (str_eq k id)
      as (λ b.
        let e : GoString × DeviceInfo =
          if b then (k, record dev { last_seen = now }) else (k, dev) in
        P e.0 e.1) [ true ↦ f k dev h.0 | false ↦ h.0 ],
  Every-touch P id now r f h.1,
)

-- What is left of an entry when `conn` gives it up.
abbrev pub unless_owned : Conn → Option DeviceInfo → Option DeviceInfo
unless_owned conn none = none
unless_owned conn (some dev) = if dev.conn == conn then none else some dev

-- `unregister` takes away the entry of its id, and only if the connection is the entry's.
pub lookup-unregister :
    (r : Registry) (id : GoString) (conn : Conn) (j : GoString)
    → lookup j (unregister r id conn).0
      ≡ (if str_eq id j then unless_owned conn (lookup j r) else lookup j r)
unfolding unregister
lookup-unregister r id conn j = ground (arith, lookup-delete id j r, str_eq_iff id j)

pub lookup-update_last_seen :
    (r : Registry) (id : GoString) (now : Time) (j : GoString)
    → lookup j (update_last_seen r id now) ≡ elim (lookup j r) [
      | none ↦ none
      | some dev ↦ some (if str_eq j id then record dev { last_seen = now } else dev)
    ]
unfolding update_last_seen
lookup-update_last_seen r id now j = ground (arith, lookup-touch id now r j, str_eq_iff j id)
