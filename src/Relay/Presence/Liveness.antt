-- ===== src/Relay/Presence/Liveness.antt =====
-- Which devices a presence check removes.
use pocketclaude.Base.{
  GoString, str_eq, str_eq_iff, str_eq_refl, ◌≡◌, refl, ap, ◌∙◌, Bool, true, false, ◌&&◌, ◌||◌,
  Option, some, none, List, [], ◌∷◌, arith, if◌then◌else◌, ◌==◌, option_split,
}
use pocketclaude.Base.GoMap.{lookup, Unique}
use pocketclaude.Relay.Protocol.{Time}
use pocketclaude.Relay.Registry.{Conn, DeviceInfo, Registry, unregister, update_last_seen}
use pocketclaude.Relay.Registry.Laws.{lookup-unregister, lookup-update_last_seen, unless_owned}
use pocketclaude.Relay.Registry.Invariant.{IsWellFormed}
use pocketclaude.Relay.Net.{Env, World, write, close}
use pocketclaude.Relay.Net.Laws.{registry-post_all}
use pocketclaude.Relay.Presence.{is_stale, scan, announce_stale, remove_stale, sweep, check}

-- Some device of the list has this id and this connection.
unfoldable pub claimed : GoString → Conn → List DeviceInfo → Bool
claimed id conn [] = false
claimed id conn (dev ∷ stale) =
    (str_eq dev.device_id id && conn == dev.conn) || claimed id conn stale

-- What a sweep over `stale` leaves of an entry.
abbrev pub swept : GoString → List DeviceInfo → Option DeviceInfo → Option DeviceInfo
swept id stale none = none
swept id stale (some dev) = if claimed id dev.conn stale then none else some dev

swept-cons :
    (dev : DeviceInfo) (stale : List DeviceInfo) (j : GoString) (o : Option DeviceInfo)
    → swept j stale (if str_eq dev.device_id j then unless_owned dev.conn o else o)
      ≡ swept j (dev ∷ stale) o
unfolding claimed
swept-cons dev stale j o = ground arith

unregister-none :
    (r : Registry) (id : GoString) (conn : Conn)
    → (unregister r id conn).1 ≡ none
    → r ≡ (unregister r id conn).0
unfolding unregister
unregister-none r id conn h = ground arith

module _ (env : Env) where
  pub registry-remove_stale :
      (dev : DeviceInfo) (w : World)
      → (remove_stale env dev w).registry ≡ (unregister w.registry dev.device_id dev.conn).0
  unfolding remove_stale announce_stale write close
  registry-remove_stale dev w =
      option_split (λ (v : World). v.registry ≡ u.0) u.1
        (unregister-none w.registry dev.device_id dev.conn) (λ d _. registry-post_all env _ _ _)
    where
      u : Registry × Option DeviceInfo
      u = unregister w.registry dev.device_id dev.conn

  -- A sweep, whatever has happened to the registry since its scan, removes exactly the entries that
  -- have the id and the connection of a scanned device.
  pub lookup-sweep :
      (stale : List DeviceInfo) (w : World) (j : GoString)
      → lookup j (sweep env stale w).registry ≡ swept j stale (lookup j w.registry)
  unfolding sweep claimed
  lookup-sweep [] w j = ground arith
  lookup-sweep (dev ∷ stale) w j =
      lookup-sweep stale (remove_stale env dev w) j
      ∙ ap (swept j stale) (
          ap (lookup j) (registry-remove_stale dev w)
          ∙ lookup-unregister w.registry dev.device_id dev.conn j)
      ∙ swept-cons dev stale j (lookup j w.registry)

pub claimed-scan-none :
    (now : Time) (r : Registry) (j : GoString) (conn : Conn)
    → IsWellFormed r
    → lookup j r ≡ none
    → claimed j conn (scan now r) ≡ false
unfolding claimed scan lookup
claimed-scan-none now [] j conn h free = refl
claimed-scan-none now ((k, d) ∷ r) j conn h free =
    ground (arith, claimed-scan-none now r j conn h.1, h.0.keyed)

claimed-scan :
    (now : Time) (r : Registry) (j : GoString) (dev : DeviceInfo)
    → IsWellFormed r
    → Unique r
    → lookup j r ≡ some dev
    → claimed j dev.conn (scan now r) ≡ is_stale now dev
unfolding claimed scan lookup
claimed-scan now [] j dev h u found = cc
claimed-scan now ((k, d) ∷ r) j dev h u found = ground (
  arith,
  claimed-scan now r j dev h.1 u.1,
  claimed-scan-none now r j dev.conn h.1,
  h.0.keyed,
  u.0,
  str_eq_iff k j,
)

-- A check removes exactly the devices whose last heartbeat is more than the threshold ago.
pub lookup-check :
    (env : Env) (now : Time) (w : World) (j : GoString)
    → IsWellFormed w.registry
    → Unique w.registry
    → lookup j (check env now w).registry ≡ elim (lookup j w.registry) [
      | none ↦ none
      | some dev ↦ if is_stale now dev then none else some dev
    ]
unfolding check
lookup-check env now w j h u =
    lookup-sweep env (scan now w.registry) w j ∙ left (lookup j w.registry) refl
  where
    left :
        (o : Option DeviceInfo)
        → lookup j w.registry ≡ o
        → swept j (scan now w.registry) o
          ≡ elim o [ none ↦ none | some dev ↦ if is_stale now dev then none else some dev ]
    left none e = refl
    left (some dev) e = rw (claimed-scan now w.registry j dev h u e)

-- A heartbeat that falls between the scan of a check and its sweep comes too late: the device is
-- removed although it has just been seen, and on the same connection.
late_heartbeat :
    (env : Env) (scanned beat : Time) (w : World) (id : GoString) (dev : DeviceInfo)
    → IsWellFormed w.registry
    → Unique w.registry
    → lookup id w.registry ≡ some dev
    → is_stale scanned dev ≡ true
    → let alive : World = record w { registry = update_last_seen w.registry id beat } in
      (lookup id alive.registry ≡ some (record dev { last_seen = beat }))
      × (lookup id (sweep env (scan scanned w.registry) alive).registry ≡ none)
late_heartbeat env scanned beat w id dev h u found stale = (seen, gone)
  where
    seen : lookup id (update_last_seen w.registry id beat) ≡ some (record dev { last_seen = beat })
    seen = lookup-update_last_seen w.registry id beat id ∙ ground (arith, found, str_eq_refl id)

    gone :
        lookup id
          (sweep env
            (scan scanned w.registry)
            (record w { registry = update_last_seen w.registry id beat })).registry
        ≡ none
    gone =
        lookup-sweep env (scan scanned w.registry) _ id
        ∙ ap (swept id (scan scanned w.registry)) seen
        ∙ rw (claimed-scan scanned w.registry id dev h u found) (ground (arith, stale))
