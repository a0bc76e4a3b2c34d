-- ===== src/Relay/Presence/Schedule.antt =====
-- Heartbeats, registrations and presence checks in any order.
use mathlib.Core.Path.{subst}
use mathlib.Core.Option.{map}
use pocketclaude.Base.{
  GoString, text, str_eq, ◌-◌, ltb, ◌≡◌, ◌≢◌, sym, ◌⊎◌, Option, some, none, List, [], ◌∷◌,
  if◌then◌else◌,
}
use pocketclaude.Base.GoMap.{lookup}
use pocketclaude.Relay.Protocol.{Time}
use pocketclaude.Relay.Registry.{Conn, DeviceInfo, Registry, register, update_last_seen}
use pocketclaude.Relay.Registry.Invariant.{IsValid, unregister-IsValid}
use pocketclaude.Relay.Net.{Env, World}
use pocketclaude.Relay.Presence.{stale_threshold, remove_stale, sweep, check}
use pocketclaude.Relay.Presence.Liveness.{registry-remove_stale}

-- A check of the presence service, a heartbeat, or a registration, at a time.
pub data Happening : Type 0 where
  checks : Time → Happening
  beats : GoString → Time → Happening
  registers : GoString → GoString → GoString → Conn → Time → Happening

-- A registration has an id and one of the two types.
abbrev pub IsAccepted : Happening → Type 0
IsAccepted (checks now) = Unit
IsAccepted (beats id now) = Unit
IsAccepted (registers id ty key conn now) = (id ≢ []) × ((ty ≡ text "agent") ⊎ (ty ≡ text "client"))

-- When one device was last seen, by its own events and the checks.
abbrev pub seen_after : GoString → Happening → Option Time → Option Time
seen_after j (checks now) none = none
seen_after j (checks now) (some last) = if ltb stale_threshold (now - last) then none else some last
seen_after j (beats id now) none = none
seen_after j (beats id now) (some last) = some (if str_eq j id then now else last)
seen_after j (registers id ty key conn now) o = if str_eq id j then some now else o

abbrev pub seen_after_all : GoString → List Happening → Option Time → Option Time
seen_after_all j [] o = o
seen_after_all j (e ∷ es) o = seen_after_all j es (seen_after j e o)

abbrev pub last_seen_of : GoString → Registry → Option Time
last_seen_of j r = map (λ (d : DeviceInfo). d.last_seen) (lookup j r)

module _ (env : Env) where
  unfoldable pub happen : Happening → World → World
  happen (checks now) w = check env now w
  happen (beats id now) w = record w { registry = update_last_seen w.registry id now }
  happen (registers id ty key conn now) w = record w {
    registry = register w.registry id ty key conn now;
  }

  unfoldable pub happen_all : List Happening → World → World
  unfolding happen
  happen_all [] w = w
  happen_all (e ∷ es) w = happen_all es (happen e w)

  pub sweep-IsValid :
      (stale : List DeviceInfo) (w : World)
      → IsValid w.registry
      → IsValid (sweep env stale w).registry
  unfolding sweep
  sweep-IsValid [] w h = h
  sweep-IsValid (dev ∷ stale) w h = sweep-IsValid stale (remove_stale env dev w) (
      subst IsValid (sym (registry-remove_stale env dev w))
        (unregister-IsValid w.registry dev.device_id dev.conn h))
