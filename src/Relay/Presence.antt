-- ===== src/Relay/Presence.antt =====
-- relay/internal/presence/presence.go. The check scans the registry first and removes afterwards,
-- with other steps in between: `scan` and `sweep` are separate.
pub mod Gap
pub mod Liveness
pub mod Lifecycle
pub mod Schedule
use pocketclaude.Base.{
  ◌-◌, ◌*◌, ◌^◌, GoString, text, Bool, true, false, Option, none, some, List, [], ◌∷◌, map, filter,
  ltb, if◌then◌else◌,
}
use pocketclaude.Base.GoMap.{values}
use pocketclaude.Relay.Protocol.{Time, offline, new_notification, method_presence_offline}
use pocketclaude.Relay.Registry.{Registry, DeviceInfo, unregister}
use pocketclaude.Relay.Net.{Env, World, Frame, notification, raw, post, close, post_all}

abbrev pub second : Time
second = 10 ^ 9

abbrev pub heartbeat_interval : Time
heartbeat_interval = 30 * second

abbrev pub stale_threshold : Time
stale_threshold = 90 * second

-- `close(done)` has happened, and the `running` flag. The loop is alive between them.
pub record Presence : Type 0 where
  pub done_closed : Bool
  pub running : Bool

abbrev pub new : Presence
new = record { done_closed = false; running = false }

-- Start, up to its loop, and whether the loop goes on to its first tick.
unfoldable pub start : Presence → Presence × Bool
start p =
    if p.running
    then (p, false)
    else (record p { running = true }, if p.done_closed then false else true)

-- Stop; `none` is the panic of closing a closed channel.
unfoldable pub stop : Presence → Option Presence
stop p =
    if p.running
    then (if p.done_closed then none else some (record { done_closed = true; running = false }))
    else some p

unfoldable pub is_stale : Time → DeviceInfo → Bool
is_stale now dev = ltb stale_threshold (now - dev.last_seen)

unfoldable pub scan : Time → Registry → List DeviceInfo
scan now r = filter (is_stale now) (values r)

module _ (env : Env) where
  unfoldable pub offline_notice : GoString → Frame
  offline_notice device_id =
      notification (new_notification env.marshal method_presence_offline (offline device_id))

  -- The body of the loop over the stale devices, once the entry is out of the registry.
  unfoldable pub announce_stale : DeviceInfo → World → World
  unfolding offline_notice
  announce_stale dev w =
      let w1 =
        post env w dev.conn (raw 8 (env.format_close_message 1001 (text "heartbeat timeout"))) in
      let w2 = close w1 dev.conn in
      post_all env (offline_notice dev.device_id) (map (λ d. d.conn) (values w2.registry)) w2

  unfoldable pub remove_stale : DeviceInfo → World → World
  unfolding announce_stale
  remove_stale dev w =
      let (r, removed) = unregister w.registry dev.device_id dev.conn in
      elim removed [ none ↦ w | some _ ↦ announce_stale dev (record w { registry = r }) ]

  unfoldable pub sweep : List DeviceInfo → World → World
  unfolding remove_stale
  sweep [] w = w
  sweep (dev ∷ stale) w = sweep stale (remove_stale dev w)

  -- Other goroutines can run between the scan and a removal: Relay.Presence.Gap has the two halves apart,
  -- and Relay.System has each removal as a step of its own.
  unfoldable pub check : Time → World → World
  unfolding sweep scan
  check now w = sweep (scan now w.registry) w
