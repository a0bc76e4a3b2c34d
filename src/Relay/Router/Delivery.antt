-- ===== src/Relay/Router/Delivery.antt =====
-- HandleBinary as a whole: which frames arrive, where, and with what source.
use pocketclaude.Base.{
  ◌<◌, ◌≤◌, GoString, ◌≡◌, ◌≢◌, true, some, none, [], ◌∷◌, ◌++◌, arith, length, Option-cases, inl,
  inr,
}
use pocketclaude.Base.GoMap.{lookup, Every, lookup-Every}
use pocketclaude.Relay.Registry.{DeviceInfo}
use pocketclaude.Relay.Net.{Env, World, raw, write}
use pocketclaude.Relay.Router.{Router, target_id, pad_device_id, payload_of, handle_binary}
use pocketclaude.Relay.Router.Framing.{
  NoNull, length-pad_device_id, target_id-pad_device_id, payload_of-append, length-target_id-le,
}

-- An id that a frame can carry.
abbrev pub FitsFrame : GoString → Type 0
FitsFrame id = (id ≢ []) × NoNull id × (length id ≤ 32)

-- A registered device sends a frame with a payload that is not empty, which names an online device.
-- Both ids fit a frame: they are not empty, have no null byte, and have 32 bytes at most. Exactly one
-- frame goes out, to the connection of that device and with message type 1, and it reads back as the
-- sender's id and the payload as it was sent.
pub binary_delivery :
    (env : Env) (rt : Router) (w : World) (target : DeviceInfo) (id payload : GoString)
    → rt.registered ≡ true
    → FitsFrame rt.device_id
    → FitsFrame id
    → payload ≢ []
    → lookup id w.registry ≡ some target
    → (frame : GoString) × ((handle_binary env rt w (pad_device_id id ++ payload)).world.writes
        ≡ w.writes ++ (target.conn, raw 1 frame) ∷ [])
      × (target_id frame ≡ rt.device_id)
      × (payload_of frame ≡ some payload)
unfolding handle_binary write
binary_delivery env rt w target id payload on src dst ne found = (
  pad_device_id rt.device_id ++ payload,
  ground (
    arith,
    payload_of-append (pad_device_id id) payload (length-pad_device_id id) ne,
    target_id-pad_device_id id payload dst.0 dst.1 dst.2,
  ),
  target_id-pad_device_id rt.device_id payload src.0 src.1 src.2,
  payload_of-append (pad_device_id rt.device_id) payload (length-pad_device_id rt.device_id) ne,
)

no_long_target :
    (w : World) (bytes : GoString)
    → Every (λ id _. 32 < length id) w.registry
    → lookup (target_id bytes) w.registry ≡ none
no_long_target w bytes long = elim (Option-cases (lookup (target_id bytes) w.registry)) [
  | inl e ↦ e
  | inr (dev, e) ↦ absurd (
      omega (
        arith,
        lookup-Every (λ id _. 32 < length id) (target_id bytes) w.registry long e,
        length-target_id-le bytes,
      ))
]

-- Where every registered id is longer than 32 bytes, no binary frame of anyone reaches anyone: the
-- world stays as it was, and the connection stays open.
binary_unreachable :
    (env : Env) (rt : Router) (w : World) (bytes : GoString)
    → Every (λ id _. 32 < length id) w.registry
    → handle_binary env rt w bytes ≡ record { router = rt; world = w; keep_open = true }
unfolding handle_binary
binary_unreachable env rt w bytes long = ground (arith, no_long_target w bytes long)
