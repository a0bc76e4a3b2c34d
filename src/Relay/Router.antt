-- ===== src/Relay/Router.antt =====
-- relay/internal/router/router.go. A handler takes the router and the world before a frame and
-- returns them after it, with the `bool` that keeps the connection open. `now` is the clock during
-- the frame. Log lines are left out.
mod Binary
pub mod Framing
pub mod Invariant
pub mod Registration
pub mod Sending
pub mod Wire
pub mod Delivery
pub mod Replies
use pocketclaude.Base.{
  ℕ, length, GoString, text, str_eq, Bool, true, false, not, ◌&&◌, Option, none, some, List, [],
  ◌++◌, map, filter, if◌then◌else◌, ◌==◌, ℤ,
}
use pocketclaude.Base.GoMap.{values}
use pocketclaude.Relay.Protocol.{
  Time, JsonRpcRequest, RegisterParams, SendParams, OnlineDeviceInfo, RpcResult, registered_at,
  online_devices, success, heartbeat_at, online, forward, new_response, new_error_response,
  new_notification, json_rpc_version, method_device_register, method_device_list_online,
  method_message_send, method_presence_heartbeat, method_message_forward, method_presence_online,
  error_code_parse_error, error_code_invalid_request, error_code_method_not_found,
  error_code_invalid_params, error_code_internal, error_code_device_not_found,
  error_code_not_registered,
}
use pocketclaude.Relay.Registry.{
  Registry, Conn, DeviceInfo, register, get, update_last_seen, list_online,
}
use pocketclaude.Relay.Net.{
  Env, World, Frame, response, notification, raw, write, post, close, post_all,
}
unfoldable pub use Binary.{target_id, pad_device_id, payload_of}

pub record Router : Type 0 where
  pub device_id : GoString
  pub registered : Bool

abbrev pub new : Router
new = record { device_id = []; registered = false }

pub record Outcome : Type 0 where
  pub router : Router
  pub world : World
  pub keep_open : Bool

module _ (env : Env) where
  unfoldable pub send_error : World → Conn → Option ℕ → ℤ → GoString → World
  send_error w conn id code message =
      post env w conn (response (new_error_response id code message))

  -- sendError, and the connection stays open.
  abbrev pub reject : Router → World → Conn → Option ℕ → ℤ → GoString → Outcome
  reject rt w conn id code message = record {
    router = rt;
    world = send_error w conn id code message;
    keep_open = true;
  }

  -- conn.WriteJSON of a success response; a failure closes the connection.
  abbrev pub respond : Router → World → Conn → JsonRpcRequest → RpcResult → Outcome
  respond rt w conn req result =
      let (w', sent) = write env w conn (response (new_response req.id result)) in
      record { router = rt; world = w'; keep_open = sent }

  -- An entry of the same device on another connection: that connection is told, and closed.
  unfoldable pub close_replaced : World → GoString → Conn → World
  close_replaced w device_id conn = elim (get w.registry device_id) [
    | none ↦ w
    | some existing ↦
        if existing.conn == conn
        then w
        else close (post env w existing.conn (raw 8 (text "replaced by new connection")))
            existing.conn
  ]

  -- The connections of all devices but one.
  abbrev pub others : GoString → Registry → List Conn
  others device_id r =
      map (λ dev. dev.conn) (filter (λ dev. not (str_eq dev.device_id device_id)) (values r))

  unfoldable pub online_notice : RegisterParams → Frame
  online_notice p = notification (
      new_notification env.marshal method_presence_online (
        online (record {
          device_id = p.device_id;
          device_type = p.device_type;
          public_key = p.public_key;
        })))

  -- The part of handleRegister below its checks.
  unfoldable pub complete_register : Time → Conn → JsonRpcRequest → RegisterParams → World → Outcome
  unfolding close_replaced online_notice
  complete_register now conn req p w =
      let w1 = close_replaced w p.device_id conn in
      let w2 : World = record w1 {
        registry = register w1.registry p.device_id p.device_type p.public_key conn now;
      } in
      let rt : Router = record { device_id = p.device_id; registered = true } in
      let (w3, sent) =
        write env w2 conn
          (response (new_response req.id (registered_at true (env.unix_now (length w2.writes))))) in
      if sent
      then record {
        router = rt;
        world = post_all env (online_notice p) (others p.device_id w3.registry) w3;
        keep_open = true;
      }
      else record { router = rt; world = w3; keep_open = false }

  abbrev pub known_type : GoString → Bool
  known_type t = not (not (str_eq t (text "agent")) && not (str_eq t (text "client")))

  unfoldable pub handle_register : Time → Router → World → Conn → JsonRpcRequest → Outcome
  unfolding send_error
  handle_register now rt w conn req = elim (env.unmarshal_register req.params) [
    | none ↦ reject rt w conn req.id error_code_invalid_params (text "invalid register params")
    | some p ↦
        if str_eq p.device_id []
        then reject rt w conn req.id error_code_invalid_params (text "device_id is required")
        else if not (known_type p.device_type)
        then reject rt w conn req.id error_code_invalid_params
            (text "device_type must be 'agent' or 'client'")
        else complete_register now conn req p w
  ]

  abbrev pub online_info : DeviceInfo → OnlineDeviceInfo
  online_info d = record {
    device_id = d.device_id;
    device_type = d.device_type;
    public_key = d.public_key;
  }

  unfoldable pub handle_list_online : Router → World → Conn → JsonRpcRequest → Outcome
  unfolding send_error
  handle_list_online rt w conn req =
      if not rt.registered
      then reject rt w conn req.id error_code_not_registered (text "device not registered")
      else respond rt w conn req (online_devices (map online_info (list_online w.registry)))

  unfoldable pub forward_notice : GoString → SendParams → Frame
  forward_notice source p = notification (
      new_notification env.marshal method_message_forward
        (forward source p.encrypted_payload p.nonce))

  -- The part of handleMessageSend below its checks: forward, then acknowledge.
  unfoldable pub forward_message :
      Router → World → Conn → JsonRpcRequest → SendParams → DeviceInfo → Outcome
  unfolding send_error forward_notice
  forward_message rt w conn req p target =
      let (w', sent) = write env w target.conn (forward_notice rt.device_id p) in
      if sent
      then respond rt w' conn req (success true)
      else reject rt w' conn req.id error_code_internal (text "forward failed")

  unfoldable pub handle_message_send : Router → World → Conn → JsonRpcRequest → Outcome
  unfolding send_error forward_message
  handle_message_send rt w conn req =
      if not rt.registered
      then reject rt w conn req.id error_code_not_registered (text "device not registered")
      else elim (env.unmarshal_send req.params) [
        | none ↦ reject rt w conn req.id error_code_invalid_params (text "invalid send params")
        | some p ↦
            if str_eq p.target_id []
            then reject rt w conn req.id error_code_invalid_params (text "target_id is required")
            else elim (get w.registry p.target_id) [
              | none ↦
                  reject rt w conn req.id error_code_device_not_found
                    (text "target device not online: " ++ p.target_id)
              | some target ↦ forward_message rt w conn req p target
            ]
      ]

  unfoldable pub handle_heartbeat : Time → Router → World → Conn → JsonRpcRequest → Outcome
  unfolding send_error
  handle_heartbeat now rt w conn req =
      if not rt.registered
      then reject rt w conn req.id error_code_not_registered (text "device not registered")
      else respond rt (record w { registry = update_last_seen w.registry rt.device_id now }) conn
          req (heartbeat_at (env.unix_now (length w.writes)))

  -- The `switch` on the method.
  unfoldable pub dispatch : Time → Router → World → Conn → JsonRpcRequest → Outcome
  unfolding send_error
  dispatch now rt w conn req =
      if str_eq req.method method_device_register
      then handle_register now rt w conn req
      else if str_eq req.method method_device_list_online
      then handle_list_online rt w conn req
      else if str_eq req.method method_message_send
      then handle_message_send rt w conn req
      else if str_eq req.method method_presence_heartbeat
      then handle_heartbeat now rt w conn req
      else reject rt w conn req.id error_code_method_not_found
          (text "method not found: " ++ req.method)

  unfoldable pub handle_text : Time → Router → World → Conn → GoString → Outcome
  unfolding send_error
  handle_text now rt w conn bytes = elim (env.unmarshal_request bytes) [
    | none ↦ reject rt w conn none error_code_parse_error (text "parse error")
    | some req ↦
        if not (str_eq req.jsonrpc json_rpc_version)
        then reject rt w conn req.id error_code_invalid_request (text "invalid jsonrpc version")
        else dispatch now rt w conn req
  ]

  -- A binary frame: the first 32 bytes name the target, and become the source's name. The frame goes
  -- out with message type 1.
  unfoldable pub handle_binary : Router → World → GoString → Outcome
  handle_binary rt w bytes = if not rt.registered then idle else elim (payload_of bytes) [
    | none ↦ idle
    | some payload ↦ elim (get w.registry (target_id bytes)) [
      | none ↦ idle
      | some target ↦ record {
        router = rt;
        world = post env w target.conn (raw 1 (pad_device_id rt.device_id ++ payload));
        keep_open = true;
      }
    ]
  ]
    where
      idle : Outcome
      idle = record { router = rt; world = w; keep_open = true }
