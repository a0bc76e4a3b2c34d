-- ===== src/Relay/Net.antt =====
-- What the relay does to the network: the writes on connections, in order, and the connections that
-- it closed. A write may fail: `delivers n` says whether the n-th write of the run succeeds, so that
-- a theorem for every `delivers` holds for every behaviour of the network.
pub mod Laws
use pocketclaude.Base.{ℕ, GoString, Bool, Option, List, [], ◌∷◌, ◌++◌, length}
use pocketclaude.Relay.Protocol.{
  Int64, JsonRpcRequest, JsonRpcResponse, NotifyParams, RegisterParams, SendParams,
}
use pocketclaude.Relay.Registry.{Registry, Conn}

pub data Frame : Type 0 where
  -- conn.WriteJSON of a response, of a notification
  response : JsonRpcResponse → Frame
  notification : JsonRpcRequest → Frame
  -- conn.WriteMessage(msgType, data) and conn.WriteControl
  raw : ℕ → GoString → Frame

-- encoding/json at the types that the relay uses it with, the close messages of the WebSocket
-- library, the network, and what time.Now().Unix() gives to a response that is the n-th write.
pub record Env : Type 0 where
  pub unmarshal_request : GoString → Option JsonRpcRequest
  pub unmarshal_register : GoString → Option RegisterParams
  pub unmarshal_send : GoString → Option SendParams
  pub marshal : NotifyParams → Option GoString
  pub format_close_message : ℕ → GoString → GoString
  pub delivers : ℕ → Bool
  pub unix_now : ℕ → Int64

pub record World : Type 0 where
  pub registry : Registry
  pub writes : List (Conn × Frame)
  pub closed : List Conn

-- A write, and whether it succeeded.
unfoldable pub write : Env → World → Conn → Frame → World × Bool
write env w conn frame =
    (record w { writes = w.writes ++ (conn, frame) ∷ [] }, env.delivers (length w.writes))

-- A write whose result is only logged.
abbrev pub post : Env → World → Conn → Frame → World
post env w conn frame = (write env w conn frame).0

unfoldable pub close : World → Conn → World
close w conn = record w { closed = w.closed ++ conn ∷ [] }

-- `ForEach` with a callback that writes one frame to each device and logs a failure.
unfoldable pub post_all : Env → Frame → List Conn → World → World
unfolding write
post_all env frame [] w = w
post_all env frame (conn ∷ conns) w = post_all env frame conns (post env w conn frame)
