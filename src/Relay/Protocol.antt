-- ===== src/Relay/Protocol.antt =====
-- relay/internal/protocol/types.go
use pocketclaude.Base.{ℕ, GoString, text, Bool, Option, none, some, List, ℤ, neg}

-- A point in time, as nanoseconds. The zero time of Go is 0.
abbrev pub Time : Type 0
Time = ℕ

-- An `int64` that is only passed on: its 64 bits.
abbrev pub Int64 : Type 0
Int64 = ℕ

abbrev pub json_rpc_version : GoString
json_rpc_version = text "2.0"

abbrev pub method_device_register : GoString
method_device_register = text "device.register"

abbrev pub method_device_list_online : GoString
method_device_list_online = text "device.list_online"

abbrev pub method_message_send : GoString
method_message_send = text "message.send"

abbrev pub method_presence_heartbeat : GoString
method_presence_heartbeat = text "presence.heartbeat"

abbrev pub method_message_forward : GoString
method_message_forward = text "message.forward"

abbrev pub method_presence_online : GoString
method_presence_online = text "presence.online"

abbrev pub method_presence_offline : GoString
method_presence_offline = text "presence.offline"

abbrev pub error_code_parse_error : ℤ
error_code_parse_error = neg 32700

abbrev pub error_code_invalid_request : ℤ
error_code_invalid_request = neg 32600

abbrev pub error_code_method_not_found : ℤ
error_code_method_not_found = neg 32601

abbrev pub error_code_invalid_params : ℤ
error_code_invalid_params = neg 32602

abbrev pub error_code_internal : ℤ
error_code_internal = neg 32603

abbrev pub error_code_device_not_found : ℤ
error_code_device_not_found = neg 32001

abbrev pub error_code_not_registered : ℤ
error_code_not_registered = neg 32002

-- `params` is a `json.RawMessage`, the bytes of the field.
pub record JsonRpcRequest : Type 0 where
  pub jsonrpc : GoString
  pub method : GoString
  pub params : GoString
  pub id : Option Int64

pub record JsonRpcError : Type 0 where
  pub code : ℤ
  pub message : GoString

pub record RegisterParams : Type 0 where
  pub device_id : GoString
  pub device_type : GoString
  pub public_key : GoString

pub record SendParams : Type 0 where
  pub target_id : GoString
  pub encrypted_payload : GoString
  pub nonce : GoString

pub record OnlineDeviceInfo : Type 0 where
  pub device_id : GoString
  pub device_type : GoString
  pub public_key : GoString

-- What the router puts into `Result any`: RegisterResult, ListOnlineResult, the `success` map of
-- message.send, and HeartbeatResult. Their timestamps are Unix seconds.
pub data RpcResult : Type 0 where
  registered_at : Bool → Int64 → RpcResult
  online_devices : List OnlineDeviceInfo → RpcResult
  success : Bool → RpcResult
  heartbeat_at : Int64 → RpcResult

-- What `NewNotification` is given: OnlineParams, OfflineParams and ForwardParams.
pub data NotifyParams : Type 0 where
  online : OnlineDeviceInfo → NotifyParams
  offline : GoString → NotifyParams
  forward : GoString → GoString → GoString → NotifyParams

pub record JsonRpcResponse : Type 0 where
  pub jsonrpc : GoString
  pub result : Option RpcResult
  pub error : Option JsonRpcError
  pub id : Option Int64

unfoldable pub new_response : Option Int64 → RpcResult → JsonRpcResponse
new_response id result = record {
  jsonrpc = json_rpc_version;
  result = some result;
  error = none;
  id = id;
}

unfoldable pub new_error_response : Option Int64 → ℤ → GoString → JsonRpcResponse
new_error_response id code message = record {
  jsonrpc = json_rpc_version;
  result = none;
  error = some (record { code = code; message = message });
  id = id;
}

-- `json.Marshal` is the argument `marshal`; it may fail.
unfoldable pub must_marshal : (NotifyParams → Option GoString) → NotifyParams → GoString
must_marshal marshal v = elim (marshal v) [ none ↦ text "{}" | some b ↦ b ]

unfoldable pub new_notification :
    (NotifyParams → Option GoString) → GoString → NotifyParams → JsonRpcRequest
unfolding must_marshal
new_notification marshal method params = record {
  jsonrpc = json_rpc_version;
  method = method;
  params = must_marshal marshal params;
  id = none;
}
