-- ===== src/Agent/Api/Protocol.antt =====
-- agent/internal/api/types.go, with what the handlers put into `Result any`, and the errors whose texts
-- go into error responses.
use pocketclaude.Base.{GoString, text, Bool, Option, none, some, List, ℤ, neg}
use pocketclaude.Agent.Files.{FsError}
use pocketclaude.Agent.Files.Dispatch.{FsResult}
use pocketclaude.Agent.Git.Dispatch.{GitResult, GitError}
use pocketclaude.Agent.Plugins.Dispatch.{PluginResult, PluginError}
use pocketclaude.Agent.Monitor.{MonitorResult}
use pocketclaude.Agent.Terminals.{InputRoute}

abbrev pub json_rpc_version : GoString
json_rpc_version = text "2.0"

pub record JsonRpcRequest : Type 0 where
  pub jsonrpc : GoString
  pub method : GoString
  pub params : GoString
  pub id : Option GoString

pub record RpcError : Type 0 where
  pub code : ℤ
  pub message : GoString

pub record CreateSessionParams : Type 0 where
  pub session_id : GoString
  pub project_dir : GoString
  pub command : GoString

pub record SendInputParams : Type 0 where
  pub session_id : GoString
  pub input : GoString

pub record SessionResult : Type 0 where
  pub id : GoString
  pub command : GoString
  pub project_dir : GoString
  pub alive : Bool

pub record OutputNotification : Type 0 where
  pub session_id : GoString
  pub chunk : GoString
  pub kind : GoString

-- `success` is the map {"success": true}.
pub data ApiResult (Info : Type 0) : Type 0 where
  session : SessionResult → ApiResult Info
  sessions : List SessionResult → ApiResult Info
  success : ApiResult Info
  fs : FsResult Info → ApiResult Info
  git : GitResult → ApiResult Info
  system : MonitorResult → ApiResult Info
  plugin : PluginResult → ApiResult Info

pub data ApiError : Type 0 where
  fs_error : FsError → ApiError
  git_error : GitError → ApiError
  plugin_error : PluginError → ApiError
  bad_params create_failed : ApiError
  no_method destroy_failed : GoString → ApiError
  input_failed : InputRoute → ApiError

pub record JsonRpcResponse (Info : Type 0) : Type 0 where
  pub jsonrpc : GoString
  pub result : Option (ApiResult Info)
  pub error : Option RpcError
  pub id : Option GoString

pub record JsonRpcNotification : Type 0 where
  pub jsonrpc : GoString
  pub method : GoString
  pub params : OutputNotification

unfoldable pub new_response :
    {Info : Type 0} → Option GoString → ApiResult Info → JsonRpcResponse Info
new_response id result = record {
  jsonrpc = json_rpc_version;
  result = some result;
  error = none;
  id = id;
}

unfoldable pub new_error : {Info : Type 0} → Option GoString → ℤ → GoString → JsonRpcResponse Info
new_error id code message = record {
  jsonrpc = json_rpc_version;
  result = none;
  error = some (record { code = code; message = message });
  id = id;
}

abbrev pub new_notification : GoString → OutputNotification → JsonRpcNotification
new_notification method params = record {
  jsonrpc = json_rpc_version;
  method = method;
  params = params;
}

abbrev pub err_parse_error : ℤ
err_parse_error = neg 32700

abbrev pub err_invalid_request : ℤ
err_invalid_request = neg 32600

abbrev pub err_method_not_found : ℤ
err_method_not_found = neg 32601

abbrev pub err_invalid_params : ℤ
err_invalid_params = neg 32602

abbrev pub err_internal : ℤ
err_internal = neg 32603

abbrev pub err_session_not_found : ℤ
err_session_not_found = neg 32001
