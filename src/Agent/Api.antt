-- ===== src/Agent/Api.antt =====
-- agent/internal/api: server.go, handlers.go and types.go. `D` is the state of the disk, which the
-- terminals' store and the file service share.
pub mod Protocol
pub mod Replies
pub mod Reading
pub mod Sessions
pub mod Clients
pub mod Serving
use pocketclaude.Base.{
  ℕ, GoString, text, str_eq, has_prefix, Bool, true, false, not, Option, none, some, List, [], ◌∷◌,
  ◌++◌, map, if◌then◌else◌,
}
use pocketclaude.Agent.Rpc.{Rpc, result, failed, invalid_params, unknown_method}
use pocketclaude.Agent.Files.{Os, FsError}
use pocketclaude.Agent.Files.Dispatch.{WriteFileRequest, handle_rpc as fs_rpc}
use pocketclaude.Agent.Git.Dispatch.{GitError, GitParams, handle_rpc as git_rpc}
use pocketclaude.Agent.Plugins.{Registry}
use pocketclaude.Agent.Plugins.Dispatch.{PluginError, handle_rpc as plugin_rpc}
use pocketclaude.Agent.Monitor.{Monitor, MonitorIo, handle_rpc as system_rpc}
use pocketclaude.Agent.SessionStore.{StoreIo}
use pocketclaude.Agent.Terminals.{
  Session, Host, Manager, InputRoute, closed_session, no_writer, write_input, is_alive,
  create_session, get_session, list_sessions, destroy_session,
}
use pocketclaude.Agent.Api.Protocol.{
  JsonRpcRequest, JsonRpcResponse, new_response, new_error, json_rpc_version, err_parse_error,
  err_invalid_request, err_method_not_found, err_invalid_params, err_internal,
  err_session_not_found, CreateSessionParams, SendInputParams, SessionResult, ApiResult, session,
  sessions, success, fs, git, system, plugin, ApiError, fs_error, git_error, plugin_error,
  bad_params, no_method, create_failed, destroy_failed, input_failed,
}

-- json.Unmarshal at the types of the requests, and the texts of errors.
pub record ApiIo : Type 0 where
  pub unmarshal_request : GoString → Option JsonRpcRequest
  pub create_of : GoString → Option CreateSessionParams
  pub input_of : GoString → Option SendInputParams
  pub destroy_of : GoString → Option GoString
  pub path_of : GoString → Option GoString
  pub write_of : GoString → Option WriteFileRequest
  pub git_params : GitParams
  pub id_of : GoString → Option GoString
  pub text_of : ApiError → GoString

-- What the services stand on. `accepts` is whether a terminal takes an input.
pub record Services (D Info : Type 0) : Type 0 where
  pub os : Os D Info
  pub allowed_dirs : List GoString
  pub run_git : D → GoString → List GoString → Option GoString
  pub git_leaves : D → GoString → GoString → D
  pub monitor_io : MonitorIo
  pub monitor : Monitor
  pub store_io : StoreIo D
  pub host : Host
  pub accepts : InputRoute → GoString → Bool

-- `inputs` is what was written to terminals.
pub record Agent (D P : Type 0) : Type 0 where
  pub terminals : Manager D
  pub plugins : Registry P
  pub inputs : List (InputRoute × GoString)

abbrev pub Reply : (D P Info : Type 0) → Type 0
Reply D P Info = Agent D P × JsonRpcResponse Info

abbrev pub session_result : Session → Bool → SessionResult
session_result s alive = record {
  id = s.id;
  command = s.command;
  project_dir = s.project_dir;
  alive = alive;
}

-- The bytes that go to the terminal.
abbrev pub input_line : SendInputParams → GoString
input_line p = p.input ++ text "\n"

abbrev pub takes_input : (InputRoute → GoString → Bool) → InputRoute → GoString → Bool
takes_input accepts closed_session chunk = false
takes_input accepts no_writer chunk = false
takes_input accepts route chunk = accepts route chunk

-- The end of dispatchServiceRPC.
abbrev pub service_reply :
    {A E Info : Type 0}
    → ApiIo
    → JsonRpcRequest
    → (A → ApiResult Info)
    → (E → ApiError)
    → Rpc A E
    → JsonRpcResponse Info
service_reply io req f g (result a) = new_response req.id (f a)
service_reply io req f g (failed e) = new_error req.id err_internal (io.text_of (g e))
service_reply io req f g invalid_params = new_error req.id err_internal (io.text_of bad_params)
service_reply io req f g unknown_method =
    new_error req.id err_internal (io.text_of (no_method req.method))

module _ {D P Info : Type 0} (io : ApiIo) (sv : Services D Info) where
  -- `fresh` is the new UUID, and `now` the time.
  unfoldable pub handle_session_create : GoString → ℕ → JsonRpcRequest → Agent D P → Reply D P Info
  handle_session_create fresh now req a = elim (io.create_of req.params) [
    | none ↦ (a, new_error req.id err_invalid_params (text "invalid params"))
    | some p ↦
        (let (terminals, made) =
            create_session sv.store_io sv.host fresh now p.project_dir p.command a.terminals in
          (
            record a { terminals = terminals },
            elim made [
              | none ↦ new_error req.id err_internal (io.text_of create_failed)
              | some s ↦ new_response req.id (session (session_result s true))
            ],
          ))
  ]

  unfoldable pub handle_session_list : JsonRpcRequest → Agent D P → Reply D P Info
  handle_session_list req a = (
    a,
    new_response req.id (
        sessions (
          map (λ s. session_result s (is_alive sv.host s))
            (list_sessions sv.store_io sv.host a.terminals))),
  )

  unfoldable pub handle_send_input : JsonRpcRequest → Agent D P → Reply D P Info
  handle_send_input req a = elim (io.input_of req.params) [
    | none ↦ (a, new_error req.id err_invalid_params (text "invalid params"))
    | some p ↦ elim (get_session sv.store_io sv.host a.terminals p.session_id) [
      | none ↦ (a, new_error req.id err_session_not_found (text "session not found"))
      | some s ↦
          if takes_input sv.accepts (write_input sv.host s) (input_line p)
          then (
            record a { inputs = a.inputs ++ (write_input sv.host s, input_line p) ∷ [] },
            new_response req.id success,
          )
          else (
            a,
            new_error req.id err_internal (io.text_of (input_failed (write_input sv.host s))),
          )
    ]
  ]

  unfoldable pub handle_session_destroy : JsonRpcRequest → Agent D P → Reply D P Info
  handle_session_destroy req a = elim (io.destroy_of req.params) [
    | none ↦ (a, new_error req.id err_invalid_params (text "invalid params"))
    | some id ↦
        (let (terminals, gone) = destroy_session sv.store_io sv.host id a.terminals in
          (
            record a { terminals = terminals },
            elim gone [
              | none ↦ new_error req.id err_session_not_found (io.text_of (destroy_failed id))
              | some _ ↦ new_response req.id success
            ],
          ))
  ]

  -- `none` is a method of no service.
  unfoldable pub dispatch_service_rpc : JsonRpcRequest → Agent D P → Option (Reply D P Info)
  dispatch_service_rpc req a =
      if has_prefix req.method (text "fs.")
      then (let (disk, r) =
            fs_rpc sv.os sv.allowed_dirs io.path_of io.write_of req.method req.params
              a.terminals.disk in
          some (
            record a { terminals = record a.terminals { disk = disk } },
            service_reply io req fs fs_error r,
          ))
      else if has_prefix req.method (text "git.")
      then some (
        record a {
          terminals = record a.terminals {
            disk = sv.git_leaves a.terminals.disk req.method req.params;
          };
        },
        service_reply io req git git_error
            (git_rpc (sv.run_git a.terminals.disk) io.git_params req.method req.params),
      )
      else if has_prefix req.method (text "system.")
      then some (
        a,
        service_reply io req system (λ (e : ApiError). e)
            (system_rpc sv.monitor_io sv.monitor req.method),
      )
      else if has_prefix req.method (text "plugin.")
      then some (
        a,
        service_reply io req plugin plugin_error
            (plugin_rpc io.id_of req.method req.params a.plugins),
      )
      else none

  -- The `switch` on the method.
  unfoldable pub dispatch : GoString → ℕ → JsonRpcRequest → Agent D P → Reply D P Info
  unfolding handle_session_create handle_session_list handle_send_input handle_session_destroy
      dispatch_service_rpc
  dispatch fresh now req a =
      if str_eq req.method (text "session.create")
      then handle_session_create fresh now req a
      else if str_eq req.method (text "session.list")
      then handle_session_list req a
      else if str_eq req.method (text "session.send_input")
      then handle_send_input req a
      else if str_eq req.method (text "session.destroy")
      then handle_session_destroy req a
      else elim (dispatch_service_rpc req a) [
        | some r ↦ r
        | none ↦
            (a, new_error req.id err_method_not_found (text "method not found: " ++ req.method))
      ]

  -- The agent, and the response, if one is sent.
  unfoldable pub handle_message :
      GoString → ℕ → GoString → Agent D P → Agent D P × Option (JsonRpcResponse Info)
  unfolding dispatch
  handle_message fresh now raw a = elim (io.unmarshal_request raw) [
    | none ↦ (a, some (new_error none err_parse_error (text "parse error")))
    | some req ↦
        if not (str_eq req.jsonrpc json_rpc_version)
        then (a, some (new_error req.id err_invalid_request (text "invalid jsonrpc version")))
        else (let (a', resp) = dispatch fresh now req a in
            (a', elim req.id [ none ↦ none | some _ ↦ some resp ]))
  ]
