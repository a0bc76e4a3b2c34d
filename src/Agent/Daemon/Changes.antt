-- ===== src/Agent/Daemon/Changes.antt =====
-- What a request does to the terminals.
use mathlib.Core.Path.{subst}
use pocketclaude.Base.{
  ℕ, GoString, text, str_eq, has_prefix, ◌≡◌, sym, Bool, refl, Option, none, some, if_split,
  option_split, List, [], false, Bool-cases, Option-cases, inl, inr, if◌then◌else◌,
}
use pocketclaude.Agent.Api.Protocol.{JsonRpcRequest, json_rpc_version}
use pocketclaude.Agent.Api.{
  ApiIo, Services, Agent, Reply, handle_message, dispatch, dispatch_service_rpc,
  handle_session_create, handle_session_list, handle_send_input, handle_session_destroy,
  takes_input, input_line,
}
use pocketclaude.Agent.Api.Replies.{handle_message-versioned, handle_message-other_version}
use pocketclaude.Agent.Terminals.Releasing.{opened}
use pocketclaude.Agent.Daemon.{opened_by_request, opened_by}
use pocketclaude.Agent.Terminals.{
  Effect, Manager, create_session, destroy_session, get_session, write_input,
}

module _ {D Info : Type 0} (sv : Services D Info) where
  -- The terminals after a request with a new id, and what the host has opened for it: the disk may be
  -- another, or a session was to be created or destroyed.
  pub data Change (fresh : GoString) (m : Manager D) : Manager D → List Effect → Type 0 where
    disk_only : (disk : D) → Change fresh m (record m { disk = disk }) []
    created :
        (now : ℕ) (project_dir command : GoString)
        → Change fresh m (create_session sv.store_io sv.host fresh now project_dir command m).0 (
            opened sv.host m.use_tmux fresh
              (if str_eq command [] then text "claude" else command)
              project_dir)
    destroyed : (id : GoString) → Change fresh m (destroy_session sv.store_io sv.host id m).0 []

module _ {D Info : Type 0} (io : ApiIo) (sv : Services D Info) where
  opened_by-read :
      (use_tmux : Bool) (fresh raw : GoString) (req : JsonRpcRequest)
      → io.unmarshal_request raw ≡ some req
      → opened_by io sv use_tmux fresh raw ≡ (
          if str_eq req.jsonrpc json_rpc_version
          then opened_by_request io sv use_tmux fresh req
          else [])
  unfolding opened_by
  opened_by-read use_tmux fresh raw req e = rw (e, opened_by) refl

module _ {D P Info : Type 0} (io : ApiIo) (sv : Services D Info) where
  abbrev Changes : GoString → Agent D P → Reply D P Info → Type 0
  Changes fresh a r = Change sv fresh a.terminals r.0.terminals []

  create-Change :
      (fresh : GoString) (now : ℕ) (req : JsonRpcRequest) (a : Agent D P)
      → Change sv fresh a.terminals
          (handle_session_create io sv fresh now req a).0.terminals
          (elim (io.create_of req.params) [
            | none ↦ []
            | some p ↦
                opened sv.host a.terminals.use_tmux fresh
                  (if str_eq p.command [] then text "claude" else p.command)
                  p.project_dir
          ])
  unfolding handle_session_create
  create-Change fresh now req a = elim (Option-cases (io.create_of req.params)) [
    | inl e ↦ rw (e, handle_session_create) (disk_only a.terminals.disk)
    | inr (p, e) ↦ rw (e, handle_session_create) (created now p.project_dir p.command)
  ]

  input-Change :
      (fresh : GoString) (req : JsonRpcRequest) (a : Agent D P)
      → Changes fresh a (handle_send_input io sv req a)
  unfolding handle_send_input
  input-Change fresh req a =
      option_split (Changes fresh a) (io.input_of req.params) (λ _. disk_only a.terminals.disk)
        (λ p _.
          option_split (Changes fresh a) (get_session sv.store_io sv.host a.terminals p.session_id)
            (λ _. disk_only a.terminals.disk)
            (λ s _.
              if_split (Changes fresh a)
                (takes_input sv.accepts (write_input sv.host s) (input_line p))
                (λ _. disk_only a.terminals.disk) (λ _. disk_only a.terminals.disk)))

  destroy-Change :
      (fresh : GoString) (req : JsonRpcRequest) (a : Agent D P)
      → Changes fresh a (handle_session_destroy io sv req a)
  unfolding handle_session_destroy
  destroy-Change fresh req a =
      option_split (Changes fresh a) (io.destroy_of req.params) (λ _. disk_only a.terminals.disk)
        (λ id _. destroyed id)

  abbrev Serves : GoString → Agent D P → Option (Reply D P Info) → Type 0
  Serves fresh a none = Unit
  Serves fresh a (some r) = Changes fresh a r

  service-Serves :
      (fresh : GoString) (req : JsonRpcRequest) (a : Agent D P)
      → Serves fresh a (dispatch_service_rpc io sv req a)
  unfolding dispatch_service_rpc
  service-Serves fresh req a =
      if_split (Serves fresh a) (has_prefix req.method (text "fs.")) (λ _. disk_only _)
        (λ _.
          if_split (Serves fresh a) (has_prefix req.method (text "git."))
            (λ _. disk_only (sv.git_leaves a.terminals.disk req.method req.params))
            (λ _.
              if_split (Serves fresh a) (has_prefix req.method (text "system."))
                (λ _. disk_only a.terminals.disk)
                (λ _.
                  if_split (Serves fresh a) (has_prefix req.method (text "plugin."))
                    (λ _. disk_only a.terminals.disk) (λ _. tt))))

  service-Change :
      (fresh : GoString) (req : JsonRpcRequest) (a : Agent D P) (r : Reply D P Info)
      → dispatch_service_rpc io sv req a ≡ some r
      → Changes fresh a r
  service-Change fresh req a r e = subst (Serves fresh a) e (service-Serves fresh req a)

  other-Change :
      (fresh : GoString) (now : ℕ) (req : JsonRpcRequest) (a : Agent D P)
      → str_eq req.method (text "session.create") ≡ false
      → Changes fresh a (dispatch io sv fresh now req a)
  unfolding dispatch handle_session_list
  other-Change fresh now req a other =
      if_split (Changes fresh a) (str_eq req.method (text "session.create"))
        (λ e. absurd (cc (e, other)))
        (λ _.
          if_split (Changes fresh a) (str_eq req.method (text "session.list"))
            (λ _. disk_only a.terminals.disk)
            (λ _.
              if_split (Changes fresh a) (str_eq req.method (text "session.send_input"))
                (λ _. input-Change fresh req a)
                (λ _.
                  if_split (Changes fresh a) (str_eq req.method (text "session.destroy"))
                    (λ _. destroy-Change fresh req a)
                    (λ _.
                      option_split (Changes fresh a) (dispatch_service_rpc io sv req a)
                        (λ _. disk_only a.terminals.disk) (service-Change fresh req a)))))

  dispatch-Change :
      (fresh : GoString) (now : ℕ) (req : JsonRpcRequest) (a : Agent D P)
      → Change sv fresh a.terminals
          (dispatch io sv fresh now req a).0.terminals
          (opened_by_request io sv a.terminals.use_tmux fresh req)
  unfolding opened_by_request dispatch
  dispatch-Change fresh now req a = elim (Bool-cases (str_eq req.method (text "session.create"))) [
    | inl e ↦ rw (e, dispatch) (create-Change fresh now req a)
    | inr e ↦
        subst (Change sv fresh a.terminals (dispatch io sv fresh now req a).0.terminals)
          (sym (nothing_opened e)) (other-Change fresh now req a e)
  ]
    where
      nothing_opened :
          str_eq req.method (text "session.create") ≡ false
          → opened_by_request io sv a.terminals.use_tmux fresh req ≡ []
      nothing_opened e = rw e refl

  pub handle_message-Change :
      (fresh : GoString) (now : ℕ) (raw : GoString) (a : Agent D P)
      → Change sv fresh a.terminals
          (handle_message io sv fresh now raw a).0.terminals
          (opened_by io sv a.terminals.use_tmux fresh raw)
  unfolding opened_by handle_message
  handle_message-Change fresh now raw a = elim (Option-cases (io.unmarshal_request raw)) [
    | inl e ↦ rw (e, handle_message, opened_by) (disk_only a.terminals.disk)
    | inr (req, e) ↦ elim (Bool-cases (str_eq req.jsonrpc json_rpc_version)) [
      | inl v ↦
          rw
            (
              handle_message-versioned io sv fresh now raw a req e v,
              opened_by-read io sv a.terminals.use_tmux fresh raw req e,
              v,
            )
            (dispatch-Change fresh now req a)
      | inr v ↦
          rw
            (
              handle_message-other_version io sv fresh now raw a req e v,
              opened_by-read io sv a.terminals.use_tmux fresh raw req e,
              v,
            )
            (disk_only a.terminals.disk)
    ]
  ]
