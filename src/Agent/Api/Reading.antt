-- ===== src/Agent/Api/Reading.antt =====
-- Which requests to the API change something.
use pocketclaude.Base.{
  ℕ, GoString, text, str_eq, ◌≡◌, refl, ap, inl, inr, Bool, false, ◌||◌, Option, none, some, arith,
  if_split, Bool-cases, has_prefix, ◌++◌,
}
use pocketclaude.Agent.Files.Dispatch.{handle_rpc as fs_rpc}
use pocketclaude.Agent.Api.Protocol.{
  JsonRpcRequest, new_error, json_rpc_version, err_method_not_found,
}
use pocketclaude.Agent.Api.Replies.{handle_message-versioned, handle_message-other_version}
use pocketclaude.Agent.Api.{
  ApiIo, Services, Agent, Reply, handle_session_list, dispatch_service_rpc, dispatch,
  handle_message,
}

-- The methods that may change something.
abbrev pub changes : GoString → Bool
changes method =
    str_eq method (text "session.create")
    || str_eq method (text "session.send_input")
    || str_eq method (text "session.destroy")
    || str_eq method (text "fs.write_file")
    || has_prefix method (text "git.")

module _ {D Info : Type 0} (io : ApiIo) (sv : Services D Info) where
  fs_rpc-reading :
      (method params : GoString) (s : D)
      → str_eq method (text "fs.write_file") ≡ false
      → (fs_rpc sv.os sv.allowed_dirs io.path_of io.write_of method params s).0 ≡ s
  unfolding fs_rpc
  fs_rpc-reading method params s h = ground (arith, h)

module _ {D P Info : Type 0} (io : ApiIo) (sv : Services D Info) where
  service-reading :
      (req : JsonRpcRequest) (a : Agent D P)
      → str_eq req.method (text "fs.write_file") ≡ false
      → has_prefix req.method (text "git.") ≡ false
      → (elim (dispatch_service_rpc io sv req a) as (λ _. Reply D P Info) [
        | some r ↦ r
        | none ↦
            (a, new_error req.id err_method_not_found (text "method not found: " ++ req.method))
      ]).0
        ≡ a
  unfolding dispatch_service_rpc
  service-reading req a h no_git =
      if_split Kept (has_prefix req.method (text "fs."))
        (λ _.
          ap (λ (disk : D). record a { terminals = record a.terminals { disk = disk } })
            (fs_rpc-reading io sv req.method req.params a.terminals.disk h))
        (λ _.
          if_split Kept (has_prefix req.method (text "git.")) (λ e. absurd (cc (e, no_git)))
            (λ _.
              if_split Kept (has_prefix req.method (text "system.")) (λ _. refl)
                (λ _.
                  if_split Kept (has_prefix req.method (text "plugin.")) (λ _. refl) (λ _. refl))))
    where
      Kept : Option (Reply D P Info) → Type 0
      Kept o =
          (elim o as (λ _. Reply D P Info) [
            | some r ↦ r
            | none ↦
                (a, new_error req.id err_method_not_found (text "method not found: " ++ req.method))
          ]).0
          ≡ a

  dispatch-reading :
      (fresh : GoString) (now : ℕ) (req : JsonRpcRequest) (a : Agent D P)
      → changes req.method ≡ false
      → (dispatch io sv fresh now req a).0 ≡ a
  unfolding dispatch handle_session_list
  dispatch-reading fresh now req a h =
      if_split (λ (r : Reply D P Info). r.0 ≡ a) (str_eq req.method (text "session.create"))
        (λ e. absurd (ground (arith, e, h)))
        (λ _.
          if_split (λ (r : Reply D P Info). r.0 ≡ a) (str_eq req.method (text "session.list"))
            (λ _. refl)
            (λ _.
              if_split (λ (r : Reply D P Info). r.0 ≡ a)
                (str_eq req.method (text "session.send_input")) (λ e. absurd (ground (arith, e, h)))
                (λ _.
                  if_split (λ (r : Reply D P Info). r.0 ≡ a)
                    (str_eq req.method (text "session.destroy"))
                    (λ e. absurd (ground (arith, e, h)))
                    (λ _. service-reading req a (ground (arith, h)) (ground (arith, h))))))

  -- A frame whose method is not one of the four that change something, and does not run git, leaves
  -- the agent as it was: its sessions, its plugins, the disk, and what was written to terminals.
  pub handle_message-reading :
      (fresh : GoString) (now : ℕ) (raw : GoString) (a : Agent D P) (req : JsonRpcRequest)
      → io.unmarshal_request raw ≡ some req
      → changes req.method ≡ false
      → (handle_message io sv fresh now raw a).0 ≡ a
  handle_message-reading fresh now raw a req e h =
      elim (Bool-cases (str_eq req.jsonrpc json_rpc_version)) [
        | inl v ↦
            rw (handle_message-versioned io sv fresh now raw a req e v)
              (dispatch-reading fresh now req a h)
        | inr v ↦ rw (handle_message-other_version io sv fresh now raw a req e v) refl
      ]
