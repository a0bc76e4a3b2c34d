-- ===== src/Agent/Api/Sessions.antt =====
-- Sessions as a client of the API sees them.
use pocketclaude.Base.{
  ℕ, GoString, text, str_eq, str_eq_refl, false, ◌≡◌, refl, ap, ◌∙◌, true, Option, none, some, [],
  ◌∷◌, ◌++◌, if◌then◌else◌,
}
use pocketclaude.Base.GoMap.{lookup}
use pocketclaude.Agent.Terminals.{
  Session, Host, InputRoute, to_tmux, to_windows, to_pty, no_writer, Manager as Terminals,
  write_input, create_session,
}
use pocketclaude.Agent.Terminals.Lifecycle.{create_session_lem, destroy_session-gone}
use pocketclaude.Agent.Api.Protocol.{
  JsonRpcRequest, JsonRpcResponse, CreateSessionParams, SendInputParams, session, success,
  new_response, new_error, json_rpc_version, err_session_not_found,
}
use pocketclaude.Agent.Api.{
  ApiIo, Services, Agent, Reply, session_result, input_line, takes_input, handle_session_create,
  handle_send_input, handle_session_destroy, dispatch, handle_message,
}
use pocketclaude.Agent.Api.Replies.{handle_message-versioned}

-- Where the input of a session goes that is not closed: to its tmux session by its id, else to its
-- console on Windows, and else to its PTY, if it has any.
abbrev pub terminal_of : Host → Session → InputRoute
terminal_of host s =
    if s.uses_tmux then to_tmux s.id else elim (if host.windows then s.win_session else none) [
      | some win ↦ to_windows win
      | none ↦ elim s.pty_file [ some pty ↦ to_pty pty | none ↦ no_writer ]
    ]

write_input-open :
    (host : Host) (s : Session) → s.closed ≡ false → write_input host s ≡ terminal_of host s
unfolding write_input
write_input-open host s open_ = rw open_ refl

-- The frame is a request of this method, with an id.
pub record IsRequest (io : ApiIo) (raw method : GoString) (req : JsonRpcRequest) (id : GoString)
    : Type 0 where
  pub parsed : io.unmarshal_request raw ≡ some req
  pub versioned : str_eq req.jsonrpc json_rpc_version ≡ true
  pub named : req.method ≡ method
  pub identified : req.id ≡ some id

module _ {D P Info : Type 0} (io : ApiIo) (sv : Services D Info) where
  handle_message-IsRequest :
      (fresh : GoString) (now : ℕ) (raw method : GoString) (req : JsonRpcRequest) (id : GoString)
      (a : Agent D P)
      → IsRequest io raw method req id
      → handle_message io sv fresh now raw a
        ≡ ((dispatch io sv fresh now req a).0, some (dispatch io sv fresh now req a).1)
  handle_message-IsRequest fresh now raw method req id a h =
      handle_message-versioned io sv fresh now raw a req h.parsed h.versioned
      ∙ ap
          (λ (o : Option GoString). (
            (dispatch io sv fresh now req a).0,
            elim o as (λ _. Option (JsonRpcResponse Info)) [
              | none ↦ none
              | some _ ↦ some (dispatch io sv fresh now req a).1
            ],
          ))
          h.identified

  dispatch-destroy :
      (fresh : GoString) (now : ℕ) (req : JsonRpcRequest) (a : Agent D P)
      → req.method ≡ text "session.destroy"
      → dispatch io sv fresh now req a ≡ handle_session_destroy io sv req a
  unfolding dispatch str_eq
  dispatch-destroy fresh now req a e = rw (ap (λ (m : GoString). str_eq m) e, dispatch) refl

  dispatch-input :
      (fresh : GoString) (now : ℕ) (req : JsonRpcRequest) (a : Agent D P)
      → req.method ≡ text "session.send_input"
      → dispatch io sv fresh now req a ≡ handle_send_input io sv req a
  unfolding dispatch str_eq
  dispatch-input fresh now req a e = rw (ap (λ (m : GoString). str_eq m) e, dispatch) refl

  dispatch-create :
      (fresh : GoString) (now : ℕ) (req : JsonRpcRequest) (a : Agent D P)
      → req.method ≡ text "session.create"
      → dispatch io sv fresh now req a ≡ handle_session_create io sv fresh now req a
  unfolding dispatch str_eq
  dispatch-create fresh now req a e = rw (ap (λ (m : GoString). str_eq m) e, dispatch) refl

  handle_send_input-missing :
      (req : JsonRpcRequest) (a : Agent D P) (p : SendInputParams)
      → io.input_of req.params ≡ some p
      → lookup p.session_id a.terminals.sessions ≡ none
      → handle_send_input io sv req a
        ≡ (a, new_error req.id err_session_not_found (text "session not found"))
  unfolding handle_send_input
  handle_send_input-missing req a p e gone = rw (e, handle_send_input, gone) refl

  handle_send_input-taken :
      (req : JsonRpcRequest) (a : Agent D P) (p : SendInputParams) (s : Session)
      → io.input_of req.params ≡ some p
      → lookup p.session_id a.terminals.sessions ≡ some s
      → takes_input sv.accepts (write_input sv.host s) (input_line p) ≡ true
      → handle_send_input io sv req a ≡ (
        record a { inputs = a.inputs ++ (write_input sv.host s, input_line p) ∷ [] },
        new_response req.id success,
      )
  unfolding handle_send_input
  handle_send_input-taken req a p s e found takes = rw (e, handle_send_input, found, takes) refl

  handle_session_destroy-gone :
      (req : JsonRpcRequest) (a : Agent D P) (id : GoString)
      → io.destroy_of req.params ≡ some id
      → lookup id (handle_session_destroy io sv req a).0.terminals.sessions ≡ none
  unfolding handle_session_destroy
  handle_session_destroy-gone req a id e =
      rw (e, handle_session_destroy) (destroy_session-gone sv.store_io sv.host id a.terminals)

  -- A client destroys a session and sends it an input then. Whether or not the session was there, the
  -- input is answered with `session not found`, with the id of its request, and changes nothing.
  pub input_after_destroy :
      (fresh fresh' : GoString) (now now' : ℕ) (raw raw' : GoString) (req req' : JsonRpcRequest)
      (i i' : GoString) (p : SendInputParams) (a : Agent D P)
      → IsRequest io raw (text "session.destroy") req i
      → io.destroy_of req.params ≡ some p.session_id
      → IsRequest io raw' (text "session.send_input") req' i'
      → io.input_of req'.params ≡ some p
      → let after = (handle_message io sv fresh now raw a).0 in
        handle_message io sv fresh' now' raw' after
        ≡ (after, some (new_error (some i') err_session_not_found (text "session not found")))
  input_after_destroy fresh fresh' now now' raw raw' req req' i i' p a h named h' read =
      handle_message-IsRequest fresh' now' raw' _ req' i' after h'
      ∙ ap (λ (r : Reply D P Info). (r.0, some r.1))
          (dispatch-input fresh' now' req' after h'.named
            ∙ handle_send_input-missing req' after p read gone
            ∙ ap (λ o. (after, new_error o err_session_not_found (text "session not found")))
                h'.identified)
    where
      after : Agent D P
      after = (handle_message io sv fresh now raw a).0

      gone : lookup p.session_id after.terminals.sessions ≡ none
      gone =
          ap (λ (r : Agent D P). lookup p.session_id r.terminals.sessions)
            (ap (λ (r : Agent D P × Option (JsonRpcResponse Info)). r.0)
                (handle_message-IsRequest fresh now raw _ req i a h)
              ∙ ap (λ (r : Reply D P Info). r.0) (dispatch-destroy fresh now req a h.named))
          ∙ handle_session_destroy-gone req a p.session_id named

  handle_session_create-made :
      (fresh : GoString) (now : ℕ) (req : JsonRpcRequest) (a : Agent D P) (c : CreateSessionParams)
      (s : Session)
      → io.create_of req.params ≡ some c
      → (create_session sv.store_io sv.host fresh now c.project_dir c.command a.terminals).1
        ≡ some s
      → handle_session_create io sv fresh now req a ≡ (
        record a {
          terminals =
              (create_session sv.store_io sv.host fresh now c.project_dir c.command a.terminals).0;
        },
        new_response req.id (session (session_result s true)),
      )
  unfolding handle_session_create
  handle_session_create-made fresh now req a c s e made = rw (e, handle_session_create, made) refl

  -- A client creates a session, which succeeds, and sends it an input then, which its terminal takes:
  -- the client is told the session's id, and the input, with a newline, goes to the terminal of that
  -- session: to its tmux session, console or PTY, and to no other.
  pub input_after_create :
      (fresh fresh' : GoString) (now now' : ℕ) (raw raw' : GoString) (req req' : JsonRpcRequest)
      (i i' : GoString) (c : CreateSessionParams) (p : SendInputParams) (s : Session)
      (a : Agent D P)
      → IsRequest io raw (text "session.create") req i
      → io.create_of req.params ≡ some c
      → (create_session sv.store_io sv.host fresh now c.project_dir c.command a.terminals).1
        ≡ some s
      → IsRequest io raw' (text "session.send_input") req' i'
      → io.input_of req'.params ≡ some p
      → p.session_id ≡ s.id
      → takes_input sv.accepts (terminal_of sv.host s) (p.input ++ text "\n") ≡ true
      → let r = handle_message io sv fresh now raw a in
        let r' = handle_message io sv fresh' now' raw' r.0 in
        (r.1 ≡ some (new_response (some i) (session (session_result s true))))
        × (r'.1 ≡ some (new_response (some i') success))
        × (r'.0.inputs ≡ a.inputs ++ (terminal_of sv.host s, p.input ++ text "\n") ∷ [])
  input_after_create fresh fresh' now now' raw raw' req req' i i' c p s a h read made h' read' named
        takes =
      (
        ap (λ (r : Agent D P × Option (JsonRpcResponse Info)). r.1) first
            ∙ ap (λ o. some (new_response o (session (session_result s true)))) h.identified,
        ap (λ (r : Agent D P × Option (JsonRpcResponse Info)). r.1) second
            ∙ ap (λ o. some (new_response o success)) h'.identified,
        ap (λ (r : Agent D P × Option (JsonRpcResponse Info)). r.0.inputs) second
            ∙ ap
                (λ (r : Agent D P × Option (JsonRpcResponse Info)).
                  r.0.inputs ++ (terminal_of sv.host s, p.input ++ text "\n") ∷ [])
                first,
      )
    where
      made_terminals : Terminals D
      made_terminals =
          (create_session sv.store_io sv.host fresh now c.project_dir c.command a.terminals).0

      created : Agent D P
      created = (handle_message io sv fresh now raw a).0

      first : handle_message io sv fresh now raw a ≡ (
        record a { terminals = made_terminals },
        some (new_response req.id (session (session_result s true))),
      )
      first =
          handle_message-IsRequest fresh now raw _ req i a h
          ∙ ap (λ (r : Reply D P Info). (r.0, some r.1))
              (dispatch-create fresh now req a h.named
                ∙ handle_session_create-made fresh now req a c s read made)

      facts :
          (lookup p.session_id made_terminals.sessions ≡ (
            if str_eq fresh p.session_id then some s else lookup p.session_id a.terminals.sessions))
          × (s.id ≡ fresh)
          × (s.closed ≡ false)
      facts =
          let f =
            create_session_lem sv.store_io sv.host fresh now c.project_dir c.command a.terminals s
              p.session_id made in
          (f.0, f.1, f.4)

      known : lookup p.session_id created.terminals.sessions ≡ some s
      known =
          ap
            (λ (r : Agent D P × Option (JsonRpcResponse Info)).
              lookup p.session_id r.0.terminals.sessions)
            first
          ∙ facts.0
          ∙ rw (named ∙ facts.1, str_eq_refl fresh) refl

      to_terminal : write_input sv.host s ≡ terminal_of sv.host s
      to_terminal = write_input-open sv.host s facts.2

      second : handle_message io sv fresh' now' raw' created ≡ (
        record created {
          inputs = created.inputs ++ (terminal_of sv.host s, p.input ++ text "\n") ∷ [];
        },
        some (new_response req'.id success),
      )
      second =
          handle_message-IsRequest fresh' now' raw' _ req' i' created h'
          ∙ ap (λ (r : Reply D P Info). (r.0, some r.1))
              (dispatch-input fresh' now' req' created h'.named
                ∙ handle_send_input-taken req' created p s read' known (
                    ap (λ to. takes_input sv.accepts to (p.input ++ text "\n")) to_terminal ∙ takes)
                ∙ ap
                    (λ to. (
                      record created { inputs = created.inputs ++ (to, p.input ++ text "\n") ∷ [] },
                      new_response req'.id success,
                    ))
                    to_terminal)
