-- ===== src/Agent/Sessions/Dispatch.antt =====
-- HandleRPC of agent/internal/session/manager.go, as one more caller of the manager. The parameters are
-- read by json.Unmarshal at the types of the requests.
use pocketclaude.Base.{
  ℕ, GoString, text, str_eq, Bool, false, Option, none, some, List, if◌then◌else◌, if_split,
  option_split,
}
use pocketclaude.Agent.Rpc.{Rpc, result, failed, invalid_params, unknown_method}
use pocketclaude.Agent.SessionStore.{StoreIo}
use pocketclaude.Agent.Terminals.{Host, Manager as Terminals, InputRoute, closed_session, no_writer}
use pocketclaude.Agent.Sessions.{
  SessionInfo, Chan, Manager, create, list, send_input, destroy, subscribe_output,
}
use pocketclaude.Agent.Sessions.Safety.{Reach, next_step, creating, destroying, subscribing}

pub record CreateSessionRequest : Type 0 where
  pub project_dir : GoString
  pub command : GoString

-- `ok_status` is the map {"status": "ok"}.
pub data SessionsResult : Type 0 where
  created : SessionInfo → SessionsResult
  listed : List SessionInfo → SessionsResult
  attached : Chan → SessionsResult
  ok_status : SessionsResult

pub data SessionsError : Type 0 where
  create_failed input_failed : SessionsError
  not_found : GoString → SessionsError

pub record SessionsParams : Type 0 where
  pub create_of : GoString → Option CreateSessionRequest
  pub id_of : GoString → Option GoString
  pub input_of : GoString → Option (GoString × GoString)

-- Whether WriteInput returns no error; `accepts` is whether the terminal takes the bytes.
abbrev writes : (InputRoute → GoString → Bool) → InputRoute → GoString → Bool
writes accepts closed_session chunk = false
writes accepts no_writer chunk = false
writes accepts route chunk = accepts route chunk

-- The manager, what was written to a terminal, and the result.
abbrev pub Answer : Type 0 → Type 0
Answer D = Manager D × Option (InputRoute × GoString) × Rpc SessionsResult SessionsError

module _ {D : Type 0} (io : StoreIo D) (host : Host) (p : SessionsParams)
    (accepts : InputRoute → GoString → Bool) where
  -- `fresh` is the new UUID, and `now` the time.
  unfoldable pub rpc_create : GoString → ℕ → GoString → Manager D → Answer D
  rpc_create fresh now params m = elim (p.create_of params) [
    | none ↦ (m, none, invalid_params)
    | some req ↦
        (let (m', made) = create io host fresh now req.project_dir req.command m in
          (m', none, elim made [ none ↦ failed create_failed | some s ↦ result (created s) ]))
  ]

  unfoldable pub rpc_attach : GoString → Manager D → Answer D
  rpc_attach params m = elim (p.id_of params) [
    | none ↦ (m, none, invalid_params)
    | some id ↦
        (let (m', ch) = subscribe_output io host id m in
          (m', none, elim ch [ none ↦ failed (not_found id) | some c ↦ result (attached c) ]))
  ]

  unfoldable pub rpc_send_input : GoString → Manager D → Answer D
  rpc_send_input params m = elim (p.input_of params) [
    | none ↦ (m, none, invalid_params)
    | some input ↦ elim (send_input io host input.0 m) [
      | none ↦ (m, none, failed (not_found input.0))
      | some route ↦
          if writes accepts route input.1
          then (m, some (route, input.1), result ok_status)
          else (m, none, failed input_failed)
    ]
  ]

  unfoldable pub rpc_destroy : GoString → Manager D → Answer D
  rpc_destroy params m = elim (p.id_of params) [
    | none ↦ (m, none, invalid_params)
    | some id ↦
        (let (m', there) = destroy io host id m in
          (m', none, if there then result ok_status else failed (not_found id)))
  ]

  -- The `switch` on the method.
  unfoldable pub handle_rpc : GoString → ℕ → GoString → GoString → Manager D → Answer D
  unfolding rpc_create rpc_attach rpc_send_input rpc_destroy
  handle_rpc fresh now method params m =
      if str_eq method (text "session.create")
      then rpc_create fresh now params m
      else if str_eq method (text "session.list")
      then (m, none, result (listed (list io host m)))
      else if str_eq method (text "session.attach")
      then rpc_attach params m
      else if str_eq method (text "session.send_input")
      then rpc_send_input params m
      else if str_eq method (text "session.destroy")
      then rpc_destroy params m
      else (m, none, unknown_method)

  -- Whatever is called, and whatever the parameters: the manager takes one of its steps, or none.
  pub handle_rpc-Reach :
      (fresh : GoString) (now : ℕ) (method params : GoString) (terminals : Terminals D)
      (m : Manager D)
      → Reach io host terminals m
      → Reach io host terminals (handle_rpc fresh now method params m).0
  unfolding handle_rpc
  handle_rpc-Reach fresh now method params terminals m r =
      if_split Fine (str_eq method (text "session.create"))
        (λ _.
          option_split Fine (p.create_of params) (λ _. r)
            (λ req _. next_step m _ r (creating fresh now req.project_dir req.command m)))
        λ _.
          if_split Fine (str_eq method (text "session.list")) (λ _. r)
            λ _.
              if_split Fine (str_eq method (text "session.attach"))
                (λ _.
                  option_split Fine (p.id_of params) (λ _. r)
                    (λ id _. next_step m _ r (subscribing id m)))
                λ _.
                  if_split Fine (str_eq method (text "session.send_input")) (λ _. sending)
                    λ _.
                      if_split Fine (str_eq method (text "session.destroy"))
                        (λ _.
                          option_split Fine (p.id_of params) (λ _. r)
                            (λ id _. next_step m _ r (destroying id m)))
                        (λ _. r)
    where
      Fine : Answer D → Type 0
      Fine a = Reach io host terminals a.0

      sending : Fine (rpc_send_input params m)
      sending =
          option_split Fine (p.input_of params) (λ _. r)
            (λ input _.
              option_split Fine (send_input io host input.0 m) (λ _. r)
                (λ route _. if_split Fine (writes accepts route input.1) (λ _. r) (λ _. r)))
