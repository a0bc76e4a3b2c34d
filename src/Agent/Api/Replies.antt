-- ===== src/Agent/Api/Replies.antt =====
-- What the API answers.
use pocketclaude.Base.{
  ℕ, GoString, text, str_eq, ◌≡◌, refl, ◌⊎◌, inl, inr, true, false, not, Option, none, some,
  if◌then◌else◌, if_split, option_split, Option-cases, Bool-cases, has_prefix, ℤ, ◌++◌,
}
use pocketclaude.Agent.Rpc.{Rpc, result, failed, invalid_params, unknown_method}
use pocketclaude.Agent.Terminals.{create_session, get_session, destroy_session, write_input}
use pocketclaude.Agent.Api.Protocol.{
  JsonRpcRequest, JsonRpcResponse, RpcError, ApiResult, ApiError, new_response, new_error,
  json_rpc_version, err_method_not_found, err_invalid_request,
}
use pocketclaude.Agent.Api.{
  ApiIo, Services, Agent, Reply, service_reply, handle_session_create, handle_session_list,
  handle_send_input, handle_session_destroy, dispatch_service_rpc, dispatch, handle_message,
  takes_input, input_line,
}

module _ {Info : Type 0} where
  -- An error response with this id and no result.
  abbrev pub IsError : Option GoString → JsonRpcResponse Info → Type 0
  IsError id r =
      (e : RpcError) × (r.jsonrpc ≡ json_rpc_version)
      × (r.id ≡ id)
      × (r.error ≡ some e)
      × (r.result ≡ none)

  -- A response with this id, a result and no error.
  abbrev pub IsResult : Option GoString → JsonRpcResponse Info → Type 0
  IsResult id r =
      (v : ApiResult Info) × (r.jsonrpc ≡ json_rpc_version)
      × (r.id ≡ id)
      × (r.error ≡ none)
      × (r.result ≡ some v)

  abbrev pub IsReply : Option GoString → JsonRpcResponse Info → Type 0
  IsReply id r = IsError id r ⊎ IsResult id r

  new_error-IsReply :
      (id : Option GoString) (code : ℤ) (message : GoString)
      → IsReply id (new_error id code message)
  unfolding new_error
  new_error-IsReply id code message = inl (_, refl, refl, refl, refl)

  new_response-IsReply :
      (id : Option GoString) (v : ApiResult Info) → IsReply id (new_response id v)
  unfolding new_response
  new_response-IsReply id v = inr (_, refl, refl, refl, refl)

  service_reply-IsReply :
      {A E : Type 0} (io : ApiIo) (req : JsonRpcRequest) (f : A → ApiResult Info) (g : E → ApiError)
      (r : Rpc A E)
      → IsReply req.id (service_reply io req f g r)
  service_reply-IsReply io req f g (result a) = new_response-IsReply _ _
  service_reply-IsReply io req f g (failed e) = new_error-IsReply _ _ _
  service_reply-IsReply io req f g invalid_params = new_error-IsReply _ _ _
  service_reply-IsReply io req f g unknown_method = new_error-IsReply _ _ _

module _ {D P Info : Type 0} where
  abbrev Replies : JsonRpcRequest → Reply D P Info → Type 0
  Replies req r = IsReply req.id r.1

module _ {D P Info : Type 0} (io : ApiIo) (sv : Services D Info) where
  create-Replies :
      (fresh : GoString) (now : ℕ) (req : JsonRpcRequest) (a : Agent D P)
      → Replies req (handle_session_create io sv fresh now req a)
  unfolding handle_session_create
  create-Replies fresh now req a =
      option_split (Replies {D = D} {P = P} {Info = Info} req) (io.create_of req.params)
        (λ _. new_error-IsReply _ _ _)
        (λ p _.
          option_split (IsReply {Info = Info} req.id)
            (create_session sv.store_io sv.host fresh now p.project_dir p.command a.terminals).1
            (λ _. new_error-IsReply _ _ _) (λ s _. new_response-IsReply _ _))

  input-Replies :
      (req : JsonRpcRequest) (a : Agent D P) → Replies req (handle_send_input io sv req a)
  unfolding handle_send_input
  input-Replies req a =
      option_split (Replies {D = D} {P = P} {Info = Info} req) (io.input_of req.params)
        (λ _. new_error-IsReply _ _ _)
        (λ p _.
          option_split (Replies {D = D} {P = P} {Info = Info} req)
            (get_session sv.store_io sv.host a.terminals p.session_id)
            (λ _. new_error-IsReply _ _ _)
            (λ s _.
              if_split (Replies {D = D} {P = P} {Info = Info} req)
                (takes_input sv.accepts (write_input sv.host s) (input_line p))
                (λ _. new_response-IsReply _ _) (λ _. new_error-IsReply _ _ _)))

  destroy-Replies :
      (req : JsonRpcRequest) (a : Agent D P) → Replies req (handle_session_destroy io sv req a)
  unfolding handle_session_destroy
  destroy-Replies req a =
      option_split (Replies {D = D} {P = P} {Info = Info} req) (io.destroy_of req.params)
        (λ _. new_error-IsReply _ _ _)
        (λ id _.
          option_split (IsReply {Info = Info} req.id)
            (destroy_session sv.store_io sv.host id a.terminals).1 (λ _. new_error-IsReply _ _ _)
            (λ s _. new_response-IsReply _ _))

  -- A method of no service is answered too.
  service-Replies :
      (req : JsonRpcRequest) (a : Agent D P)
      → Replies {D = D} {P = P} {Info = Info} req (elim (dispatch_service_rpc io sv req a) [
        | some r ↦ r
        | none ↦
            (a, new_error req.id err_method_not_found (text "method not found: " ++ req.method))
      ])
  unfolding dispatch_service_rpc
  service-Replies req a =
      if_split Fine (has_prefix req.method (text "fs.")) (λ _. service_reply-IsReply io req _ _ _)
        (λ _.
          if_split Fine (has_prefix req.method (text "git."))
            (λ _. service_reply-IsReply io req _ _ _)
            (λ _.
              if_split Fine (has_prefix req.method (text "system."))
                (λ _. service_reply-IsReply io req _ _ _)
                (λ _.
                  if_split Fine (has_prefix req.method (text "plugin."))
                    (λ _. service_reply-IsReply io req _ _ _) (λ _. new_error-IsReply _ _ _))))
    where
      Fine : Option (Reply D P Info) → Type 0
      Fine o = Replies {D = D} {P = P} {Info = Info} req (elim o as (λ _. Reply D P Info) [
        | some r ↦ r
        | none ↦
            (a, new_error req.id err_method_not_found (text "method not found: " ++ req.method))
      ])

  dispatch-Replies :
      (fresh : GoString) (now : ℕ) (req : JsonRpcRequest) (a : Agent D P)
      → Replies req (dispatch io sv fresh now req a)
  unfolding dispatch handle_session_list
  dispatch-Replies fresh now req a =
      if_split (Replies {D = D} {P = P} {Info = Info} req)
        (str_eq req.method (text "session.create")) (λ _. create-Replies fresh now req a)
        (λ _.
          if_split (Replies {D = D} {P = P} {Info = Info} req)
            (str_eq req.method (text "session.list")) (λ _. new_response-IsReply _ _)
            (λ _.
              if_split (Replies {D = D} {P = P} {Info = Info} req)
                (str_eq req.method (text "session.send_input")) (λ _. input-Replies req a)
                (λ _.
                  if_split (Replies {D = D} {P = P} {Info = Info} req)
                    (str_eq req.method (text "session.destroy")) (λ _. destroy-Replies req a)
                    (λ _. service-Replies req a))))

  -- A frame that is no request, or one of another version, changes nothing and gets an error, also
  -- where it has no id; any other frame gets a response exactly if it has an id.
  unfoldable pub AsSpecified :
      Option JsonRpcRequest → Agent D P → Agent D P × Option (JsonRpcResponse Info) → Type 0
  AsSpecified none a r = (r.0 ≡ a) × (e : JsonRpcResponse Info) × (r.1 ≡ some e) × IsError none e
  AsSpecified (some req) a r =
      if not (str_eq req.jsonrpc json_rpc_version)
      then ((r.0 ≡ a) × (e : JsonRpcResponse Info) × (r.1 ≡ some e) × IsError req.id e)
      else elim req.id [
        | none ↦ r.1 ≡ none
        | some i ↦ (e : JsonRpcResponse Info) × (r.1 ≡ some e) × IsReply (some i) e
      ]

  pub handle_message-versioned :
      (fresh : GoString) (now : ℕ) (raw : GoString) (a : Agent D P) (req : JsonRpcRequest)
      → io.unmarshal_request raw ≡ some req
      → str_eq req.jsonrpc json_rpc_version ≡ true
      → handle_message io sv fresh now raw a ≡ (
        (dispatch io sv fresh now req a).0,
        elim req.id [ none ↦ none | some _ ↦ some (dispatch io sv fresh now req a).1 ],
      )
  unfolding handle_message
  handle_message-versioned fresh now raw a req e v = rw (e, handle_message, v) refl

  pub handle_message-other_version :
      (fresh : GoString) (now : ℕ) (raw : GoString) (a : Agent D P) (req : JsonRpcRequest)
      → io.unmarshal_request raw ≡ some req
      → str_eq req.jsonrpc json_rpc_version ≡ false
      → handle_message io sv fresh now raw a
        ≡ (a, some (new_error req.id err_invalid_request (text "invalid jsonrpc version")))
  unfolding handle_message
  handle_message-other_version fresh now raw a req e v = rw (e, handle_message, v) refl

  AsSpecified-versioned :
      (req : JsonRpcRequest) (a a' : Agent D P) (r : JsonRpcResponse Info)
      → str_eq req.jsonrpc json_rpc_version ≡ true
      → IsReply req.id r
      → AsSpecified (some req) a (a', elim req.id [ none ↦ none | some _ ↦ some r ])
  unfolding AsSpecified
  AsSpecified-versioned req a a' r v h = rw (v, AsSpecified) (answered req.id h)
    where
      answered : (id : Option GoString) → IsReply id r → elim id as (λ _. Type 0) [
        | none ↦
            elim id as (λ _. Option (JsonRpcResponse Info)) [ none ↦ none | some _ ↦ some r ] ≡ none
        | some i ↦
            ((e : JsonRpcResponse Info) × (elim id as (λ _. Option (JsonRpcResponse Info)) [
              | none ↦ none
              | some _ ↦ some r
            ]
                ≡ some e)
              × IsReply (some i) e)
      ]
      answered none h = refl
      answered (some i) h = (r, refl, h)

  AsSpecified-other_version :
      (req : JsonRpcRequest) (a : Agent D P) (r : JsonRpcResponse Info)
      → str_eq req.jsonrpc json_rpc_version ≡ false
      → IsError req.id r
      → AsSpecified (some req) a (a, some r)
  unfolding AsSpecified
  AsSpecified-other_version req a r v h = rw (v, AsSpecified) (refl, r, refl, h)

  -- Every frame is answered as it is specified: one that is no request, or one of another version than
  -- 2.0, changes nothing and gets an error with its id, also where it has none; any other gets, exactly
  -- if it has an id, one response of that id, with either a result or an error.
  pub handle_message-AsSpecified :
      (fresh : GoString) (now : ℕ) (raw : GoString) (a : Agent D P)
      → AsSpecified (io.unmarshal_request raw) a (handle_message io sv fresh now raw a)
  handle_message-AsSpecified fresh now raw a = elim (Option-cases (io.unmarshal_request raw)) [
    | inl e ↦
        unfold handle_message AsSpecified new_error in
        rw (e, handle_message, AsSpecified) (refl, _, refl, (_, refl, refl, refl, refl))
    | inr (req, e) ↦ elim (Bool-cases (str_eq req.jsonrpc json_rpc_version)) [
      | inl v ↦
          rw (handle_message-versioned fresh now raw a req e v, e)
            (AsSpecified-versioned req a _ _ v (dispatch-Replies fresh now req a))
      | inr v ↦
          rw (handle_message-other_version fresh now raw a req e v, e)
            (AsSpecified-other_version req a _ v (unfold new_error in (_, refl, refl, refl, refl)))
    ]
  ]
