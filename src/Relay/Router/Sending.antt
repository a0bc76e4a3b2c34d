-- ===== src/Relay/Router/Sending.antt =====
-- message.send (handleMessageSend), and what a connection can do before it has registered.
use pocketclaude.Base.{
  ℕ, ◌+◌, GoString, text, str_eq, str_eq_iff, ◌≡◌, ◌≢◌, refl, ap, ◌∙◌, true, false, not, Option,
  none, some, [], ◌∷◌, ◌++◌, append_assoc, length, if◌then◌else◌, if_split, option_split, arith, ℤ,
  neg, length-append,
}
use pocketclaude.Base.GoMap.{lookup}
use pocketclaude.Relay.Router.Wire.{answered, refused, notice}
use pocketclaude.Relay.Protocol.{
  JsonRpcError, forward, new_notification, must_marshal, Time, JsonRpcRequest, JsonRpcResponse,
  SendParams, new_response, new_error_response, success, json_rpc_version, method_device_register,
  method_device_list_online, method_message_send, method_presence_heartbeat,
}
use pocketclaude.Relay.Registry.{Conn, DeviceInfo}
use pocketclaude.Relay.Net.{Env, World, response, write}
use pocketclaude.Relay.Router.{
  Router, Outcome, reject, send_error, handle_register, handle_list_online, forward_message,
  handle_message_send, handle_heartbeat, dispatch, handle_text, forward_notice, known_type,
}
use pocketclaude.Relay.Router.Invariant.{router-complete_register}

-- The outcome of forwarding `p` to `target`.
abbrev pub Sent :
    Env → Router → World → Conn → JsonRpcRequest → SendParams → DeviceInfo → Outcome → Type 0
Sent env rt w conn req p target o =
    (o.world.writes
      ≡ w.writes
        ++ (
          target.conn,
          notice env (text "message.forward") (forward rt.device_id p.encrypted_payload p.nonce),
        )
          ∷ (
            conn,
            if env.delivers (length w.writes)
                then answered req.id (success true)
                else refused req.id (neg 32603) (text "forward failed"),
          )
          ∷ [])
    × (o.world.registry ≡ w.registry)
    × (o.keep_open
        ≡ (if env.delivers (length w.writes) then env.delivers (length w.writes + 1) else true))

forward_message_lem :
    (env : Env) (rt : Router) (w : World) (conn : Conn) (req : JsonRpcRequest) (p : SendParams)
    (target : DeviceInfo)
    → Sent env rt w conn req p target (forward_message env rt w conn req p target)
unfolding forward_message write send_error forward_notice new_notification must_marshal new_response
    new_error_response
forward_message_lem env rt w conn req p target =
    if_split (Sent env rt w conn req p target) (env.delivers (length w.writes))
      (λ e. (
        rw e (append_assoc w.writes _ _),
        refl,
        rw e (ap env.delivers (length-append w.writes _ ∙ omega arith)),
      ))
      (λ e. (rw e (append_assoc w.writes _ _), refl, rw e))

handle_message_send-found :
    (env : Env) (rt : Router) (w : World) (conn : Conn) (req : JsonRpcRequest) (p : SendParams)
    (target : DeviceInfo)
    → rt.registered ≡ true
    → env.unmarshal_send req.params ≡ some p
    → p.target_id ≢ []
    → lookup p.target_id w.registry ≡ some target
    → handle_message_send env rt w conn req ≡ forward_message env rt w conn req p target
unfolding handle_message_send
handle_message_send-found env rt w conn req p target on parsed ne found =
    ground (arith, str_eq_iff p.target_id [])

-- A registered device sends to an online target. The target's connection is written first, with a
-- message.forward from this device; the sender is answered second, with success exactly if that
-- write succeeded and an internal error, -32603, if not. The forward names the device as its source
-- and carries the payload and nonce of the request. The registry stays as it was, and the connection is
-- closed only if the forward was written and its acknowledgement was not.
pub message_send :
    (env : Env) (rt : Router) (w : World) (conn : Conn) (req : JsonRpcRequest) (p : SendParams)
    (target : DeviceInfo)
    → rt.registered ≡ true
    → env.unmarshal_send req.params ≡ some p
    → p.target_id ≢ []
    → lookup p.target_id w.registry ≡ some target
    → Sent env rt w conn req p target (handle_message_send env rt w conn req)
message_send env rt w conn req p target on parsed ne found =
    rw (handle_message_send-found env rt w conn req p target on parsed ne found)
      (forward_message_lem env rt w conn req p target)

-- What a refused request leaves: the registry and the closed connections as they were, one more
-- write, an error on the connection itself, and the connection open.
abbrev pub OnlyRefused : World → Conn → Outcome → Type 0
OnlyRefused w conn o =
    (o.world.registry ≡ w.registry)
    × (o.world.closed ≡ w.closed)
    × (o.keep_open ≡ true)
    × ((r : JsonRpcResponse) × (e : JsonRpcError) × (o.world.writes
          ≡ w.writes ++ (conn, response r) ∷ [])
        × (r.result ≡ none)
        × (r.error ≡ some e))

module _ (env : Env) (rt : Router) (w : World) (conn : Conn) where
  abbrev Contained : Outcome → Type 0
  Contained o = o.router.registered ≡ false → OnlyRefused w conn o

  reject-Contained :
      (id : Option ℕ) (code : ℤ) (message : GoString)
      → Contained (reject env rt w conn id code message)
  unfolding send_error write new_error_response
  reject-Contained id code message _ =
      (refl, refl, refl, (new_error_response id code message, _, refl, refl, refl))

  handle_register-Contained :
      (now : Time) (req : JsonRpcRequest) → Contained (handle_register env now rt w conn req)
  unfolding handle_register
  handle_register-Contained now req =
      option_split Contained (env.unmarshal_register req.params) (λ _. reject-Contained _ _ _)
        λ p _.
          if_split Contained (str_eq p.device_id []) (λ _. reject-Contained _ _ _)
            λ _.
              if_split Contained (not (known_type env p.device_type)) (λ _. reject-Contained _ _ _)
                λ _ e. cc (
                  e,
                  ap (λ (rt : Router). rt.registered)
                      (router-complete_register env now conn req p w),
                )

  module _ (off : rt.registered ≡ false) where
    dispatch-Contained :
        (now : Time) (req : JsonRpcRequest) → Contained (dispatch env now rt w conn req)
    unfolding dispatch handle_list_online handle_message_send handle_heartbeat
    dispatch-Contained now req =
        if_split Contained (str_eq req.method method_device_register)
          (λ _. handle_register-Contained now req)
          λ _.
            if_split Contained (str_eq req.method method_device_list_online)
              (λ _.
                if_split Contained (not rt.registered) (λ _. reject-Contained _ _ _)
                  λ on. absurd (never on))
              λ _.
                if_split Contained (str_eq req.method method_message_send)
                  (λ _.
                    if_split Contained (not rt.registered) (λ _. reject-Contained _ _ _)
                      λ on. absurd (never on))
                  λ _.
                    if_split Contained (str_eq req.method method_presence_heartbeat)
                      (λ _.
                        if_split Contained (not rt.registered) (λ _. reject-Contained _ _ _)
                          λ on. absurd (never on))
                      (λ _. reject-Contained _ _ _)
      where
        never : not rt.registered ≡ false → ⊥
        never e = ground (arith, off, e)

    -- Before it has registered, a connection that sends a text frame and is still not registered
    -- after it has changed nothing: the registry is as it was, no connection is closed, and one write is added, an error on the
    -- connection itself, which stays open.
    pub unregistered_contained :
        (now : Time) (bytes : GoString)
        → (handle_text env now rt w conn bytes).router.registered ≡ false
        → OnlyRefused w conn (handle_text env now rt w conn bytes)
    unfolding handle_text
    unregistered_contained now bytes =
        option_split Contained (env.unmarshal_request bytes) (λ _. reject-Contained _ _ _)
          λ req _.
            if_split Contained (not (str_eq req.jsonrpc json_rpc_version))
              (λ _. reject-Contained _ _ _) λ _. dispatch-Contained now req
