-- ===== src/Agent/RelayClient/Registration.antt =====
-- connection/relay.go against relay/internal/router/router.go: what the relay makes of the agent's
-- messages.
use mathlib.Core.Path.{subst}
use pocketclaude.Base.{
  ℕ, GoString, text, str_eq, true, false, not, none, some, List, [], ◌∷◌, ◌≡◌, refl, sym, ap, ◌∙◌,
  inl, inr, All, if_split, option_split,
}
use pocketclaude.Agent.RelayClient.{RelayClient, Envelope, envelope, any_json}
use pocketclaude.Agent.RelayClient.Steps.Writes.{
  IsFromClient, IsClientPacket, All-Holds, OwnWrites, Reachable-Own,
}
use pocketclaude.Agent.RelayClient.Steps.{System, Holds, Reachable}
use pocketclaude.Relay.Protocol.{
  Time, JsonRpcRequest, json_rpc_version, method_device_register, method_device_list_online,
  method_message_send,
}
use pocketclaude.Relay.Registry.{Conn}
use pocketclaude.Relay.Net.{Env, World, write, close}
use pocketclaude.Relay.Router.{
  Router, Outcome, new, send_error, dispatch, handle_message_send, handle_text,
}
use pocketclaude.Relay.Handler.{Arrival, handle_frame, read_loop, cleanup, serve_http}

-- What an unregistered connection keeps: its router and the registry.
Keeps : World → Outcome → Type 0
Keeps w o = (o.router ≡ new) × (o.world.registry ≡ w.registry) × (o.keep_open ≡ true)

module _ (env : Env) (conn : Conn) where
  send_refused :
      (now : Time) (w : World) (req : JsonRpcRequest)
      → req.method ≡ text "message.send"
      → Keeps w (dispatch env now new w conn req)
  unfolding Keeps dispatch handle_message_send send_error write str_eq
  send_refused now w req e =
      let named : (s : GoString) → str_eq req.method s ≡ str_eq (text "message.send") s =
        λ s. ap (λ m. str_eq m s) e in
      if_split (Keeps w) (str_eq req.method method_device_register)
        (λ hit. absurd (cc (hit, named method_device_register)))
        λ _.
          if_split (Keeps w) (str_eq req.method method_device_list_online)
            (λ hit. absurd (cc (hit, named method_device_list_online)))
            λ _.
              if_split (Keeps w) (str_eq req.method method_message_send) (λ _. (refl, refl, refl))
                (λ miss. absurd (cc (miss, named method_message_send)))

  loop_next :
      (rt : Router) (w : World) (a : Arrival) (rest : List Arrival)
      → (handle_frame env conn rt w a).keep_open ≡ true
      → read_loop env conn rt w (a ∷ rest)
        ≡ read_loop env conn
            (handle_frame env conn rt w a).router
            (handle_frame env conn rt w a).world
            rest
  unfolding read_loop
  loop_next rt w a rest e =
      let o = handle_frame env conn rt w a in
      ap
        (λ b. elim b as (λ _. Router × World) [
          | true ↦ read_loop env conn o.router o.world rest
          | false ↦ (o.router, o.world)
        ])
        e

  module _ {V : Type 0} (marshal : Envelope V → GoString) (marshal_value : V → GoString)
      (unmarshal_string-id : (m : Envelope V) (i : GoString)
        → m.id ≡ some i
        → env.unmarshal_request (marshal m) ≡ none)
      (unmarshal-method : (m : Envelope V) (req : JsonRpcRequest)
        → env.unmarshal_request (marshal m) ≡ some req
        → req.method ≡ m.method) where
    text_refused :
        (now : Time) (w : World) (m : Envelope V)
        → IsFromClient m
        → Keeps w (handle_text env now new w conn (marshal m))
    unfolding Keeps handle_text send_error write
    text_refused now w m (inl (i, e)) =
        rw (handle_text, unmarshal_string-id m i e) (refl, refl, refl)
    text_refused now w m (inr (_, e)) =
        option_split (Keeps w) (env.unmarshal_request (marshal m)) (λ _. (refl, refl, refl))
          λ req read.
            if_split (Keeps w) (not (str_eq req.jsonrpc json_rpc_version)) (λ _. (refl, refl, refl))
              λ _. send_refused now w req (unmarshal-method m req read ∙ e)

    -- A text frame that the client wrote on its connection `k`: an envelope, or what SendJSON was given.
    pub data IsSent {M : Type 0} (s : System V M) (k : ℕ) : Arrival → Type 0 where
      of_envelope :
          {a : Arrival} (source : Envelope V)
          → a.msg_type ≡ 1
          → Holds (k, envelope source) s.writes
          → a.bytes ≡ marshal source
          → IsSent s k a
      of_send_json :
          {a : Arrival} (v : V)
          → a.msg_type ≡ 1
          → Holds (k, any_json v) s.writes
          → a.bytes ≡ marshal_value v
          → IsSent s k a

    -- Nothing was written with SendJSON on the connection.
    abbrev pub NoSendJson : {M : Type 0} → System V M → ℕ → Type 0
    NoSendJson s k = (v : V) → Holds (k, any_json v) s.writes → ⊥

    frame_refused :
        {M : Type 0} {s : System V M} {k : ℕ} (a : Arrival) (w : World)
        → OwnWrites s
        → NoSendJson s k
        → IsSent s k a
        → Keeps w (handle_frame env conn new w a)
    unfolding handle_frame OwnWrites IsClientPacket
    frame_refused {s = s} {k = k} a w own none_json (of_envelope source is_text written coded) =
        let ours : IsFromClient source = All-Holds (λ x. IsClientPacket x.1) own written in
        rw (is_text, coded) (text_refused a.at w source ours)
    frame_refused a w own none_json (of_send_json v is_text written coded) =
        absurd (none_json v written)

    loop_refused :
        {M : Type 0} (s : System V M) (k : ℕ) (arrivals : List Arrival) (w : World)
        → OwnWrites s
        → NoSendJson s k
        → All (IsSent s k) arrivals
        → let (rt, w') = read_loop env conn new w arrivals in
          (rt ≡ new) × (w'.registry ≡ w.registry)
    unfolding read_loop Keeps
    loop_refused s k [] w own none_json sent = (refl, refl)
    loop_refused s k (a ∷ rest) w own none_json sent =
        let o = handle_frame env conn new w a in
        let kept = frame_refused a w own none_json sent.0 in
        let after = loop_refused s k rest o.world own none_json sent.1 in
        subst (λ (x : Router × World). (x.0 ≡ new) × (x.1.registry ≡ w.registry))
          (sym (loop_next new w a rest kept.2 ∙ ap (λ r. read_loop env conn r o.world rest) kept.0))
          (after.0, after.1 ∙ kept.1)

    -- encoding/json refuses an identifier that is a string where the relay wants a number, and gives
    -- a request the method that it was written with. Whatever the agent's client and its users have
    -- done, as long as none has called SendJSON on this connection, and whichever of the messages of
    -- the connection reach the relay as text, and in whatever order: the registry is the same after the
    -- connection as before.
    pub agent_not_registered :
        {M : Type 0} {c : RelayClient} {s : System V M} (k : ℕ) (arrivals : List Arrival)
        (w : World)
        → Reachable c s
        → NoSendJson s k
        → All (IsSent s k) arrivals
        → (serve_http env conn w arrivals).registry ≡ w.registry
    unfolding serve_http cleanup close write str_eq
    agent_not_registered {s = s} k arrivals w reached none_json sent =
        let refused = loop_refused s k arrivals w (Reachable-Own reached) none_json sent in
        let out = read_loop env conn new w arrivals in
        ap (λ r. (cleanup env conn r out.1).registry) refused.0 ∙ refused.1
