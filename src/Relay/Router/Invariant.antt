-- ===== src/Relay/Router/Invariant.antt =====
-- What a text or binary frame keeps: the invariant of the registry, and that the router knows its
-- device exactly when it is registered.
use mathlib.Core.Path.{subst}
use pocketclaude.Base.{
  length, ℕ, GoString, text, str_eq, str_eq_iff, ◌≡◌, ◌≢◌, ◌⊎◌, inl, refl, sym, ap, ◌∙◌, true,
  false, not, Option, [], ℤ, option_split, if_split, ◌==◌, arith,
}
use pocketclaude.Base.GoMap.{lookup}
use pocketclaude.Relay.Protocol.{
  Time, JsonRpcRequest, RegisterParams, RpcResult, new_response, registered_at, json_rpc_version,
  method_device_register, method_device_list_online, method_message_send, method_presence_heartbeat,
}
use pocketclaude.Relay.Registry.{Conn, register}
use pocketclaude.Relay.Registry.Invariant.{IsValid, register-IsValid, update_last_seen-IsValid}
use pocketclaude.Relay.Net.{Env, World, response, write, close}
use pocketclaude.Relay.Net.Laws.{registry-post_all}
use pocketclaude.Relay.Router.{
  Router, Outcome, reject, send_error, forward_notice, respond, close_replaced, complete_register,
  handle_register, known_type, handle_list_online, forward_message, handle_message_send,
  handle_heartbeat, dispatch, handle_text, handle_binary, target_id, payload_of,
}

abbrev pub IsConsistent : Router → Type 0
IsConsistent rt =
    ((rt.registered ≡ true) × (rt.device_id ≢ [])) ⊎ ((rt.registered ≡ false) × (rt.device_id ≡ []))

pub record IsSound (o : Outcome) : Type 0 where
  pub registry_ok : IsValid o.world.registry
  pub router_ok : IsConsistent o.router

known_type_cases :
    (env : Env) (t : GoString) → known_type env t ≡ true → (t ≡ text "agent") ⊎ (t ≡ text "client")
known_type_cases env t h = ground (arith, str_eq_iff t (text "agent"), str_eq_iff t (text "client"))

module _ (env : Env) where
  pub registry-close_replaced :
      (w : World) (id : GoString) (conn : Conn)
      → (close_replaced env w id conn).registry ≡ w.registry
  unfolding close_replaced write close
  registry-close_replaced w id conn =
      option_split (λ (v : World). v.registry ≡ w.registry) (lookup id w.registry) (λ _. refl)
        λ existing _.
          if_split (λ (v : World). v.registry ≡ w.registry) (existing.conn == conn) (λ _. refl)
            (λ _. refl)

  abbrev pub enrolled : Time → Conn → RegisterParams → World → World
  enrolled now conn p w =
      let w1 = close_replaced env w p.device_id conn in
      record w1 { registry = register w1.registry p.device_id p.device_type p.public_key conn now }

  pub registry-complete_register :
      (now : Time) (conn : Conn) (req : JsonRpcRequest) (p : RegisterParams) (w : World)
      → (complete_register env now conn req p w).world.registry
        ≡ register w.registry p.device_id p.device_type p.public_key conn now
  unfolding complete_register write
  registry-complete_register now conn req p w =
      if_split (λ (o : Outcome). o.world.registry ≡ (enrolled now conn p w).registry)
        (write env (enrolled now conn p w) conn (
          response (
            new_response req.id
              (registered_at true (env.unix_now (length (enrolled now conn p w).writes)))))).1
        (λ _. registry-post_all env _ _ _) (λ _. refl)
      ∙ ap (λ r. register r p.device_id p.device_type p.public_key conn now)
          (registry-close_replaced w p.device_id conn)

  pub router-complete_register :
      (now : Time) (conn : Conn) (req : JsonRpcRequest) (p : RegisterParams) (w : World)
      → (complete_register env now conn req p w).router
        ≡ record { device_id = p.device_id; registered = true }
  unfolding complete_register write
  router-complete_register now conn req p w =
      if_split (λ (o : Outcome). o.router ≡ record { device_id = p.device_id; registered = true })
        (write env (enrolled now conn p w) conn (
          response (
            new_response req.id
              (registered_at true (env.unix_now (length (enrolled now conn p w).writes)))))).1
        (λ _. refl) (λ _. refl)

  -- A part of the outcome that all the refusals of a handler leave as it was.
  module _ (rt : Router) (w : World) (ok_w : IsValid w.registry) (ok_rt : IsConsistent rt) where
    reject-IsSound :
        (conn : Conn) (id : Option ℕ) (code : ℤ) (message : GoString)
        → IsSound (reject env rt w conn id code message)
    unfolding send_error write
    reject-IsSound conn id code message = record { registry_ok = ok_w; router_ok = ok_rt }

    respond-IsSound :
        (conn : Conn) (req : JsonRpcRequest) (result : RpcResult)
        → IsSound (respond env rt w conn req result)
    unfolding write
    respond-IsSound conn req result = record { registry_ok = ok_w; router_ok = ok_rt }

    complete_register-IsSound :
        (now : Time) (conn : Conn) (req : JsonRpcRequest) (p : RegisterParams)
        → p.device_id ≢ []
        → (p.device_type ≡ text "agent") ⊎ (p.device_type ≡ text "client")
        → IsSound (complete_register env now conn req p w)
    complete_register-IsSound now conn req p ne kind = record {
      registry_ok = subst IsValid (sym (registry-complete_register now conn req p w)) (
          register-IsValid w.registry p.device_id p.device_type p.public_key conn now ne kind ok_w);
      router_ok =
          subst IsConsistent (sym (router-complete_register now conn req p w)) (inl (refl, ne));
    }

    handle_register-IsSound :
        (now : Time) (conn : Conn) (req : JsonRpcRequest)
        → IsSound (handle_register env now rt w conn req)
    unfolding handle_register
    handle_register-IsSound now conn req =
        option_split IsSound (env.unmarshal_register req.params) (λ _. reject-IsSound conn _ _ _)
          λ p _.
            if_split IsSound (str_eq p.device_id []) (λ _. reject-IsSound conn _ _ _)
              λ named.
                if_split IsSound (not (known_type env p.device_type))
                  (λ _. reject-IsSound conn _ _ _)
                  λ known.
                    complete_register-IsSound now conn req p
                      (λ e. cc (named, (str_eq_iff p.device_id []).1 e))
                      (known_type_cases env p.device_type (ground (arith, known)))

    handle_message_send-IsSound :
        (conn : Conn) (req : JsonRpcRequest) → IsSound (handle_message_send env rt w conn req)
    unfolding handle_message_send forward_message write send_error
    handle_message_send-IsSound conn req =
        if_split IsSound (not rt.registered) (λ _. reject-IsSound conn _ _ _)
          λ _.
            option_split IsSound (env.unmarshal_send req.params) (λ _. reject-IsSound conn _ _ _)
              λ p _.
                if_split IsSound (str_eq p.target_id []) (λ _. reject-IsSound conn _ _ _)
                  λ _.
                    option_split IsSound (lookup p.target_id w.registry)
                      (λ _. reject-IsSound conn _ _ _)
                      λ t _.
                        if_split IsSound (write env w t.conn (forward_notice env rt.device_id p)).1
                          (λ _. record { registry_ok = ok_w; router_ok = ok_rt })
                          (λ _. record { registry_ok = ok_w; router_ok = ok_rt })

    handle_list_online-IsSound :
        (conn : Conn) (req : JsonRpcRequest) → IsSound (handle_list_online env rt w conn req)
    unfolding handle_list_online
    handle_list_online-IsSound conn req =
        if_split IsSound (not rt.registered) (λ _. reject-IsSound conn _ _ _)
          (λ _. respond-IsSound conn req _)

    handle_heartbeat-IsSound :
        (now : Time) (conn : Conn) (req : JsonRpcRequest)
        → IsSound (handle_heartbeat env now rt w conn req)
    unfolding handle_heartbeat write
    handle_heartbeat-IsSound now conn req =
        if_split IsSound (not rt.registered) (λ _. reject-IsSound conn _ _ _)
          (λ _. record {
            registry_ok = update_last_seen-IsValid w.registry rt.device_id now ok_w;
            router_ok = ok_rt;
          })

    dispatch-IsSound :
        (now : Time) (conn : Conn) (req : JsonRpcRequest) → IsSound (dispatch env now rt w conn req)
    unfolding dispatch
    dispatch-IsSound now conn req =
        if_split IsSound (str_eq req.method method_device_register)
          (λ _. handle_register-IsSound now conn req)
          λ _.
            if_split IsSound (str_eq req.method method_device_list_online)
              (λ _. handle_list_online-IsSound conn req)
              λ _.
                if_split IsSound (str_eq req.method method_message_send)
                  (λ _. handle_message_send-IsSound conn req)
                  λ _.
                    if_split IsSound (str_eq req.method method_presence_heartbeat)
                      (λ _. handle_heartbeat-IsSound now conn req) (λ _. reject-IsSound conn _ _ _)

    -- A text frame keeps both invariants, whatever it holds.
    pub handle_text-IsSound :
        (now : Time) (conn : Conn) (bytes : GoString)
        → IsSound (handle_text env now rt w conn bytes)
    unfolding handle_text
    handle_text-IsSound now conn bytes =
        option_split IsSound (env.unmarshal_request bytes) (λ _. reject-IsSound conn _ _ _)
          λ req _.
            if_split IsSound (not (str_eq req.jsonrpc json_rpc_version))
              (λ _. reject-IsSound conn _ _ _) λ _. dispatch-IsSound now conn req

    pub handle_binary-IsSound : (bytes : GoString) → IsSound (handle_binary env rt w bytes)
    unfolding handle_binary write
    handle_binary-IsSound bytes =
        if_split IsSound (not rt.registered) (λ _. kept)
          λ _.
            option_split IsSound (payload_of bytes) (λ _. kept)
              λ payload _.
                option_split IsSound (lookup (target_id bytes) w.registry) (λ _. kept)
                  (λ t _. record { registry_ok = ok_w; router_ok = ok_rt })
      where
        kept : IsSound (record { router = rt; world = w; keep_open = true })
        kept = record { registry_ok = ok_w; router_ok = ok_rt }
