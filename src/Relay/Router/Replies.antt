-- ===== src/Relay/Router/Replies.antt =====
-- Every text frame is answered: one response, on the connection that sent it, with the request's id.
use pocketclaude.Base.{
  length, ℕ, GoString, str_eq, ◌≡◌, refl, ap, ◌∙◌, true, Option, some, none, List, [], ◌∷◌, ◌++◌, ℤ,
  append-nil, map, not, if_split, option_split, ◌==◌, text,
}
use pocketclaude.Base.GoMap.{lookup}
use pocketclaude.Relay.Protocol.{
  method_device_register, method_device_list_online, method_message_send, method_presence_heartbeat,
  registered_at, json_rpc_version, Time, JsonRpcRequest, JsonRpcResponse, RegisterParams,
  SendParams, RpcResult, new_response, new_error_response,
}
use pocketclaude.Relay.Registry.{Conn, DeviceInfo}
use pocketclaude.Relay.Net.{
  Env, World, Frame, response, notification, raw, write, post, post_all, close,
}
use pocketclaude.Relay.Registry.{register}
use pocketclaude.Relay.Net.Laws.{writes-post_all}
use pocketclaude.Relay.Router.{
  Router, Outcome, send_error, reject, respond, close_replaced, complete_register, handle_register,
  handle_list_online, forward_message, handle_message_send, handle_heartbeat, dispatch, handle_text,
  known_type, online_notice, forward_notice, others,
}

-- The responses among the writes.
pub responses : List (Conn × Frame) → List (Conn × JsonRpcResponse)
responses [] = []
responses ((c, response r) ∷ ws) = (c, r) ∷ responses ws
responses ((c, notification n) ∷ ws) = responses ws
responses ((c, raw t b) ∷ ws) = responses ws

responses-append :
    (ws vs : List (Conn × Frame)) → responses (ws ++ vs) ≡ responses ws ++ responses vs
unfolding responses
responses-append [] vs = refl
responses-append ((c, response r) ∷ ws) vs = ap (◌∷◌ (c, r)) (responses-append ws vs)
responses-append ((c, notification n) ∷ ws) vs = responses-append ws vs
responses-append ((c, raw t b) ∷ ws) vs = responses-append ws vs

-- The writes `after` have the responses of those `before`, and one more, on `conn` and with the id
-- `id`.
abbrev pub AnswersBetween : List (Conn × Frame) → Conn → Option ℕ → List (Conn × Frame) → Type 0
AnswersBetween before conn id after =
    (r : JsonRpcResponse) × (responses after ≡ responses before ++ (conn, r) ∷ []) × (r.id ≡ id)

abbrev pub Answers : World → Conn → Option ℕ → Outcome → Type 0
Answers w conn id o = AnswersBetween w.writes conn id o.world.writes

-- Writes that are no responses may come first, or follow.
Answers-after :
    (ws vs us : List (Conn × Frame)) (conn : Conn) (id : Option ℕ)
    → responses vs ≡ responses ws
    → AnswersBetween vs conn id us
    → AnswersBetween ws conn id us
Answers-after ws vs us conn id e (r, h, i) = (r, h ∙ ap (λ l. l ++ (conn, r) ∷ []) e, i)

Answers-before :
    (ws vs us : List (Conn × Frame)) (conn : Conn) (id : Option ℕ)
    → responses us ≡ responses vs
    → AnswersBetween ws conn id vs
    → AnswersBetween ws conn id us
Answers-before ws vs us conn id e (r, h, i) = (r, e ∙ h, i)

responses-broadcast :
    (n : JsonRpcRequest) (cs : List Conn) → responses (map (λ c. (c, notification n)) cs) ≡ []
unfolding responses
responses-broadcast n [] = refl
responses-broadcast n (c ∷ cs) = responses-broadcast n cs

pub id_of : Option JsonRpcRequest → Option ℕ
id_of none = none
id_of (some req) = req.id

module _ (env : Env) where
  responses-write :
      (w : World) (c : Conn) (r : JsonRpcResponse)
      → responses (write env w c (response r)).0.writes ≡ responses w.writes ++ (c, r) ∷ []
  unfolding write responses
  responses-write w c r = responses-append w.writes ((c, response r) ∷ [])

  responses-notify :
      (w : World) (c : Conn) (n : JsonRpcRequest)
      → responses (write env w c (notification n)).0.writes ≡ responses w.writes
  unfolding write responses
  responses-notify w c n = responses-append w.writes ((c, notification n) ∷ []) ∙ append-nil _

  reject-Answers :
      (rt : Router) (w : World) (conn : Conn) (id : Option ℕ) (code : ℤ) (message : GoString)
      → Answers w conn id (reject env rt w conn id code message)
  unfolding send_error new_error_response
  reject-Answers rt w conn id code message =
      (new_error_response id code message, responses-write w conn _, refl)

  respond-Answers :
      (rt : Router) (w : World) (conn : Conn) (req : JsonRpcRequest) (result : RpcResult)
      → Answers w conn req.id (respond env rt w conn req result)
  unfolding new_response
  respond-Answers rt w conn req result =
      (new_response req.id result, responses-write w conn _, refl)

  handle_list_online-Answers :
      (rt : Router) (w : World) (conn : Conn) (req : JsonRpcRequest)
      → Answers w conn req.id (handle_list_online env rt w conn req)
  unfolding handle_list_online
  handle_list_online-Answers rt w conn req =
      if_split (Answers w conn req.id) (not rt.registered)
        (λ _. reject-Answers rt w conn req.id _ _) (λ _. respond-Answers rt w conn req _)

  forward_message-Answers :
      (rt : Router) (w : World) (conn : Conn) (req : JsonRpcRequest) (p : SendParams)
      (t : DeviceInfo)
      → Answers w conn req.id (forward_message env rt w conn req p t)
  unfolding forward_message
  forward_message-Answers rt w conn req p t =
      if_split (Answers w conn req.id) (write env w t.conn (forward_notice env rt.device_id p)).1
        (λ _. Answers-after _ _ _ conn req.id silent (respond-Answers rt forwarded conn req _))
        (λ _. Answers-after _ _ _ conn req.id silent (reject-Answers rt forwarded conn req.id _ _))
    where
      forwarded : World
      forwarded = (write env w t.conn (forward_notice env rt.device_id p)).0

      silent : responses forwarded.writes ≡ responses w.writes
      silent = unfold forward_notice in responses-notify w t.conn _

  handle_message_send-Answers :
      (rt : Router) (w : World) (conn : Conn) (req : JsonRpcRequest)
      → Answers w conn req.id (handle_message_send env rt w conn req)
  unfolding handle_message_send
  handle_message_send-Answers rt w conn req =
      if_split (Answers w conn req.id) (not rt.registered)
        (λ _. reject-Answers rt w conn req.id _ _)
        λ _.
          option_split (Answers w conn req.id) (env.unmarshal_send req.params)
            (λ _. reject-Answers rt w conn req.id _ _)
            λ p _.
              if_split (Answers w conn req.id) (str_eq p.target_id [])
                (λ _. reject-Answers rt w conn req.id _ _)
                λ _.
                  option_split (Answers w conn req.id) (lookup p.target_id w.registry)
                    (λ _. reject-Answers rt w conn req.id _ _)
                    λ t _. forward_message-Answers rt w conn req p t

  responses-close_replaced :
      (w : World) (id : GoString) (conn : Conn)
      → responses (close_replaced env w id conn).writes ≡ responses w.writes
  unfolding close_replaced
  responses-close_replaced w id conn =
      option_split (λ (v : World). responses v.writes ≡ responses w.writes) (lookup id w.registry)
        (λ _. refl)
        λ existing _.
          if_split (λ (v : World). responses v.writes ≡ responses w.writes) (existing.conn == conn)
            (λ _. refl) λ _. raw_silent existing.conn
    where
      raw_silent :
          (c : Conn)
          → responses (close (post env w c (raw 8 (text "replaced by new connection"))) c).writes
            ≡ responses w.writes
      raw_silent c =
          unfold close write responses in
          responses-append w.writes ((c, raw 8 (text "replaced by new connection")) ∷ [])
          ∙ append-nil _

  responses-post_all :
      (n : JsonRpcRequest) (cs : List Conn) (w : World)
      → responses (post_all env (notification n) cs w).writes ≡ responses w.writes
  responses-post_all n cs w =
      ap responses (writes-post_all env (notification n) cs w)
      ∙ responses-append w.writes _
      ∙ ap (◌++◌ (responses w.writes)) (responses-broadcast n cs)
      ∙ append-nil _

  complete_register-Answers :
      (now : Time) (conn : Conn) (req : JsonRpcRequest) (p : RegisterParams) (w : World)
      → Answers w conn req.id (complete_register env now conn req p w)
  unfolding complete_register write
  complete_register-Answers now conn req p w =
      if_split (Answers w conn req.id) (write env registered conn greeting).1
        (λ _. Answers-before _ _ _ conn req.id announced answered) (λ _. answered)
    where
      registered : World
      registered = record (close_replaced env w p.device_id conn) {
        registry =
            register (close_replaced env w p.device_id conn).registry p.device_id p.device_type
              p.public_key conn now;
      }

      greeting : Frame
      greeting = response (
          new_response req.id (
            registered_at true
              (env.unix_now (length (close_replaced env w p.device_id conn).writes))))

      welcomed : World
      welcomed = (write env registered conn greeting).0

      answered : AnswersBetween w.writes conn req.id welcomed.writes
      answered =
          Answers-after _ registered.writes _ conn req.id
            (responses-close_replaced w p.device_id conn)
            (respond-Answers (record { device_id = []; registered = true }) registered conn req _)

      announced :
          responses
            (post_all env
              (online_notice env p)
              (others env p.device_id welcomed.registry)
              welcomed).writes
          ≡ responses welcomed.writes
      announced = unfold online_notice in responses-post_all _ _ welcomed

  handle_register-Answers :
      (now : Time) (rt : Router) (w : World) (conn : Conn) (req : JsonRpcRequest)
      → Answers w conn req.id (handle_register env now rt w conn req)
  unfolding handle_register
  handle_register-Answers now rt w conn req =
      option_split (Answers w conn req.id) (env.unmarshal_register req.params)
        (λ _. reject-Answers rt w conn req.id _ _)
        λ p _.
          if_split (Answers w conn req.id) (str_eq p.device_id [])
            (λ _. reject-Answers rt w conn req.id _ _)
            λ _.
              if_split (Answers w conn req.id) (not (known_type env p.device_type))
                (λ _. reject-Answers rt w conn req.id _ _)
                λ _. complete_register-Answers now conn req p w

  handle_heartbeat-Answers :
      (now : Time) (rt : Router) (w : World) (conn : Conn) (req : JsonRpcRequest)
      → Answers w conn req.id (handle_heartbeat env now rt w conn req)
  unfolding handle_heartbeat
  handle_heartbeat-Answers now rt w conn req =
      if_split (Answers w conn req.id) (not rt.registered)
        (λ _. reject-Answers rt w conn req.id _ _) (λ _. respond-Answers rt _ conn req _)

  dispatch-Answers :
      (now : Time) (rt : Router) (w : World) (conn : Conn) (req : JsonRpcRequest)
      → Answers w conn req.id (dispatch env now rt w conn req)
  unfolding dispatch
  dispatch-Answers now rt w conn req =
      if_split (Answers w conn req.id) (str_eq req.method method_device_register)
        (λ _. handle_register-Answers now rt w conn req)
        λ _.
          if_split (Answers w conn req.id) (str_eq req.method method_device_list_online)
            (λ _. handle_list_online-Answers rt w conn req)
            λ _.
              if_split (Answers w conn req.id) (str_eq req.method method_message_send)
                (λ _. handle_message_send-Answers rt w conn req)
                λ _.
                  if_split (Answers w conn req.id) (str_eq req.method method_presence_heartbeat)
                    (λ _. handle_heartbeat-Answers now rt w conn req)
                    (λ _. reject-Answers rt w conn req.id _ _)

  -- The id of the request in a frame, if there is one.
  abbrev pub request_id : GoString → Option ℕ
  request_id bytes = id_of (env.unmarshal_request bytes)

  -- A text frame, whatever it holds and whether or not the device is registered, adds exactly one
  -- response to the writes: to the connection that sent it, with the id of its request.
  pub handle_text-Answers :
      (now : Time) (rt : Router) (w : World) (conn : Conn) (bytes : GoString)
      → Answers w conn (request_id bytes) (handle_text env now rt w conn bytes)
  unfolding handle_text id_of
  handle_text-Answers now rt w conn bytes = go (env.unmarshal_request bytes) refl
    where
      go :
          (parsed : Option JsonRpcRequest)
          → env.unmarshal_request bytes ≡ parsed
          → Answers w conn (request_id bytes) (handle_text env now rt w conn bytes)
      go none e = rw (e, handle_text, id_of) (reject-Answers rt w conn none _ _)
      go (some req) e =
          rw (e, handle_text, id_of)
            (if_split (Answers w conn req.id) (not (str_eq req.jsonrpc json_rpc_version))
              (λ _. reject-Answers rt w conn req.id _ _) (λ _. dispatch-Answers now rt w conn req))
