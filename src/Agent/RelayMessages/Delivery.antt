-- ===== src/Agent/RelayMessages/Delivery.antt =====
-- What becomes of a client's message.
use pocketclaude.Base.{
  ℕ, GoString, text, str_eq, str_eq_iff, ◌≡◌, ◌≢◌, ap, sym, ◌∙◌, true, false, Option, [], arith,
}
use pocketclaude.Agent.Cipher.{Crypto}
use pocketclaude.Agent.Api.Protocol.{JsonRpcResponse}
use pocketclaude.Agent.Api.{ApiIo, Services}
use pocketclaude.Agent.RelayMessages.{RelayMessage, Gateway, handle_relay_message}
use pocketclaude.Relay.Protocol.{SendParams, JsonRpcRequest as RelayRequest, new_notification}
use pocketclaude.Relay.Net.{Env, Frame, response, notification, raw}
use pocketclaude.Relay.Router.{forward_notice}

unfoldable method_of : Frame → GoString
method_of (response r) = []
method_of (notification n) = n.method
method_of (raw kind bytes) = []

module _ {D P Info : Type 0} (c : Crypto) (io : ApiIo) (sv : Services D Info)
    (marshal : JsonRpcResponse Info → Option GoString) (paired_client_id : GoString) where
  handle_relay_message-other :
      (fresh : GoString) (now : ℕ) (msg : RelayMessage) (g : Gateway D P)
      → msg.method ≢ text "message.relay"
      → handle_relay_message c io sv marshal paired_client_id fresh now msg g ≡ g
  unfolding handle_relay_message
  handle_relay_message-other fresh now msg g ne =
      ground (arith, str_eq_iff msg.method (text "message.relay"))

  -- The relay hands a message on as a notification whose method this handler does not know: whatever is
  -- forwarded to the agent, it changes nothing and is not answered.
  forwarded_ignored :
      (env : Env) (source : GoString) (p : SendParams) (n : RelayRequest) (fresh : GoString)
      (now : ℕ) (msg : RelayMessage) (g : Gateway D P)
      → forward_notice env source p ≡ notification n
      → msg.method ≡ n.method
      → handle_relay_message c io sv marshal paired_client_id fresh now msg g ≡ g
  unfolding forward_notice method_of str_eq new_notification
  forwarded_ignored env source p n fresh now msg g sent same =
      handle_relay_message-other fresh now msg g (λ relay.
        let other : false ≡ true =
          ap (λ s. str_eq s (text "message.relay")) (ap method_of sent ∙ sym same ∙ relay) in
        cc)
