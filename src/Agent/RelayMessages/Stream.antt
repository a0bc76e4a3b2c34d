-- ===== src/Agent/RelayMessages/Stream.antt =====
-- A whole run of the handler of messages from the relay, one message after the other.
pub mod Channel
use pocketclaude.Base.{
  ℕ, GoString, ◌≡◌, refl, ap, sym, ◌∙◌, Option, none, some, List, [], ◌∷◌, ◌++◌, append-nil,
  append_assoc, Option-cases, ◌⊎◌, inl, inr,
}
use pocketclaude.Agent.Cipher.{Crypto, E2ECipher, encrypt}
use pocketclaude.Agent.Cipher.Messages.{after}
use pocketclaude.Agent.Api.Protocol.{JsonRpcResponse}
use pocketclaude.Agent.Api.{ApiIo, Services, Agent}
use pocketclaude.Agent.RelayMessages.{RelayMessage, Sent, Gateway, send_back, handle_relay_message}

-- A message from the relay, with the UUID and the time that the API uses when it handles it.
pub record Arrival : Type 0 where
  pub fresh : GoString
  pub now : ℕ
  pub message : RelayMessage

abbrev pub sent_to : GoString → GoString → Sent
sent_to client payload = record { target_id = client; encrypted_payload = payload }

module _ (c : Crypto) (paired_client_id : GoString) where
  -- The messages to the paired client that carry some plaintexts, each under the next counter.
  unfoldable pub sealed : E2ECipher → List GoString → List Sent
  sealed e [] = []
  sealed e (p ∷ ps) =
      let (payload, e') = encrypt c e p in sent_to paired_client_id payload ∷ sealed e' ps

  pub sealed-append :
      (e : E2ECipher) (ps qs : List GoString)
      → sealed e (ps ++ qs) ≡ sealed e ps ++ sealed (after c e ps) qs
  unfolding sealed after
  sealed-append e [] qs = refl
  sealed-append e (p ∷ ps) qs =
      ap (◌∷◌ (sent_to paired_client_id (encrypt c e p).0)) (sealed-append (encrypt c e p).1 ps qs)

  -- What was received has no part in what is sent.
  pub sealed-recv_nonce :
      (e : E2ECipher) (r : ℕ) (ps : List GoString)
      → sealed (record e { recv_nonce = r }) ps ≡ sealed e ps
  unfolding sealed encrypt
  sealed-recv_nonce e r [] = refl
  sealed-recv_nonce e r (p ∷ ps) =
      ap (◌∷◌ (sent_to paired_client_id (encrypt c e p).0))
        (sealed-recv_nonce (encrypt c e p).1 r ps)

pub after-append :
    (c : Crypto) (e : E2ECipher) (ps qs : List GoString)
    → after c e (ps ++ qs) ≡ after c (after c e ps) qs
unfolding after
after-append c e [] qs = refl
after-append c e (p ∷ ps) qs = after-append c (encrypt c e p).1 ps qs

pub after-recv_nonce :
    (c : Crypto) (e : E2ECipher) (r : ℕ) (ps : List GoString)
    → after c (record e { recv_nonce = r }) ps ≡ record (after c e ps) { recv_nonce = r }
unfolding after encrypt
after-recv_nonce c e r [] = refl
after-recv_nonce c e r (p ∷ ps) = after-recv_nonce c (encrypt c e p).1 r ps

-- The text of a response, where there is one.
unfoldable pub answer :
    {Info : Type 0}
    → (JsonRpcResponse Info → Option GoString)
    → Option (JsonRpcResponse Info)
    → List GoString
answer marshal none = []
answer marshal (some resp) = elim (marshal resp) [ none ↦ [] | some resp_json ↦ resp_json ∷ [] ]

module _ {D P Info : Type 0} (c : Crypto) (io : ApiIo) (sv : Services D Info)
    (marshal : JsonRpcResponse Info → Option GoString) (paired_client_id : GoString) where
  unfoldable pub handle_all : List Arrival → Gateway D P → Gateway D P
  handle_all [] g = g
  handle_all (m ∷ ms) g =
      handle_all ms
        (handle_relay_message c io sv marshal paired_client_id m.fresh m.now m.message g)

  silent :
      (e : E2ECipher) (a : Agent D P) (g : Gateway D P)
      → record { agent = a; e2e_cipher = some e; sent = g.sent }
        ≡ record g { agent = a; e2e_cipher = some e; sent = g.sent ++ [] }
  silent e a g =
      ap (λ s. record g { agent = a; e2e_cipher = some e; sent = s }) (sym (append-nil g.sent))

  -- What is sent back is what the answer's plaintexts, at most one, are sealed to.
  pub send_back-sealed :
      (e : E2ECipher) (a : Agent D P) (r : Option (JsonRpcResponse Info)) (g : Gateway D P)
      → send_back c io sv marshal paired_client_id e (a, r) g ≡ record {
        agent = a;
        e2e_cipher = some (after c e (answer marshal r));
        sent = g.sent ++ sealed c paired_client_id e (answer marshal r);
      }
  unfolding send_back answer sealed after
  send_back-sealed e a none g = silent e a g
  send_back-sealed e a (some resp) g = elim (Option-cases (marshal resp)) [
    | inl fails ↦ rw (fails, send_back, answer) (silent e a g)
    | inr (resp_json, eq) ↦ rw (eq, send_back, answer) refl
  ]
