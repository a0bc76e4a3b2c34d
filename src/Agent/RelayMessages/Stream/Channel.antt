-- ===== src/Agent/RelayMessages/Stream/Channel.antt =====
-- The encrypted channel between the paired client and the agent, over runs of any length.
use mathlib.Core.Path.{subst}
use mathlib.Core.Option.{some-injective}
use pocketclaude.Base.{
  ℕ, suc, ◌<◌, arith, ◌+◌, ◌%◌, GoString, text, str_eq, ltb, length, ◌≡◌, refl, ap, sym, ◌∙◌,
  Option, some, List, [], ◌∷◌, ◌++◌, append-nil, append_assoc, if_split, option_split,
}
use pocketclaude.Agent.Bytes.{put_uint64}
use pocketclaude.Agent.Cipher.{
  Crypto, E2ECipher, Decrypted, plain, failed, uint64_mod, encrypt, decrypt, open_message, nonce_of,
}
use pocketclaude.Agent.Cipher.Messages.{after, encrypt-fst}
use pocketclaude.Agent.Api.Protocol.{JsonRpcResponse}
use pocketclaude.Agent.Api.{ApiIo, Services, Agent, handle_message}
use pocketclaude.Agent.RelayMessages.{
  Value, to_bytes, Sent, Gateway, send_back, relay_request, handle_relay_message,
}
use pocketclaude.Agent.RelayMessages.Stream.{
  Arrival, sent_to, sealed, sealed-append, sealed-recv_nonce, after-append, after-recv_nonce,
  handle_all, answer, send_back-sealed,
}

pub decrypted_split {ℓ} :
    {B : Type 0} (P : B → Type ℓ) (d : Decrypted) {x : B} {f : GoString → E2ECipher → B}
    → P x
    → ((p : GoString) (e : E2ECipher) → d ≡ plain p e → P (f p e))
    → P (elim d [ failed err ↦ x | plain p e ↦ f p e ])
decrypted_split P (failed err) hx hf = hx
decrypted_split P (plain p e) hx hf = hf p e refl

unfoldable cipher_of : E2ECipher → Decrypted → E2ECipher
cipher_of d (failed err) = d
cipher_of d (plain p e) = e

module _ (c : Crypto) where
  open_message-keeps :
      (e e' : E2ECipher) (n : ℕ) (ciphertext p : GoString)
      → open_message c e n ciphertext ≡ plain p e'
      → e' ≡ record e { recv_nonce = e'.recv_nonce }
  unfolding open_message cipher_of
  open_message-keeps e e' n ciphertext p =
      option_split (λ d. d ≡ plain p e' → e' ≡ record e { recv_nonce = e'.recv_nonce })
        (c.open_sealed e.key (nonce_of n) ciphertext) (λ _ h. absurd cc)
        (λ q _ h.
          let same : record e { recv_nonce = (n + 1) % uint64_mod } ≡ e' = ap (cipher_of e') h in
          sym same ∙ ap {A = E2ECipher} (λ x. record e { recv_nonce = x.recv_nonce }) same)

  decrypt-keeps :
      (e e' : E2ECipher) (bytes p : GoString)
      → decrypt c e bytes ≡ plain p e'
      → e' ≡ record e { recv_nonce = e'.recv_nonce }
  unfolding decrypt
  decrypt-keeps e e' bytes p =
      if_split (λ d. d ≡ plain p e' → e' ≡ record e { recv_nonce = e'.recv_nonce })
        (ltb (length bytes) 8) (λ _ h. absurd cc) (λ _ h. open_message-keeps e e' _ _ p h)

  -- The messages to the client: each plaintext sealed under the nonce of its counter, which counts on
  -- modulo 2 ^ 64, and with the counter before it.
  unfoldable pub written : GoString → GoString → ℕ → List GoString → List Sent
  written client key n [] = []
  written client key n (p ∷ ps) =
      sent_to client (put_uint64 n ++ c.seal key (nonce_of n) p)
      ∷ written client key ((n + 1) % uint64_mod) ps

  sealed-written :
      (client : GoString) (e : E2ECipher) (ps : List GoString)
      → e.send_nonce < uint64_mod
      → sealed c client e ps ≡ written client e.key e.send_nonce ps
  unfolding sealed written encrypt
  sealed-written client e [] h = refl
  sealed-written client e (p ∷ ps) h =
      ap (λ b. sent_to client b ∷ sealed c client (encrypt c e p).1 ps) (encrypt-fst c e p h)
      ∙ ap
          (◌∷◌ (sent_to client (put_uint64 e.send_nonce ++ c.seal e.key (nonce_of e.send_nonce) p)))
          (sealed-written client (encrypt c e p).1 ps (omega arith))

  after_lem :
      (e : E2ECipher) (ps : List GoString)
      → e.send_nonce < uint64_mod
      → after c e ps ≡ record e { send_nonce = (e.send_nonce + length ps) % uint64_mod }
  unfolding after encrypt
  after_lem e [] h = ap (λ n. record e { send_nonce = n }) (still e.send_nonce h)
    where
      still : (n : ℕ) → n < uint64_mod → n ≡ (n + 0) % uint64_mod
      still n h = omega arith
  after_lem e (p ∷ ps) h =
      after_lem (encrypt c e p).1 ps (omega arith)
      ∙ ap (λ n. record e { send_nonce = n }) (moved e.send_nonce (length ps))
    where
      moved : (n k : ℕ) → ((n + 1) % uint64_mod + k) % uint64_mod ≡ (n + suc k) % uint64_mod
      moved n k = omega arith

module _ {D P Info : Type 0} (c : Crypto) (io : ApiIo) (sv : Services D Info)
    (marshal : JsonRpcResponse Info → Option GoString) (paired_client_id : GoString) where
  -- The gateway went from `g`, where its cipher was `e`, to `g'` by sending some plaintexts.
  record Answered (e : E2ECipher) (g g' : Gateway D P) : Type 0 where
    plaintexts : List GoString
    recv_nonce : ℕ
    sent_are : g'.sent ≡ g.sent ++ sealed c paired_client_id e plaintexts
    cipher_is : g'.e2e_cipher ≡ some (record (after c e plaintexts) { recv_nonce = recv_nonce })

  unchanged-Answered : (e : E2ECipher) (g : Gateway D P) → g.e2e_cipher ≡ some e → Answered e g g
  unfolding sealed after
  unchanged-Answered e g has = record {
    plaintexts = [];
    recv_nonce = e.recv_nonce;
    sent_are = sym (append-nil g.sent);
    cipher_is = has;
  }

  joined-Answered :
      (e : E2ECipher) (g g' g'' : Gateway D P)
      → (first : Answered e g g')
      → Answered (record (after c e first.plaintexts) { recv_nonce = first.recv_nonce }) g' g''
      → Answered e g g''
  joined-Answered e g g' g'' x y =
      let e' : E2ECipher = after c e x.plaintexts in
      let received : E2ECipher = record e' { recv_nonce = x.recv_nonce } in
      record {
        plaintexts = x.plaintexts ++ y.plaintexts;
        recv_nonce = y.recv_nonce;
        sent_are =
            y.sent_are
            ∙ ap (λ s. s ++ sealed c paired_client_id received y.plaintexts) x.sent_are
            ∙ append_assoc g.sent _ _
            ∙ ap (g.sent ++◌) (
                ap (sealed c paired_client_id e x.plaintexts ++◌)
                  (sealed-recv_nonce c paired_client_id e' x.recv_nonce y.plaintexts)
                ∙ sym (sealed-append c paired_client_id e x.plaintexts y.plaintexts));
        cipher_is =
            y.cipher_is
            ∙ ap some (
                ap {A = E2ECipher} (λ k. record k { recv_nonce = y.recv_nonce })
                  (after-recv_nonce c e' x.recv_nonce y.plaintexts)
                ∙ ap {A = E2ECipher} (λ k. record k { recv_nonce = y.recv_nonce })
                    (sym (after-append c e x.plaintexts y.plaintexts)));
      }

  send_back-Answered :
      (e : E2ECipher) (r : ℕ) (a : Agent D P) (resp : Option (JsonRpcResponse Info))
      (g : Gateway D P)
      → Answered e g
          (send_back c io sv marshal paired_client_id (record e { recv_nonce = r }) (a, resp) g)
  send_back-Answered e r a resp g =
      let e' : E2ECipher = record e { recv_nonce = r } in
      let same = send_back-sealed c io sv marshal paired_client_id e' a resp g in
      record {
        plaintexts = answer marshal resp;
        recv_nonce = r;
        sent_are =
            ap (λ g. g.sent) same
            ∙ ap (g.sent ++◌) (sealed-recv_nonce c paired_client_id e r (answer marshal resp));
        cipher_is =
            ap (λ g. g.e2e_cipher) same ∙ ap some (after-recv_nonce c e r (answer marshal resp));
      }

  relay_request-Answered :
      (fresh : GoString) (now : ℕ) (e : E2ECipher) (payload : Value) (g : Gateway D P)
      → g.e2e_cipher ≡ some e
      → Answered e g (relay_request c io sv marshal paired_client_id fresh now e payload g)
  unfolding relay_request
  relay_request-Answered fresh now e payload g has =
      option_split (Answered e g) (to_bytes payload) (λ _. unchanged-Answered e g has)
        (λ bytes _.
          decrypted_split (Answered e g) (decrypt c e bytes) (unchanged-Answered e g has)
            (λ p e' opened.
              subst
                (λ k. Answered e g (
                  send_back c io sv marshal paired_client_id k
                    (handle_message io sv fresh now p g.agent) g))
                (sym (decrypt-keeps c e e' bytes p opened))
                (send_back-Answered e e'.recv_nonce (handle_message io sv fresh now p g.agent).0
                  (handle_message io sv fresh now p g.agent).1 g)))

  handle_relay_message-Answered :
      (m : Arrival) (e : E2ECipher) (g : Gateway D P)
      → g.e2e_cipher ≡ some e
      → Answered e g
          (handle_relay_message c io sv marshal paired_client_id m.fresh m.now m.message g)
  unfolding handle_relay_message
  handle_relay_message-Answered m e g has =
      let none_sent = unchanged-Answered e g has in
      if_split (Answered e g) (str_eq m.message.method (text "message.relay"))
        (λ _.
          option_split (Answered e g) m.message.params (λ _. none_sent)
            (λ params _.
              option_split (Answered e g) params (λ _. none_sent)
                (λ payload _.
                  option_split (Answered e g) g.e2e_cipher (λ _. none_sent)
                    (λ k held.
                      subst
                        (λ e. Answered e g (
                          relay_request c io sv marshal paired_client_id m.fresh m.now k payload g))
                        (some-injective _ _ (sym held ∙ has))
                        (relay_request-Answered m.fresh m.now k payload g held)))))
        (λ _. none_sent)

  handle_all-Answered :
      (ms : List Arrival) (e : E2ECipher) (g : Gateway D P)
      → g.e2e_cipher ≡ some e
      → Answered e g (handle_all c io sv marshal paired_client_id ms g)
  unfolding handle_all
  handle_all-Answered [] e g has = unchanged-Answered e g has
  handle_all-Answered (m ∷ ms) e g has =
      let first = handle_relay_message-Answered m e g has in
      joined-Answered e g _ _ first (handle_all-Answered ms _ _ first.cipher_is)

  -- There is a cipher, whose counter is of 64 bits. Whatever messages the relay delivers, forged or
  -- replayed ones included: what the agent sends is a list of plaintexts to the paired client, in
  -- order, the first sealed under the nonce of the counter and each other one under that of the next
  -- counter modulo 2 ^ 64, with its counter before it. The cipher afterwards has the same key, and its
  -- counter is further by their number.
  pub handle_all-sealed :
      (ms : List Arrival) (e : E2ECipher) (g : Gateway D P)
      → g.e2e_cipher ≡ some e
      → e.send_nonce < uint64_mod
      → let g' = handle_all c io sv marshal paired_client_id ms g in
        (plaintexts : List GoString) × (r : ℕ) × (g'.sent
          ≡ g.sent ++ written c paired_client_id e.key e.send_nonce plaintexts)
        × (g'.e2e_cipher
            ≡ some (record {
              key = e.key;
              send_nonce = (e.send_nonce + length plaintexts) % uint64_mod;
              recv_nonce = r;
            }))
  handle_all-sealed ms e g has bound =
      let run = handle_all-Answered ms e g has in
      (
        run.plaintexts,
        run.recv_nonce,
        run.sent_are ∙ ap (g.sent ++◌) (sealed-written c paired_client_id e run.plaintexts bound),
        run.cipher_is
            ∙ ap {A = E2ECipher} (λ k. some (record k { recv_nonce = run.recv_nonce }))
                (after_lem c e run.plaintexts bound),
      )
