-- ===== src/Agent/Commands/Pairings.antt =====
-- A pairing, and the daemon that is started after it.
use pocketclaude.Base.{
  GoString, str_eq, str_eq_iff, ◌≡◌, ◌≢◌, refl, sym, ap, ◌∙◌, Bool, true, false, not, Option, none,
  some, [], length, arith, if◌then◌else◌, ◌==◌, Option-cases, Bool-cases, if_split, option_split,
  inl, inr,
}
use mathlib.Core.Option.{some-injective}
use mathlib.Core.Path.{subst}
use pocketclaude.Agent.Cipher.{Crypto, E2ECipher, new_e2e_cipher}
use pocketclaude.Agent.Keys.{
  KeyPair, Config, ConfigIo, to_array, load_config, load_key_pair, save_paired_client,
}
use pocketclaude.Agent.Keys.Storage.{IsReliable, to_array-full, load-save_paired_client}
use pocketclaude.Agent.Pairing.{
  PairIo, PairingResult, PairingResponse, PairEvent, attempt, server_failed, timed_out, pair_with,
  handle_pair, await_pairing, pairing_data, run_pairing_flow, is_paired, parse_client_pub_key,
}
use pocketclaude.Agent.Commands.{Status, finished, keep_pairing, pair_cmd, start_cipher, start_cmd}

module _ {D : Type 0} (c : Crypto) (io : ConfigIo D) (net : PairIo) where
  -- What a pairing that succeeds has made.
  abbrev pub IsPairing : KeyPair → PairingResult → Type 0
  IsPairing kp r =
      (length r.client_pub_key ≡ 32)
      × (new_e2e_cipher c kp.x25519_private_key r.client_pub_key ≡ some r.cipher)

  pair_with-IsPairing :
      (kp : KeyPair) (resp : PairingResponse) (confirmed : Bool) (r : PairingResult)
      → pair_with c io net kp resp confirmed ≡ some r
      → IsPairing kp r
  unfolding pair_with
  pair_with-IsPairing kp resp confirmed r =
      option_split Made (io.decode resp.x25519_pub_key) (λ _ e. cc)
        (λ bytes _.
          if_split Made (not (length bytes == 32)) (λ _ e. cc)
            (λ sized.
              option_split Made (new_e2e_cipher c kp.x25519_private_key (to_array 32 bytes))
                (λ _ e. cc)
                (λ cipher made.
                  if_split Made confirmed
                    (λ _ e. made_of bytes cipher (size bytes sized) made (some-injective _ _ e))
                    (λ _ e. cc))))
    where
      Made : Option PairingResult → Type 0
      Made o = o ≡ some r → IsPairing kp r

      size : (bytes : GoString) → not (length bytes == 32) ≡ false → length bytes ≡ 32
      size bytes h = ground (arith, h)

      made_of :
          (bytes : GoString) (cipher : E2ECipher)
          → length bytes ≡ 32
          → new_e2e_cipher c kp.x25519_private_key (to_array 32 bytes) ≡ some cipher
          → record {
            client_id = resp.client_id;
            client_pub_key = to_array 32 bytes;
            cipher = cipher;
          }
            ≡ r
          → IsPairing kp r
      made_of bytes cipher sized made same =
          subst (IsPairing kp) same (ap length (to_array-full 32 bytes sized) ∙ sized, made)

  await_pairing-IsPairing :
      (kp : KeyPair) (first : PairEvent) (r : PairingResult)
      → await_pairing c io net kp first ≡ some r
      → IsPairing kp r
  unfolding await_pairing handle_pair
  await_pairing-IsPairing kp (attempt a) r =
      if_split (λ o. o ≡ some r → IsPairing kp r) (not a.upgraded) (λ _ e. cc)
        (λ _.
          option_split (λ o. o ≡ some r → IsPairing kp r) a.message (λ _ e. cc)
            (λ msg _.
              option_split (λ o. o ≡ some r → IsPairing kp r) (net.unmarshal msg) (λ _ e. cc)
                (λ resp _. pair_with-IsPairing kp resp a.confirmed r)))
  await_pairing-IsPairing kp server_failed r = λ e. cc
  await_pairing-IsPairing kp timed_out r = λ e. cc

  run_pairing_flow-IsPairing :
      (kp : KeyPair) (cfg : Config) (first : PairEvent) (r : PairingResult)
      → run_pairing_flow c io net kp cfg first ≡ some r
      → IsPairing kp r
  unfolding run_pairing_flow
  run_pairing_flow-IsPairing kp cfg first r =
      option_split (λ o. o ≡ some r → IsPairing kp r) net.free_port (λ _ e. cc)
        (λ port _.
          option_split (λ o. o ≡ some r → IsPairing kp r)
            (net.marshal (pairing_data c io net kp cfg port)) (λ _ e. cc)
            (λ qr_json _.
              if_split (λ o. o ≡ some r → IsPairing kp r) (net.qr_code qr_json)
                (λ _. await_pairing-IsPairing kp first r) (λ _ e. cc)))

  start_cipher-IsPairing :
      (cfg : Config) (kp : KeyPair) (r : PairingResult)
      → IsReliable io
      → io.decode [] ≡ some []
      → IsPairing kp r
      → cfg.paired_client_pub_key ≡ io.encode r.client_pub_key
      → start_cipher c io net cfg kp ≡ some r.cipher
  unfolding start_cipher parse_client_pub_key
  start_cipher-IsPairing cfg kp r sure empty (sized, made) same =
      rw (same, start_cipher)
        (if_split (λ o. o ≡ some r.cipher) (str_eq (io.encode r.client_pub_key) [])
          (λ gone. absurd (kept ((str_eq_iff _ _).0 gone)))
          (λ _. rw (sure.decode-encode r.client_pub_key, parsed r.client_pub_key sized) made))
    where
      parsed :
          (b : GoString)
          → length b ≡ 32
          → (if not (length b == 32) then none else some (to_array 32 b)) ≡ some b
      parsed b h =
          if_split (λ o. o ≡ some b) (not (length b == 32)) (λ e. absurd (ground (arith, h, e)))
            (λ _. ap some (to_array-full 32 b h))

      kept : io.encode r.client_pub_key ≢ []
      kept e = absurd (
          omega (
            arith,
            sized,
            ap length (
                some-injective _ _
                  (sym empty ∙ ap io.decode (sym e) ∙ sure.decode-encode r.client_pub_key)),
          ))

  pair_cmd-finished :
      (first : PairEvent) (disk : D)
      → (pair_cmd c io net first disk).1 ≡ finished
      → (cfg : Config) × (kp : KeyPair) × (r : PairingResult) × (load_config io disk ≡ some cfg)
        × (load_key_pair io cfg ≡ some kp)
        × (run_pairing_flow c io net kp cfg first ≡ some r)
        × (pair_cmd c io net first disk ≡ keep_pairing c io net disk r)
  unfolding pair_cmd
  pair_cmd-finished first disk e = elim (Option-cases (load_config io disk)) [
    | inl bad ↦ cc (rw (bad, pair_cmd) at e)
    | inr (cfg, loaded) ↦ elim (Option-cases (load_key_pair io cfg)) [
      | inl bad ↦ cc (rw (loaded, bad, pair_cmd) at e)
      | inr (kp, keys) ↦ elim (Bool-cases (is_paired c io net disk)) [
        | inl bad ↦ cc (rw (loaded, keys, bad, pair_cmd) at e)
        | inr free ↦ elim (Option-cases (run_pairing_flow c io net kp cfg first)) [
          | inl bad ↦ cc (rw (loaded, keys, free, bad, pair_cmd) at e)
          | inr (r, ran) ↦
              (cfg, kp, r, loaded, keys, ran, rw (loaded, keys, free, ran, pair_cmd) refl)
        ]
      ]
    ]
  ]

  keep_pairing-finished :
      (disk : D) (r : PairingResult)
      → (keep_pairing c io net disk r).1 ≡ finished
      → let saved = save_paired_client io disk r.client_id (io.encode r.client_pub_key) in
        (saved.1 ≡ true) × ((keep_pairing c io net disk r).0 ≡ saved.0)
  unfolding keep_pairing
  keep_pairing-finished disk r e = ground (arith, e)

  start_cmd-loaded :
      (disk : D) (cfg : Config) (kp : KeyPair) (cipher : E2ECipher)
      → load_config io disk ≡ some cfg
      → load_key_pair io cfg ≡ some kp
      → start_cipher c io net cfg kp ≡ some cipher
      → start_cmd c io net disk
        ≡ some (record { config = cfg; key_pair = kp; e2e_cipher = some cipher })
  unfolding start_cmd
  start_cmd-loaded disk cfg kp cipher loaded keys made = rw (loaded, keys, made, start_cmd) refl

  -- The coding and the disk are reliable, and no bytes are decoded from the empty text. The command
  -- `pair` succeeds: the daemon that `start` starts after it has the configuration and the keys from
  -- before, with the id and the key of the client, and the cipher that the pairing made.
  pub start_cmd-pair_cmd :
      (first : PairEvent) (disk : D)
      → IsReliable io
      → io.decode [] ≡ some []
      → (pair_cmd c io net first disk).1 ≡ finished
      → (cfg : Config) × (kp : KeyPair) × (r : PairingResult) × (load_config io disk ≡ some cfg)
        × (load_key_pair io cfg ≡ some kp)
        × (run_pairing_flow c io net kp cfg first ≡ some r)
        × (start_cmd c io net (pair_cmd c io net first disk).0
            ≡ some (record {
              config = record cfg {
                paired_client_id = r.client_id;
                paired_client_pub_key = io.encode r.client_pub_key;
              };
              key_pair = kp;
              e2e_cipher = some r.cipher;
            }))
  unfolding load_key_pair
  start_cmd-pair_cmd first disk sure empty done =
      let (cfg, kp, r, loaded, keys, ran, kept) = pair_cmd-finished first disk done in
      let (saved, same) =
        keep_pairing-finished disk r (ap (λ (o : D × Status). o.1) (sym kept) ∙ done) in
      let (cfg', loaded', again) =
        load-save_paired_client io sure disk r.client_id (io.encode r.client_pub_key) saved in
      (
        cfg,
        kp,
        r,
        loaded,
        keys,
        ran,
        start_cmd-loaded _ _ kp r.cipher
            (ap (load_config io) (ap (λ (o : D × Status). o.0) kept ∙ same)
              ∙ again
              ∙ ap (λ k. some (with_client k r)) (some-injective _ _ (sym loaded' ∙ loaded)))
            keys
            (start_cipher-IsPairing (with_client cfg r) kp r sure empty
              (run_pairing_flow-IsPairing kp cfg first r ran) refl),
      )
    where
      with_client : Config → PairingResult → Config
      with_client k r = record k {
        paired_client_id = r.client_id;
        paired_client_pub_key = io.encode r.client_pub_key;
      }
