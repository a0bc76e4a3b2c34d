-- ===== src/Agent/Keys/Storage.antt =====
-- What is read back of a configuration that was written.
use pocketclaude.Base.{
  ℕ, zero, suc, GoString, text, Bool-cases, ◌≡◌, refl, sym, ap, ◌∙◌, Bool, true, some, [], ◌∷◌,
  ◌++◌, length, take, replicate, arith, Option-cases, inl, inr,
}
use pocketclaude.Agent.Keys.{
  KeyPair, Config, ConfigIo, to_array, config_file, new_config, write_config, save_config,
  load_config, load_key_pair, save_config_file, save_paired_client,
}

-- What the documentation of os, encoding/json and encoding/base64 promises: a file that was written is
-- read as it was written, and what was coded is decoded to what it was.
pub record IsReliable {D : Type 0} (io : ConfigIo D) : Type 0 where
  pub written :
      (disk : D) (path b : GoString)
      → (io.write_file disk path b).1 ≡ true
      → io.read_file (io.write_file disk path b).0 path ≡ some b
  pub unmarshal-marshal :
      (cfg : Config) (b : GoString) → io.marshal cfg ≡ some b → io.unmarshal b ≡ some cfg
  pub decode-encode : (b : GoString) → io.decode (io.encode b) ≡ some b

-- The X25519 keys are arrays of 32 bytes.
pub record IsSized (kp : KeyPair) : Type 0 where
  pub private_size : length kp.x25519_private_key ≡ 32
  pub public_size : length kp.x25519_public_key ≡ 32

pub to_array-full : (n : ℕ) (b : GoString) → length b ≡ n → to_array n b ≡ b
to_array-full zero [] e = refl
to_array-full zero (x ∷ b) e = absurd (omega (arith, e))
to_array-full (suc n) [] e = absurd (omega (arith, e))
to_array-full (suc n) (x ∷ b) e =
    ap (λ k. x ∷ (take n b ++ replicate k 0)) (omega arith)
    ∙ ap (λ l. x ∷ l) (to_array-full n b (omega (arith, e)))

module _ {D : Type 0} (io : ConfigIo D) (sure : IsReliable io) where
  load_config-written :
      (disk : D) (home b : GoString) (cfg : Config)
      → io.user_home_dir ≡ some home
      → io.read_file disk (config_file io (io.join home (text ".pocketclaude"))) ≡ some b
      → io.unmarshal b ≡ some cfg
      → load_config io disk ≡ some cfg
  unfolding load_config
  load_config-written disk home b cfg found read e = rw (found, load_config, read) e

  load_config-write_config :
      (disk : D) (home : GoString) (cfg : Config)
      → io.user_home_dir ≡ some home
      → let dir = io.join home (text ".pocketclaude") in
        (write_config io disk dir cfg).1 ≡ true
        → load_config io (write_config io disk dir cfg).0 ≡ some cfg
  unfolding write_config
  load_config-write_config disk home cfg found fine = elim (Option-cases (io.marshal cfg)) [
    | inl e ↦ cc (rw (e, write_config) at fine)
    | inr (b, e) ↦
        rw (e, write_config)
          (load_config-written _ home b cfg found
            (sure.written disk _ b (rw (e, write_config) at fine)) (sure.unmarshal-marshal cfg b e))
  ]

  load_key_pair-new_config :
      (kp : KeyPair) (device_id relay_url : GoString) (api_port : ℕ)
      → IsSized kp
      → load_key_pair io (new_config io kp device_id relay_url api_port) ≡ some kp
  unfolding load_key_pair
  load_key_pair-new_config kp device_id relay_url api_port sized =
      rw
        (
          sure.decode-encode kp.ed25519_private_key,
          sure.decode-encode kp.ed25519_public_key,
          sure.decode-encode kp.x25519_private_key,
          sure.decode-encode kp.x25519_public_key,
          load_key_pair,
        )
        (λ i. some (record {
          ed25519_private_key = kp.ed25519_private_key;
          ed25519_public_key = kp.ed25519_public_key;
          x25519_private_key = to_array-full 32 kp.x25519_private_key sized.private_size i;
          x25519_public_key = to_array-full 32 kp.x25519_public_key sized.public_size i;
        }))

  save_config-fine :
      (disk : D) (kp : KeyPair) (device_id relay_url : GoString) (api_port : ℕ)
      → (save_config io disk kp device_id relay_url api_port).1 ≡ true
      → (home : GoString) × (io.user_home_dir ≡ some home)
        × (save_config io disk kp device_id relay_url api_port
            ≡ write_config io
                (io.mkdir_all disk (io.join home (text ".pocketclaude"))).0
                (io.join home (text ".pocketclaude"))
                (new_config io kp device_id relay_url api_port))
  unfolding save_config
  save_config-fine disk kp device_id relay_url api_port fine =
      elim (Option-cases io.user_home_dir) [
        | inl e ↦ cc (rw (e, save_config) at fine)
        | inr (home, e) ↦
            elim (Bool-cases (io.mkdir_all disk (io.join home (text ".pocketclaude"))).1) [
              | inl ok ↦ (home, e, rw (e, save_config, ok) refl)
              | inr bad ↦ cc (rw (e, save_config, bad) at fine)
            ]
      ]

  save_paired_client-fine :
      (disk : D) (client_id key : GoString)
      → (save_paired_client io disk client_id key).1 ≡ true
      → (cfg : Config) × (home : GoString) × (load_config io disk ≡ some cfg)
        × (io.user_home_dir ≡ some home)
        × (save_paired_client io disk client_id key
            ≡ write_config io disk
                (io.join home (text ".pocketclaude"))
                (record cfg { paired_client_id = client_id; paired_client_pub_key = key }))
  unfolding save_paired_client save_config_file
  save_paired_client-fine disk client_id key fine = elim (Option-cases (load_config io disk)) [
    | inl e ↦ cc (rw (e, save_paired_client) at fine)
    | inr (cfg, e) ↦ elim (Option-cases io.user_home_dir) [
      | inl none_ ↦ cc (rw (e, save_paired_client, none_) at fine)
      | inr (home, found) ↦
          (cfg, home, e, found, rw (e, save_paired_client) (rw (found, save_config_file) refl))
    ]
  ]

  -- A configuration was saved without an error: it is loaded with the device, the relay and the port,
  -- and unpaired, and the key pair that is made of it is the one that was saved.
  pub load-save_config :
      (disk : D) (kp : KeyPair) (device_id relay_url : GoString) (api_port : ℕ)
      → IsSized kp
      → (save_config io disk kp device_id relay_url api_port).1 ≡ true
      → let cfg = new_config io kp device_id relay_url api_port in
        (load_config io (save_config io disk kp device_id relay_url api_port).0 ≡ some cfg)
        × (load_key_pair io cfg ≡ some kp)
  load-save_config disk kp device_id relay_url api_port sized fine =
      let (home, found, saved) = save_config-fine disk kp device_id relay_url api_port fine in
      (
        ap (λ (r : D × Bool). load_config io r.0) saved
            ∙ load_config-write_config _ home _ found
                (ap (λ (r : D × Bool). r.1) (sym saved) ∙ fine),
        load_key_pair-new_config kp device_id relay_url api_port sized,
      )

  -- The client was saved without an error: the configuration that is loaded then is the one that was
  -- there, with the client's id and key.
  pub load-save_paired_client :
      (disk : D) (client_id key : GoString)
      → (save_paired_client io disk client_id key).1 ≡ true
      → (cfg : Config) × (load_config io disk ≡ some cfg)
        × (load_config io (save_paired_client io disk client_id key).0
            ≡ some (record cfg { paired_client_id = client_id; paired_client_pub_key = key }))
  load-save_paired_client disk client_id key fine =
      let (cfg, home, loaded, found, saved) = save_paired_client-fine disk client_id key fine in
      (
        cfg,
        loaded,
        ap (λ (r : D × Bool). load_config io r.0) saved
            ∙ load_config-write_config disk home _ found
                (ap (λ (r : D × Bool). r.1) (sym saved) ∙ fine),
      )
