-- ===== src/Agent/Cipher/Messages.antt =====
-- What Encrypt and Decrypt promise each other, and what the counters do and do not protect.
use pocketclaude.Base.{
  ℕ, ◌+◌, ◌-◌, ◌%◌, ◌<◌, GoString, ◌≡◌, ◌≢◌, refl, ap, sym, ◌∙◌, some, List, [], ◌∷◌, ◌++◌, arith,
  length, drop, take-append, drop-append, length-append,
}
use pocketclaude.Agent.Bytes.{put_uint64, uint64, length-put_uint64, uint64-put_uint64}
use pocketclaude.Agent.Cipher.{
  Crypto, E2ECipher, plain, nonce_of, new_e2e_cipher, encrypt, decrypt, open_message, uint64_mod,
}

counter_back : (s : ℕ) → s < uint64_mod → ((s + 1) % uint64_mod + uint64_mod - 1) % uint64_mod ≡ s
counter_back s h = omega arith

module _ (c : Crypto) where
  -- The counter that stands before the ciphertext is the one that it was sealed under.
  pub encrypt-fst :
      (e : E2ECipher) (plaintext : GoString)
      → e.send_nonce < uint64_mod
      → (encrypt c e plaintext).0
        ≡ put_uint64 e.send_nonce ++ c.seal e.key (nonce_of e.send_nonce) plaintext
  unfolding encrypt
  encrypt-fst e plaintext h =
      ap (λ n. put_uint64 n ++ c.seal e.key (nonce_of e.send_nonce) plaintext)
        (counter_back e.send_nonce h)

  open_message-seal :
      (d : E2ECipher) (n : ℕ) (plaintext : GoString)
      → open_message c d n (c.seal d.key (nonce_of n) plaintext)
        ≡ plain plaintext (record d { recv_nonce = (n + 1) % uint64_mod })
  unfolding open_message
  open_message-seal d n plaintext = rw (c.open-seal d.key (nonce_of n) plaintext, open_message)

  decrypt-append :
      (d : E2ECipher) (header ciphertext : GoString)
      → length header ≡ 8
      → decrypt c d (header ++ ciphertext) ≡ open_message c d (uint64 header) ciphertext
  unfolding decrypt
  decrypt-append d header ciphertext h =
      rw (take-append 8 header ciphertext h, drop-append 8 header ciphertext h)
        (ground (arith, length-append header ciphertext))

  decrypt-sealed :
      (d : E2ECipher) (n : ℕ) (plaintext : GoString)
      → n < uint64_mod
      → decrypt c d (put_uint64 n ++ c.seal d.key (nonce_of n) plaintext)
        ≡ plain plaintext (record d { recv_nonce = (n + 1) % uint64_mod })
  decrypt-sealed d n plaintext h =
      decrypt-append d (put_uint64 n) _ (length-put_uint64 n)
      ∙ ap (λ k. open_message c d k (c.seal d.key (nonce_of n) plaintext)) (uint64-put_uint64 n h)
      ∙ open_message-seal d n plaintext

  -- What one end encrypts, an end with the same key decrypts to the plaintext, whatever it has
  -- received before; its receive counter is then one more than the counter of the message.
  pub decrypt-encrypt :
      (e d : E2ECipher) (plaintext : GoString)
      → e.key ≡ d.key
      → e.send_nonce < uint64_mod
      → decrypt c d (encrypt c e plaintext).0
        ≡ plain plaintext (record d { recv_nonce = (e.send_nonce + 1) % uint64_mod })
  decrypt-encrypt e d plaintext same h =
      ap (decrypt c d) (
        encrypt-fst e plaintext h
        ∙ ap (λ k. put_uint64 e.send_nonce ++ c.seal k (nonce_of e.send_nonce) plaintext) same)
      ∙ decrypt-sealed d e.send_nonce plaintext h

  -- The cipher after it has encrypted some messages.
  unfoldable pub after : E2ECipher → List GoString → E2ECipher
  after e [] = e
  after e (p ∷ ps) = after (encrypt c e p).1 ps

  send_nonce-after :
      (e : E2ECipher) (ps : List GoString)
      → e.send_nonce < uint64_mod
      → (after e ps).send_nonce ≡ (e.send_nonce + length ps) % uint64_mod
  unfolding after encrypt
  send_nonce-after e [] h = omega arith
  send_nonce-after e (p ∷ ps) h = omega (arith, send_nonce-after (encrypt c e p).1 ps (omega arith))

  nonce_of_injective : (m n : ℕ) → m < uint64_mod → n < uint64_mod → nonce_of m ≡ nonce_of n → m ≡ n
  unfolding nonce_of
  nonce_of_injective m n hm hn e =
      sym (uint64-put_uint64 m hm) ∙ ap (λ s. uint64 (drop 4 s)) e ∙ uint64-put_uint64 n hn

  pub after-key : (e : E2ECipher) (ps : List GoString) → (after e ps).key ≡ e.key
  unfolding after encrypt
  after-key e [] = refl
  after-key e (p ∷ ps) = after-key (encrypt c e p).1 ps

  -- The message that a cipher makes as its n-th, from 0 on.
  encrypt-after :
      (e : E2ECipher) (ps : List GoString) (p : GoString)
      → e.send_nonce ≡ 0
      → length ps < uint64_mod
      → (encrypt c (after e ps) p).0
        ≡ put_uint64 (length ps) ++ c.seal e.key (nonce_of (length ps)) p
  encrypt-after e ps p start bound =
      let at : (after e ps).send_nonce ≡ length ps =
        omega (arith, send_nonce-after e ps (omega arith)) in
      encrypt-fst (after e ps) p (omega arith)
      ∙ ap (λ n. put_uint64 n ++ c.seal (after e ps).key (nonce_of n) p) at
      ∙ ap (λ k. put_uint64 (length ps) ++ c.seal k (nonce_of (length ps)) p) (after-key e ps)

  -- A new cipher does not seal two of its first 2 ^ 64 messages under one nonce: after `ps` it
  -- seals under the nonce of the number of messages before, which stands before the ciphertext, and
  -- after `qs` under another one.
  pub nonces_differ :
      (e : E2ECipher) (ps qs : List GoString) (p q : GoString)
      → e.send_nonce ≡ 0
      → length ps < length qs
      → length qs < uint64_mod
      → ((encrypt c (after e ps) p).0
          ≡ put_uint64 (length ps) ++ c.seal e.key (nonce_of (length ps)) p)
        × ((encrypt c (after e qs) q).0
            ≡ put_uint64 (length qs) ++ c.seal e.key (nonce_of (length qs)) q)
        × (nonce_of (length ps) ≢ nonce_of (length qs))
  nonces_differ e ps qs p q start more bound = (
    encrypt-after e ps p start (omega arith),
    encrypt-after e qs q start bound,
    λ same.
        absurd (omega (arith, nonce_of_injective (length ps) (length qs) (omega arith) bound same)),
  )

  -- The two ends of one pairing derive the same key and both count from zero: their first messages,
  -- in opposite directions, are sealed under one key and one nonce.
  nonce_reused :
      (a b : GoString) (ea eb : E2ECipher)
      → new_e2e_cipher c a (c.public_key b) ≡ some ea
      → new_e2e_cipher c b (c.public_key a) ≡ some eb
      → (ea.key ≡ eb.key) × (nonce_of ea.send_nonce ≡ nonce_of eb.send_nonce)
  unfolding new_e2e_cipher
  nonce_reused a b ea eb ha hb = ground (arith, c.agree a b)

  -- A message that was decrypted is decrypted again, to the same plaintext: the receive counter is
  -- kept and never compared, so a replay is not noticed.
  replay_accepted :
      (d d' : E2ECipher) (bytes plaintext : GoString)
      → decrypt c d bytes ≡ plain plaintext d'
      → decrypt c d' bytes ≡ plain plaintext d'
  unfolding decrypt open_message
  replay_accepted d d' bytes plaintext h = ground arith
