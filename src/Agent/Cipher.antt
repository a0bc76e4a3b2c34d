-- ===== src/Agent/Cipher.antt =====
-- agent/internal/crypto/encrypt.go. The AEAD and the key exchange are parameters.
pub mod Messages
use pocketclaude.Base.{
  ℕ, ◌+◌, ◌-◌, ◌%◌, ◌^◌, GoString, text, Option, none, some, ◌++◌, ltb, if◌then◌else◌, length, take,
  drop, replicate, ◌≡◌, ◌≤◌,
}
use pocketclaude.Agent.Bytes.{put_uint64, uint64}

-- x25519: private and public key to a shared secret, the public key of a private one, and AES-256-GCM
-- under a key: seal and open under a nonce. Opening what was sealed gives the plaintext back.
pub record Crypto : Type 0 where
  pub x25519 : GoString → GoString → Option GoString
  pub public_key : GoString → GoString
  pub seal : GoString → GoString → GoString → GoString
  pub open_sealed : GoString → GoString → GoString → Option GoString
  pub agree : (a b : GoString) → x25519 a (public_key b) ≡ x25519 b (public_key a)
  pub open-seal :
      (key nonce plaintext : GoString)
      → open_sealed key nonce (seal key nonce plaintext) ≡ some plaintext

abbrev pub uint64_mod : ℕ
uint64_mod = 2 ^ 64

pub record E2ECipher : Type 0 where
  pub key : GoString
  pub send_nonce : ℕ
  pub recv_nonce : ℕ

pub data CipherError : Type 0 where
  too_short decryption_failed : CipherError

pub data Decrypted : Type 0 where
  plain : GoString → E2ECipher → Decrypted
  failed : CipherError → Decrypted

-- Four null bytes, then the counter.
unfoldable pub nonce_of : ℕ → GoString
nonce_of counter = replicate 4 0 ++ put_uint64 counter

module _ (c : Crypto) where
  -- A 32-byte secret always makes an AES-256 key and a GCM.
  unfoldable pub new_e2e_cipher : GoString → GoString → Option E2ECipher
  new_e2e_cipher local_priv_key remote_pub_key = elim (c.x25519 local_priv_key remote_pub_key) [
    | none ↦ none
    | some secret ↦ some (record { key = secret; send_nonce = 0; recv_nonce = 0 })
  ]

  unfoldable pub encrypt : E2ECipher → GoString → GoString × E2ECipher
  unfolding nonce_of
  encrypt e plaintext =
      let nonce = nonce_of e.send_nonce in
      let send_nonce = (e.send_nonce + 1) % uint64_mod in
      let ciphertext = c.seal e.key nonce plaintext in
      (
        put_uint64 ((send_nonce + uint64_mod - 1) % uint64_mod) ++ ciphertext,
        record e { send_nonce = send_nonce },
      )

  -- The part of Decrypt below the split into counter and ciphertext.
  unfoldable pub open_message : E2ECipher → ℕ → GoString → Decrypted
  unfolding nonce_of
  open_message e counter ciphertext = elim (c.open_sealed e.key (nonce_of counter) ciphertext) [
    | none ↦ failed decryption_failed
    | some plaintext ↦ plain plaintext (record e { recv_nonce = (counter + 1) % uint64_mod })
  ]

  unfoldable pub decrypt : E2ECipher → GoString → Decrypted
  unfolding open_message
  decrypt e bytes =
      if ltb (length bytes) 8
      then failed too_short
      else open_message e (uint64 (take 8 bytes)) (drop 8 bytes)
