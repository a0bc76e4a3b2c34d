-- ===== src/Agent/Bytes.antt =====
-- Big-endian numbers (encoding/binary), as the agent writes its nonce counters.
use pocketclaude.Base.{
  ℕ, zero, suc, ◌+◌, ◌*◌, ◌/◌, ◌%◌, ◌^◌, ◌<◌, GoString, ◌≡◌, refl, ◌∙◌, [], ◌∷◌, ◌++◌, arith,
  length, length-append,
}

-- The k lowest bytes of n, the highest first.
unfoldable pub put_be : ℕ → ℕ → GoString
put_be zero n = []
put_be (suc k) n = put_be k (n / 256) ++ (n % 256) ∷ []

unfoldable pub read_be : ℕ → GoString → ℕ
read_be acc [] = acc
read_be acc (b ∷ bytes) = read_be (acc * 256 + b) bytes

-- binary.BigEndian.PutUint64 and Uint64
unfoldable pub put_uint64 : ℕ → GoString
unfolding put_be
put_uint64 n = put_be 8 n

unfoldable pub uint64 : GoString → ℕ
unfolding read_be
uint64 bytes = read_be 0 bytes

pub length-put_be : (k n : ℕ) → length (put_be k n) ≡ k
unfolding put_be
length-put_be zero n = refl
length-put_be (suc k) n =
    omega (arith, length-append (put_be k (n / 256)) ((n % 256) ∷ []), length-put_be k (n / 256))

read_be-append :
    (acc : ℕ) (bytes : GoString) (b : ℕ)
    → read_be acc (bytes ++ b ∷ []) ≡ read_be acc bytes * 256 + b
unfolding read_be
read_be-append acc [] b = refl
read_be-append acc (c ∷ bytes) b = read_be-append (acc * 256 + c) bytes b

-- The largest number of k bytes is one less than this.
pub places : ℕ → ℕ
places zero = 1
places (suc k) = places k * 256

div_below : (k n : ℕ) → n < k * 256 → n / 256 < k
div_below k n h = omega arith

read_be-put_be : (k n : ℕ) → n < places k → read_be 0 (put_be k n) ≡ n
unfolding put_be read_be places
read_be-put_be zero n h = omega arith
read_be-put_be (suc k) n h =
    read_be-append 0 (put_be k (n / 256)) (n % 256)
    ∙ omega (arith, read_be-put_be k (n / 256) (div_below (places k) n h))

pub length-put_uint64 : (n : ℕ) → length (put_uint64 n) ≡ 8
unfolding put_uint64
length-put_uint64 n = length-put_be 8 n

-- A 64-bit counter is read back as it was written.
pub uint64-put_uint64 : (n : ℕ) → n < 2 ^ 64 → uint64 (put_uint64 n) ≡ n
unfolding put_uint64 uint64 places
uint64-put_uint64 n h = read_be-put_be 8 n (omega arith)
