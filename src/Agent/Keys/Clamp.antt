-- ===== src/Agent/Keys/Clamp.antt =====
-- The clamped private key as a number.
use pocketclaude.Base.{
  ℕ, zero, suc, ◌+◌, ◌*◌, ◌%◌, ◌^◌, ◌<◌, ◌≤◌, GoString, ◌≡◌, refl, Bool, true, ◌&&◌, [], ◌∷◌,
  length, All, arith, ◌==◌, ltb, leb, false, if◌then◌else◌, Bool-cases, inl, inr, ==_iff,
}
use pocketclaude.Agent.Keys.{update, low_byte, high_byte, clamp}

-- The number of a little-endian sequence of bytes.
unfoldable pub little_endian : GoString → ℕ
little_endian [] = 0
little_endian (b ∷ bs) = b + 256 * little_endian bs

-- The multiples of `step` from `lo` on and below `hi`.
record Window : Type 0 where
  pub lo : ℕ
  pub hi : ℕ
  pub step : ℕ

abbrev IsIn : Window → ℕ → Type 0
IsIn w y = (w.lo ≤ y) × (y < w.hi) × (y % w.step ≡ 0)

-- Whether a function takes the first `n` numbers into a window.
unfoldable stays_in : Window → (ℕ → ℕ) → ℕ → Bool
stays_in w f zero = true
stays_in w f (suc n) =
    let before = stays_in w f n in
    if leb w.lo (f n) && (ltb (f n) w.hi && f n % w.step == 0) then before else false

stays_in_lem : (w : Window) (f : ℕ → ℕ) (b n : ℕ) → b < n → stays_in w f n ≡ true → IsIn w (f b)
unfolding stays_in
stays_in_lem w f b zero below fine = absurd (omega (arith, below))
stays_in_lem w f b (suc n) below fine = elim (Bool-cases (b == n)) [
  | inl last ↦ rw ((==_iff b n).0 last) (ground (arith, fine))
  | inr earlier ↦ stays_in_lem w f b n (ground (arith, earlier)) (ground (arith, fine))
]

abbrev low_window : Window
low_window = record { lo = 0; hi = 256; step = 8 }

abbrev high_window : Window
high_window = record { lo = 64; hi = 128; step = 1 }

low_byte_bounds : (b : ℕ) → b < 256 → IsIn low_window (low_byte b)
low_byte_bounds b h = stays_in_lem low_window low_byte b 256 h (unfold stays_in in refl)

high_byte_bounds : (b : ℕ) → b < 256 → IsIn high_window (high_byte b)
high_byte_bounds b h = stays_in_lem high_window high_byte b 256 h (unfold stays_in in refl)

-- 256 ^ n
unfoldable place : ℕ → ℕ
place zero = 1
place (suc n) = 256 * place n

-- The last byte decides the size.
last_bounds :
    (n : ℕ) (bs : GoString)
    → length bs ≡ suc n
    → All (λ b. b < 256) bs
    → let x = little_endian (update n high_byte bs) in (64 * place n ≤ x) × (x < 128 * place n)
unfolding little_endian update place
last_bounds n [] e h = absurd (omega (arith, e))
last_bounds zero (b ∷ []) e h = omega (arith, high_byte_bounds b h.0)
last_bounds zero (b ∷ (c ∷ bs)) e h = absurd (omega (arith, e))
last_bounds (suc n) (b ∷ bs) e h = omega (arith, h.0, last_bounds n bs (omega (arith, e)) h.1)

-- A private key of 32 bytes is clamped to a multiple of 8 from 2 ^ 254 on and below 2 ^ 255.
pub clamp_bounds :
    (bytes : GoString)
    → length bytes ≡ 32
    → All (λ b. b < 256) bytes
    → let x = little_endian (clamp bytes) in (x % 8 ≡ 0) × (2 ^ 254 ≤ x) × (x < 2 ^ 255)
unfolding clamp update little_endian place
clamp_bounds [] e h = absurd (omega (arith, e))
clamp_bounds (b ∷ bs) e h =
    omega (arith, low_byte_bounds b h.0, last_bounds 30 bs (omega (arith, e)) h.1)
