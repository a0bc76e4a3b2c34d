-- ===== src/Relay/Router/Framing.antt =====
-- The layout of binary frames, and the delivery of one (HandleBinary).
use pocketclaude.Base.{
  ℕ, zero, suc, ◌-◌, ◌≤◌, GoString, str_eq, str_eq_iff, ◌≡◌, ◌≢◌, refl, ap, ◌∙◌, some, none, [],
  ◌∷◌, ◌++◌, arith, ◌==◌, if◌then◌else◌, All, length, length-append, length-take, length-replicate,
  replicate, take, take-append, drop-append, append-nil, Option-cases, inl, inr,
}
use pocketclaude.Relay.Router.{target_id, pad_device_id, payload_of}
use pocketclaude.Relay.Router.Binary.{before_null, trim_null}

abbrev pub NoNull : GoString → Type 0
NoNull = All (λ b. b ≢ 0)

before_null-padded :
    (id : GoString) (k : ℕ)
    → NoNull id
    → before_null (id ++ replicate k 0) ≡ (if k == 0 then none else some id)
unfolding before_null
before_null-padded [] zero h = refl
before_null-padded [] (suc k) h = ground arith
before_null-padded (b ∷ id) k h = ground (arith, before_null-padded id k h.1)

take_all : (n : ℕ) (s : GoString) → length s ≤ n → take n s ≡ s
take_all zero [] h = refl
take_all zero (b ∷ s) h = absurd (omega arith)
take_all (suc n) [] h = refl
take_all (suc n) (b ∷ s) h = ap (◌∷◌ b) (take_all n s (omega arith))

pub length-pad_device_id : (id : GoString) → length (pad_device_id id) ≡ 32
unfolding pad_device_id
length-pad_device_id id = omega (
  arith,
  length-append (take 32 id) (replicate (32 - length id) 0),
  length-take 32 id,
  length-replicate {A = ℕ} (32 - length id) 0,
)

target_id-append :
    (raw_id payload : GoString)
    → length raw_id ≡ 32
    → target_id (raw_id ++ payload)
      ≡ (if str_eq (trim_null raw_id) [] then raw_id else trim_null raw_id)
unfolding target_id
target_id-append raw_id payload h = rw (take-append 32 raw_id payload h)

pad_device_id-fits :
    (id : GoString) → length id ≤ 32 → pad_device_id id ≡ id ++ replicate (32 - length id) 0
unfolding pad_device_id
pad_device_id-fits id h = rw (take_all 32 id h)

trim_null-padded :
    (id : GoString) (k : ℕ)
    → NoNull id
    → trim_null (id ++ replicate k 0) ≡ (if k == 0 then [] else id)
unfolding trim_null
trim_null-padded id k h = rw (before_null-padded id k h, trim_null) (ground arith)

-- The choice in `target_id`, of the trimmed id if it is not empty.
abbrev chosen : GoString → GoString → GoString
chosen raw_id trimmed = if str_eq trimmed [] then raw_id else trimmed

chosen-padded :
    (id : GoString) (k : ℕ)
    → id ≢ []
    → chosen (id ++ replicate k 0) (if k == 0 then [] else id) ≡ id
unfolding str_eq
chosen-padded id zero ne = append-nil id
chosen-padded id (suc k) ne = ground (arith, str_eq_iff id [])

-- An id of 1 to 32 bytes, none of them null, is read back from a frame as it was written.
pub target_id-pad_device_id :
    (id payload : GoString)
    → id ≢ []
    → NoNull id
    → length id ≤ 32
    → target_id (pad_device_id id ++ payload) ≡ id
target_id-pad_device_id id payload nonempty clean fits =
    target_id-append (pad_device_id id) payload (length-pad_device_id id)
    ∙ rw (pad_device_id-fits id fits) (padded (32 - length id))
  where
    padded : (k : ℕ) → chosen (id ++ replicate k 0) (trim_null (id ++ replicate k 0)) ≡ id
    padded k = rw (trim_null-padded id k clean) (chosen-padded id k nonempty)

pub payload_of-append :
    (raw_id payload : GoString)
    → length raw_id ≡ 32
    → payload ≢ []
    → payload_of (raw_id ++ payload) ≡ some payload
unfolding payload_of
payload_of-append raw_id [] h ne = absurd (ne refl)
payload_of-append raw_id (b ∷ payload) h ne =
    ground (arith, drop-append 32 raw_id (b ∷ payload) h, length-append raw_id (b ∷ payload))

before_null-le : (s t : GoString) → before_null s ≡ some t → length t ≤ length s
unfolding before_null
before_null-le [] t h = cc
before_null-le (b ∷ s) [] h = omega arith
before_null-le (b ∷ s) (c ∷ t) h = ground (arith, before_null-le s t)

length-trim_null : (s : GoString) → length (trim_null s) ≤ length s
unfolding trim_null
length-trim_null s = elim (Option-cases (before_null s)) [
  | inl e ↦ rw (e, trim_null) (omega arith)
  | inr (t, e) ↦ rw (e, trim_null) (before_null-le s t e)
]

length-chosen : (s : GoString) → length (chosen s (trim_null s)) ≤ length s
length-chosen s = ground (arith, length-trim_null s)

-- No frame names a target of more than 32 bytes.
pub length-target_id-le : (bytes : GoString) → length (target_id bytes) ≤ 32
unfolding target_id
length-target_id-le bytes = omega (arith, length-chosen (take 32 bytes), length-take 32 bytes)
