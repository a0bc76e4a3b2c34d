-- ===== src/Relay/Router/Binary.antt =====
-- The layout of a binary frame (router.go): 32 bytes of device id, padded with nulls, then the
-- payload.
use pocketclaude.Base.{
  ◌-◌, GoString, str_eq, Option, none, some, [], ◌∷◌, ◌++◌, ltb, ◌==◌, if◌then◌else◌, length, take,
  drop, replicate,
}

-- The loop over the raw id: `string(rawID[:i])` at the first null, and "" if there is none.
unfoldable pub before_null : GoString → Option GoString
before_null [] = none
before_null (b ∷ bs) =
    let rest = before_null bs in
    if b == 0 then some [] else elim rest [ none ↦ none | some s ↦ some (b ∷ s) ]

unfoldable pub trim_null : GoString → GoString
unfolding before_null
trim_null raw_id = elim (before_null raw_id) [ none ↦ [] | some s ↦ s ]

-- The target of a frame; an empty id stands for all 32 bytes.
unfoldable pub target_id : GoString → GoString
unfolding trim_null
target_id bytes =
    let raw_id = take 32 bytes in let id = trim_null raw_id in if str_eq id [] then raw_id else id

-- A frame that is too short has no payload.
unfoldable pub payload_of : GoString → Option GoString
payload_of bytes = if ltb (length bytes) 33 then none else some (drop 32 bytes)

-- `copy` into a buffer of 32 zero bytes.
unfoldable pub pad_device_id : GoString → GoString
pad_device_id id = take 32 id ++ replicate (32 - length id) 0
