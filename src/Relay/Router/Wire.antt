-- ===== src/Relay/Router/Wire.antt =====
-- The messages of relay/internal/protocol/types.go as they are on the wire, written out.
use pocketclaude.Base.{GoString, text, Option, none, some, ℤ, ℕ}
use pocketclaude.Relay.Protocol.{NotifyParams, RpcResult}
use pocketclaude.Relay.Net.{Env, Frame, response, notification}

abbrev pub answered : Option ℕ → RpcResult → Frame
answered id result =
    response (record { jsonrpc = text "2.0"; result = some result; error = none; id = id })

abbrev pub refused : Option ℕ → ℤ → GoString → Frame
refused id code message = response (record {
  jsonrpc = text "2.0";
  result = none;
  error = some (record { code = code; message = message });
  id = id;
})

-- A notification of these parameters, or of none where they cannot be coded.
abbrev pub notice : Env → GoString → NotifyParams → Frame
notice env method params = notification (record {
  jsonrpc = text "2.0";
  method = method;
  params = elim (env.marshal params) [ none ↦ text "{}" | some b ↦ b ];
  id = none;
})
