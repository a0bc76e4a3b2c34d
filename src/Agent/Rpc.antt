-- ===== src/Agent/Rpc.antt =====
-- What a HandleRPC of the agent's services returns: a result, or one of its errors. `E` is the errors of
-- the operation that was called.
pub data Rpc (A E : Type 0) : Type 0 where
  result : A → Rpc A E
  failed : E → Rpc A E
  invalid_params unknown_method : Rpc A E
