-- ===== src/Agent/Api/Serving.antt =====
-- The read loop of ServeHTTP in agent/internal/api/server.go, for one connection. The frames that it
-- reads are a list; its end stands for the read error.
use pocketclaude.Base.{
  ℕ, suc, GoString, str_eq, ◌≡◌, refl, ap, sym, ◌∙◌, Bool, true, false, not, Option, none, some,
  List, [], ◌∷◌, map, if◌then◌else◌, Option-cases, Bool-cases, inl, inr,
}
use pocketclaude.Agent.Api.Protocol.{JsonRpcRequest, JsonRpcResponse, json_rpc_version}
use pocketclaude.Agent.Api.{ApiIo, Services, Agent, handle_message}
use pocketclaude.Agent.Api.Clients.Streams.{until_failure}
use pocketclaude.Agent.Api.Replies.{AsSpecified, IsReply, handle_message-AsSpecified}

-- A frame; `fresh` and `now` are the new UUID and the time while it is handled.
pub record ApiFrame : Type 0 where
  pub raw : GoString
  pub fresh : GoString
  pub now : ℕ

module _ {D P Info : Type 0} (io : ApiIo) (sv : Services D Info) (delivers : ℕ → Bool) where
  -- The agent after the loop, and the responses that were written; `delivers k` is whether the k-th
  -- write succeeds.
  unfoldable pub read_loop : ℕ → List ApiFrame → Agent D P → Agent D P × List (JsonRpcResponse Info)
  read_loop k [] a = (a, [])
  read_loop k (f ∷ fs) a =
      let (a', resp) = handle_message io sv f.fresh f.now f.raw a in
      elim resp [
        | none ↦ read_loop k fs a'
        | some r ↦ elim (delivers k) [
          | true ↦ (let (a'', rs) = read_loop (suc k) fs a' in (a'', r ∷ rs))
          | false ↦ (a', r ∷ [])
        ]
      ]

-- The id of the answer that is due to a frame; none where no answer is.
unfoldable pub due : Option JsonRpcRequest → Option (Option GoString)
due none = some none
due (some req) =
    if not (str_eq req.jsonrpc json_rpc_version)
    then some req.id
    else elim req.id [ none ↦ none | some i ↦ some (some i) ]

unfoldable pub dues : ApiIo → List ApiFrame → List (Option GoString)
unfolding due
dues io [] = []
dues io (f ∷ fs) = elim (due (io.unmarshal_request f.raw)) [
  | none ↦ dues io fs
  | some i ↦ i ∷ dues io fs
]

-- The id of a response that was sent.
unfoldable answer_id : {Info : Type 0} → Option (JsonRpcResponse Info) → Option (Option GoString)
answer_id none = none
answer_id (some r) = some r.id

answered :
    {Info : Type 0} (resp : Option (JsonRpcResponse Info)) (id : Option GoString)
    → elim id as (λ _. Type 0) [
      | none ↦ resp ≡ none
      | some i ↦ ((e : JsonRpcResponse Info) × (resp ≡ some e) × IsReply (some i) e)
    ]
    → answer_id resp
      ≡ elim id as (λ _. Option (Option GoString)) [ none ↦ none | some i ↦ some (some i) ]
unfolding answer_id
answered resp none h = ap answer_id h
answered resp (some i) (e, same, inl (err, v, named, f, g)) = ap answer_id same ∙ ap some named
answered resp (some i) (e, same, inr (res, v, named, f, g)) = ap answer_id same ∙ ap some named

module _ {D P Info : Type 0} (io : ApiIo) (sv : Services D Info) where
  AsSpecified-due :
      (o : Option JsonRpcRequest) (a : Agent D P) (r : Agent D P × Option (JsonRpcResponse Info))
      → AsSpecified io sv o a r
      → answer_id r.1 ≡ due o
  unfolding AsSpecified due answer_id
  AsSpecified-due none a r (kept, e, same, (err, v, named, f, g)) =
      ap answer_id same ∙ ap some named
  AsSpecified-due (some req) a r h = elim (Bool-cases (str_eq req.jsonrpc json_rpc_version)) [
    | inl v ↦ rw (v, due) (answered r.1 req.id (rw (v, AsSpecified) at h))
    | inr v ↦
        (let (kept, e, same, (err, w, named, f, g)) = (rw (v, AsSpecified) at h) in
          rw (v, due) (ap answer_id same ∙ ap some named))
  ]

  -- Whatever frames a connection reads: the ids of the responses that it is sent are those that are due
  -- to the frames, in their order, up to and with the first whose write fails. Nothing is due to a
  -- request of version 2.0 without an id.
  pub read_loop_lem :
      (delivers : ℕ → Bool) (k : ℕ) (fs : List ApiFrame) (a : Agent D P)
      → map (λ (r : JsonRpcResponse Info). r.id) (read_loop io sv delivers k fs a).1
        ≡ until_failure delivers k (dues io fs)
  unfolding read_loop dues until_failure answer_id
  read_loop_lem delivers k [] a = refl
  read_loop_lem delivers k (f ∷ fs) a =
      let o = handle_message io sv f.fresh f.now f.raw a in
      let d =
        AsSpecified-due (io.unmarshal_request f.raw) a o
          (handle_message-AsSpecified io sv f.fresh f.now f.raw a) in
      elim (Option-cases o.1) [
        | inl e ↦ rw (e, read_loop, sym d ∙ ap answer_id e, dues) (read_loop_lem delivers k fs o.0)
        | inr (r, e) ↦ elim (Bool-cases (delivers k)) [
          | inl fine ↦
              rw (e, read_loop, sym d ∙ ap answer_id e, dues, fine, until_failure)
                (ap (λ l. r.id ∷ l) (read_loop_lem delivers (suc k) fs o.0))
          | inr bad ↦ rw (e, read_loop, sym d ∙ ap answer_id e, dues, bad, until_failure) refl
        ]
      ]
