-- ===== src/Agent/RelayClient/Steps.antt =====
-- relay.go as a machine: the goroutine of Connect (connectOnce and readLoop with it), the heartbeats,
-- and any number of calls of Close and of the three sends, in any order of their steps. A step reads
-- or writes the fields that goroutines share at most once, or under the lock.
pub mod Sound
pub mod Writes
pub mod Closing
pub mod Returning
use pocketclaude.Base.{
  ℕ, ◌+◌, ◌-◌, ◌<◌, GoString, text, Bool, true, false, Option, none, some, List, [], ◌∷◌, ◌++◌, ◌≡◌,
  ◌⊎◌, if◌then◌else◌, ◌||◌,
}
use pocketclaude.Agent.RelayClient.{
  RelayClient, is_closed, Packet, any_json, close_message, register_msg, send_json, send,
  send_json_rpc, beat, Place, starting, dialing, looping, fetching, waiting, returned, dialed,
  registering, reading, leaving, checking, Call, connected, message, disconnected,
}

-- `next_conn` numbers the connections, `shut` are those that conn.Close was called on. `beating` says
-- whether the heartbeat of the present connection runs, `told` counts the others, whose stop channel is closed.
-- Of the calls of Close, `entered` counts those past the lock, `chosen` those at close(done), and
-- `panicked` says whether one closed it twice.
pub record System (V M : Type 0) : Type 0 where
  pub client : RelayClient
  pub place : Place
  pub next_conn : ℕ
  pub shut : List ℕ
  pub writes : List (ℕ × Packet V)
  pub calls : List (Call M)
  pub beating : Bool
  pub told : ℕ
  pub entered : ℕ
  pub chosen : ℕ
  pub panicked : Bool

-- Whether a step is one of Connect's that comes by itself, one of Connect's that takes the peer, or
-- another goroutine's.
pub data Actor : Type 0 where
  connect peer others : Actor

pub data Holds {A : Type 0} : A → List A → Type 0 where
  first : {x : A} {xs : List A} → Holds x (x ∷ xs)
  later : {x y : A} {xs : List A} → Holds x xs → Holds x (y ∷ xs)

module _ {V M : Type 0} where
  unfoldable pub start : RelayClient → System V M
  start c = record {
    client = c;
    place = starting;
    next_conn = 0;
    shut = [];
    writes = [];
    calls = [];
    beating = false;
    told = 0;
    entered = 0;
    chosen = 0;
    panicked = false;
  }

  unfoldable pub go : Place → System V M → System V M
  go p s = record s { place = p }

  unfoldable pub post : Option (ℕ × Packet V) → System V M → System V M
  post none s = s
  post (some w) s = record s { writes = s.writes ++ w ∷ [] }

  unfoldable pub call : Bool → Call M → System V M → System V M
  call handler c s = if handler then record s { calls = s.calls ++ c ∷ [] } else s

  unfoldable pub hold : Option ℕ → System V M → System V M
  hold k s = record s { client = record s.client { conn = k } }

  -- After a successful registration: the callback, and the heartbeat.
  unfoldable pub registered : System V M → System V M
  unfolding go call
  registered s = go looping (record (call s.client.on_connect connected s) { beating = true })

  -- close(stopHeartbeat), and the connection is forgotten.
  unfoldable pub leave : Option GoString → System V M → System V M
  unfolding go hold
  leave err s =
      go (checking err)
        (hold none (record s { beating = false; told = if s.beating then s.told + 1 else s.told }))

  -- The rest of the loop of Connect.
  unfoldable pub check : Option GoString → System V M → System V M
  unfolding go call is_closed
  check err s = if is_closed s.client then go returned s else elim err [
    | none ↦ go waiting s
    | some e ↦ go waiting (call s.client.on_disconnect (disconnected e) s)
  ]

  -- The part of Close under the lock.
  unfoldable pub close_locked : System V M → System V M
  unfolding post hold
  close_locked s =
      let s' = record s { client = record s.client { closed = true }; entered = s.entered + 1 } in
      elim s.client.conn [
        | none ↦ s'
        | some k ↦ record (hold none (post (some (k, close_message)) s')) { shut = k ∷ s.shut }
      ]

pub data Step {V M : Type 0} : Actor → System V M → System V M → Type 0 where
  -- Connect
  begin :
      {s : System V M}
      → s.place ≡ starting
      → s.client.closed ≡ false
      → Step connect s (go dialing s)
  finish :
      {s : System V M}
      → s.place ≡ starting
      → s.client.closed ≡ true
      → Step connect s (go returned s)
  checks :
      {s : System V M} (err : Option GoString)
      → s.place ≡ checking err
      → Step connect s (check err s)
  elapsed : {s : System V M} → s.place ≡ waiting → Step connect s (go starting s)
  signalled :
      {s : System V M} → s.place ≡ waiting → s.client.done ≡ true → Step connect s (go returned s)
  -- connectOnce
  dial_fails :
      {s : System V M} (e : GoString)
      → s.place ≡ dialing
      → Step connect s (go (checking (some (text "dial failed: " ++ e))) s)
  dials :
      {s : System V M}
      → s.place ≡ dialing
      → Step connect s (go (dialed s.next_conn) (record s { next_conn = s.next_conn + 1 }))
  keeps :
      {s : System V M} (k : ℕ)
      → s.place ≡ dialed k
      → Step connect s (go (registering k) (hold (some k) s))
  registers :
      {s : System V M} (k : ℕ)
      → s.place ≡ registering k
      → Step connect s (registered (post (some (k, register_msg s.client)) s))
  register_fails :
      {s : System V M} (k : ℕ) (e : GoString)
      → s.place ≡ registering k
      → Step connect s (
          go
            (checking (some (text "registration failed: " ++ e)))
            (record (post (some (k, register_msg s.client)) s) { shut = k ∷ s.shut }))
  leaves :
      {s : System V M} (err : Option GoString)
      → s.place ≡ leaving err
      → Step connect s (leave err s)
  -- readLoop
  stops :
      {s : System V M}
      → s.place ≡ looping
      → s.client.closed ≡ true
      → Step connect s (go (leaving none) s)
  loops :
      {s : System V M}
      → s.place ≡ looping
      → s.client.closed ≡ false
      → Step connect s (go fetching s)
  lost :
      {s : System V M}
      → s.place ≡ fetching
      → s.client.conn ≡ none
      → Step connect s (go (leaving (some (text "connection lost"))) s)
  fetches :
      {s : System V M} (k : ℕ)
      → s.place ≡ fetching
      → s.client.conn ≡ some k
      → Step connect s (go (reading k) s)
  -- ReadMessage fails by itself on a connection that conn.Close was called on; `err` is none for the
  -- close codes that are expected.
  read_shut :
      {s : System V M} (k : ℕ) (err : Option GoString)
      → s.place ≡ reading k
      → Holds k s.shut
      → Step connect s (go (leaving err) s)
  read_fails :
      {s : System V M} (k : ℕ) (err : Option GoString)
      → s.place ≡ reading k
      → Step peer s (go (leaving err) s)
  -- A message that is no JSON object is skipped.
  read_invalid : {s : System V M} (k : ℕ) → s.place ≡ reading k → Step peer s (go looping s)
  read_message :
      {s : System V M} (k : ℕ) (m : M)
      → s.place ≡ reading k
      → Step peer s (go looping (call s.client.on_message (message m) s))
  -- heartbeat: a tick may also be taken by one that was told to stop.
  ticks :
      {s : System V M} (unix : GoString)
      → (s.beating ≡ true) ⊎ (0 < s.told)
      → Step others s (post (beat s.client unix) s)
  beat_done :
      {s : System V M}
      → s.beating ≡ true
      → s.client.done ≡ true
      → Step others s (record s { beating = false })
  beat_stops : {s : System V M} → 0 < s.told → Step others s (record s { told = s.told - 1 })
  -- Send, SendJSONRPC and SendJSON
  sends :
      {s : System V M} (target payload nonce : GoString)
      → Step others s (post (send s.client target payload nonce) s)
  sends_json_rpc :
      {s : System V M} (unix_nano method : GoString) (params : V)
      → Step others s (post (send_json_rpc s.client unix_nano method params) s)
  sends_json :
      {s : System V M} (msg : V) → Step others s (post (send_json s.client (any_json msg)) s)
  -- Close
  close_begins : {s : System V M} → Step others s (close_locked s)
  close_skips :
      {s : System V M}
      → 0 < s.entered
      → s.client.done ≡ true
      → Step others s (record s { entered = s.entered - 1 })
  close_chooses :
      {s : System V M}
      → 0 < s.entered
      → s.client.done ≡ false
      → Step others s (record s { entered = s.entered - 1; chosen = s.chosen + 1 })
  close_done :
      {s : System V M}
      → 0 < s.chosen
      → Step others s (record s {
        client = record s.client { done = true };
        chosen = s.chosen - 1;
        panicked = s.client.done || s.panicked;
      })

pub data Reachable {V M : Type 0} (c : RelayClient) : System V M → Type 0 where
  here : Reachable c (start c)
  moved : {a : Actor} {s t : System V M} → Reachable c s → Step a s t → Reachable c t
