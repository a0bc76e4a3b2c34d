-- ===== src/Agent/Api/Clients.antt =====
-- The clients of the API: ServeHTTP and broadcastLoop of agent/internal/api/server.go. `W` is what is
-- written to a connection; a connection is a number.
pub mod Streams
use pocketclaude.Base.{
  ℕ, suc, ◌+◌, GoString, Bool, true, false, not, Option, none, some, List, [], ◌∷◌, ◌++◌, filter,
  if◌then◌else◌, ◌==◌, leb, length, text,
}
use pocketclaude.Agent.Api.Protocol.{JsonRpcNotification, OutputNotification, new_notification}

abbrev pub Conn : Type 0
Conn = ℕ

-- The map of clients as the list of its keys.
pub record Hub (W : Type 0) : Type 0 where
  pub clients : List Conn
  pub writes : List (Conn × W)
  pub closed : List Conn

-- The capacity of the broadcast channel.
abbrev pub broadcast_capacity : ℕ
broadcast_capacity = 256

-- A send on the channel: `none` is one that waits, for a full channel.
unfoldable pub broadcast_notification :
    GoString → OutputNotification → List JsonRpcNotification → Option (List JsonRpcNotification)
broadcast_notification method params queue =
    if leb broadcast_capacity (length queue)
    then none
    else some (queue ++ new_notification method params ∷ [])

-- The output handler of NewHandlerWithServices.
unfoldable pub on_output :
    GoString → GoString → List JsonRpcNotification → Option (List JsonRpcNotification)
unfolding broadcast_notification
on_output session_id chunk queue =
    broadcast_notification (text "session.on_output")
      (record { session_id = session_id; chunk = chunk; kind = text "stream" }) queue

abbrev pub remove : Conn → List Conn → List Conn
remove c cs = filter (λ d. not (d == c)) cs

abbrev pub add : Conn → List Conn → List Conn
add c cs = c ∷ remove c cs

module _ {W : Type 0} where
  unfoldable pub connect : Conn → Hub W → Hub W
  connect c h = record h { clients = add c h.clients }

  -- The deferred functions of ServeHTTP.
  unfoldable pub disconnect : Conn → Hub W → Hub W
  disconnect c h = record h { clients = remove c h.clients; closed = h.closed ++ c ∷ [] }

  -- The loop over the clients for one message; `delivers` says of each client whether the write
  -- succeeds.
  unfoldable pub broadcast_to_all : (Conn → Bool) → W → List Conn → Hub W → Hub W
  broadcast_to_all delivers msg [] h = h
  broadcast_to_all delivers msg (c ∷ cs) h =
      let written = record h { writes = h.writes ++ (c, msg) ∷ [] } in
      broadcast_to_all delivers msg cs (
        if delivers c
        then written
        else record written { clients = remove c h.clients; closed = h.closed ++ c ∷ [] })

  -- broadcastLoop; the k-th message of the run is delivered where `delivers k` says so.
  unfoldable pub broadcast_loop : (ℕ → Conn → Bool) → ℕ → List W → Hub W → Hub W
  unfolding broadcast_to_all
  broadcast_loop delivers k [] h = h
  broadcast_loop delivers k (msg ∷ msgs) h =
      broadcast_loop delivers (suc k) msgs (broadcast_to_all (delivers k) msg h.clients h)
