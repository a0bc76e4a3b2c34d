-- ===== src/Agent/Sessions.antt =====
-- agent/internal/session/manager.go. A channel is a number; what becomes of the channels is a list of
-- events, in order, and a program that closes a channel twice or sends on a closed one panics. The
-- terminals below are Agent.Terminals.
pub mod Channels
pub mod Safety
pub mod Dispatch
use pocketclaude.Base.{
  ℕ, suc, ◌+◌, GoString, str_eq, Bool, true, false, not, ◌||◌, Option, none, some, List, [], ◌∷◌,
  ◌++◌, map, if◌then◌else◌, ltb, ◌==◌, length,
}
use pocketclaude.Base.GoMap.{GoMap, lookup, insert, delete, values}
use pocketclaude.Agent.SessionStore.{StoreIo}
use pocketclaude.Agent.Terminals.{
  Session, Host, Manager as Terminals, InputRoute, is_alive, write_input, create_session,
  get_session, list_sessions as all_sessions, destroy_session, close_all as close_terminals,
}

abbrev pub Chan : Type 0
Chan = ℕ

pub data Event : Type 0 where
  made closed_chan : Chan → Event
  sent dropped : Chan → GoString → Event

pub record SessionInfo : Type 0 where
  pub id : GoString
  pub command : GoString
  pub project_dir : GoString
  pub alive : Bool
  pub start_time : ℕ

-- `next` is the channel that `make` gives out next.
pub record Manager (D : Type 0) : Type 0 where
  pub terminals : Terminals D
  pub output_subs : GoMap (List Chan)
  pub next : Chan
  pub events : List Event

abbrev pub new_manager : {D : Type 0} → Terminals D → Manager D
new_manager terminals = record { terminals = terminals; output_subs = []; next = 0; events = [] }

abbrev pub subs_of : GoString → GoMap (List Chan) → List Chan
subs_of id subs = elim (lookup id subs) [ none ↦ [] | some chans ↦ chans ]

-- The loop of UnsubscribeOutput: the first occurrence goes.
unfoldable pub cut_chan : Chan → List Chan → List Chan
cut_chan ch [] = []
cut_chan ch (sub ∷ subs) = if sub == ch then subs else sub ∷ cut_chan ch subs

unfoldable pub has_chan : Chan → List Chan → Bool
has_chan ch [] = false
has_chan ch (sub ∷ subs) = sub == ch || has_chan ch subs

-- The map after the subscriber is cut.
abbrev pub put_subs : GoString → List Chan → GoMap (List Chan) → GoMap (List Chan)
put_subs id [] subs = delete id subs
put_subs id (ch ∷ chans) subs = insert id (ch ∷ chans) subs

-- One `select` for each subscriber; `room` says whether its buffer has room.
unfoldable pub broadcast_to : (Chan → Bool) → GoString → List Chan → List Event
broadcast_to room chunk [] = []
broadcast_to room chunk (ch ∷ subs) =
    (if room ch then sent ch chunk else dropped ch chunk) ∷ broadcast_to room chunk subs

unfoldable pub close_subs : GoMap (List Chan) → List Event
close_subs [] = []
close_subs ((id, subs) ∷ rest) = map closed_chan subs ++ close_subs rest

module _ {D : Type 0} (io : StoreIo D) (host : Host) where
  abbrev pub info : Session → SessionInfo
  info s = record {
    id = s.id;
    command = s.command;
    project_dir = s.project_dir;
    alive = is_alive host s;
    start_time = s.start_time;
  }

  -- `none` is an error, here and below.
  unfoldable pub create :
      GoString → ℕ → GoString → GoString → Manager D → Manager D × Option SessionInfo
  create id now project_dir command m =
      if str_eq project_dir []
      then (m, none)
      else (let (terminals, started) =
            create_session io host id now project_dir command m.terminals in
          (
            record m { terminals = terminals },
            elim started [ none ↦ none | some s ↦ some (info s) ],
          ))

  abbrev pub list : Manager D → List SessionInfo
  list m = map info (all_sessions io host m.terminals)

  unfoldable pub get : GoString → Manager D → Option SessionInfo
  get id m = elim (get_session io host m.terminals id) [ none ↦ none | some s ↦ some (info s) ]

  unfoldable pub send_input : GoString → Manager D → Option InputRoute
  send_input id m = elim (get_session io host m.terminals id) [
    | none ↦ none
    | some s ↦ some (write_input host s)
  ]

  -- Whether the session was there.
  unfoldable pub destroy : GoString → Manager D → Manager D × Bool
  destroy id m =
      let (terminals, gone) = destroy_session io host id m.terminals in
      (
        record m {
          terminals = terminals;
          output_subs = delete id m.output_subs;
          events = m.events ++ map closed_chan (subs_of id m.output_subs);
        },
        elim gone [ none ↦ false | some _ ↦ true ],
      )

  unfoldable pub subscribe_output : GoString → Manager D → Manager D × Option Chan
  subscribe_output id m = elim (get_session io host m.terminals id) [
    | none ↦ (m, none)
    | some _ ↦ (
      record m {
        output_subs = insert id (subs_of id m.output_subs ++ m.next ∷ []) m.output_subs;
        next = suc m.next;
        events = m.events ++ made m.next ∷ [];
      },
      some m.next,
    )
  ]

  unfoldable pub unsubscribe_output : GoString → Chan → Manager D → Manager D
  unfolding cut_chan has_chan
  unsubscribe_output id ch m = elim (lookup id m.output_subs) [
    | none ↦ m
    | some subs ↦ record m {
      output_subs = put_subs id (cut_chan ch subs) m.output_subs;
      events = m.events ++ (if has_chan ch subs then closed_chan ch ∷ [] else []);
    }
  ]

  unfoldable pub broadcast_output : (Chan → Bool) → GoString → GoString → Manager D → Manager D
  unfolding broadcast_to
  broadcast_output room id chunk m = record m {
    events = m.events ++ broadcast_to room chunk (subs_of id m.output_subs);
  }

  unfoldable pub close_all : Manager D → Manager D
  unfolding close_subs
  close_all m = record m {
    terminals = close_terminals io host m.terminals;
    output_subs = [];
    events = m.events ++ close_subs m.output_subs;
  }
