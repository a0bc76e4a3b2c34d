-- ===== src/Relay/Main.antt =====
-- relay/cmd/main.go: the flags, and the life of the process with its three goroutines, main, the
-- presence checker and the HTTP server.
pub mod Ending
use pocketclaude.Base.{
  ℕ, GoString, text, str_eq, ◌≡◌, ◌≢◌, Bool, true, false, not, ◌&&◌, Option, none, some, List, [],
  ◌∷◌, if◌then◌else◌,
}
use pocketclaude.Relay.Presence.{Presence, new, start, stop}

pub data Level : Type 0 where
  debug_level info_level warn_level error_level : Level

unfoldable pub parse_log_level : GoString → Level
parse_log_level level =
    if str_eq level (text "debug")
    then debug_level
    else if str_eq level (text "info")
    then info_level
    else if str_eq level (text "warn")
    then warn_level
    else if str_eq level (text "error")
    then error_level
    else info_level

-- How the server listens; TLS is of version 1.2 at least.
pub data Listening : Type 0 where
  plain_text : Listening
  with_tls : GoString → GoString → Listening

unfoldable pub listening : GoString → GoString → Listening
listening tls_cert tls_key =
    if not (str_eq tls_cert []) && not (str_eq tls_key [])
    then with_tls tls_cert tls_key
    else plain_text

-- What ListenAndServe returns.
pub data Served : Type 0 where
  no_error server_closed : Served
  other_error : GoString → Served

-- Where the main goroutine is: in the select, before pres.Stop, in server.Shutdown, or at the end with
-- an exit code or a panic.
pub data Place : Type 0 where
  selecting stopping shutting_down : Place
  exited : ℕ → Place
  panicked : Place

-- `started` is whether `go pres.Start()` has run, and `looping` whether its loop goes on;
-- `server_err` is what is in the channel serverErr, or was taken from it.
pub record Process : Type 0 where
  pub place : Place
  pub presence : Presence
  pub started : Bool
  pub looping : Bool
  pub server_err : Option Served

unfoldable pub begun : Process
begun = record {
  place = selecting;
  presence = new;
  started = false;
  looping = false;
  server_err = none;
}

unfoldable pub is_fatal : Served → Bool
is_fatal no_error = false
is_fatal server_closed = false
is_fatal (other_error err) = true

-- The select when it takes an error, pres.Stop, and what follows server.Shutdown.
unfoldable pub take_error : Served → Process → Process
unfolding is_fatal
take_error err s = record s { place = if is_fatal err then exited 1 else stopping }

unfoldable pub stop_presence : Process → Process
stop_presence s = elim (stop s.presence) [
  | none ↦ record s { place = panicked }
  | some p ↦ record s { place = shutting_down; presence = p; looping = false }
]

unfoldable pub start_presence : Process → Process
start_presence s =
    let (p, goes_on) = start s.presence in
    record s { presence = p; started = true; looping = goes_on }

unfoldable pub after_shutdown : Bool → Process → Process
after_shutdown fine s = record s { place = exited (if fine then 0 else 1) }

-- The process has not come to its end.
unfoldable pub is_running : Place → Bool
is_running selecting = true
is_running stopping = true
is_running shutting_down = true
is_running (exited code) = false
is_running panicked = false

-- What a step is seen as.
pub data Event : Type 0 where
  presence_started signalled stopped : Event
  server_returned taken : Served → Event
  shut_down : Bool → Event

-- One step of one of the goroutines.
pub data Step : Event → Process → Process → Type 0 where
  presence_starts :
      (s : Process)
      → s.started ≡ false
      → is_running s.place ≡ true
      → Step presence_started s (start_presence s)
  server_returns :
      (s : Process) (err : Served)
      → s.server_err ≡ none
      → is_running s.place ≡ true
      → Step (server_returned err) s (record s { server_err = some err })
  takes_error :
      (s : Process) (err : Served)
      → s.place ≡ selecting
      → s.server_err ≡ some err
      → Step (taken err) s (take_error err s)
  takes_signal :
      (s : Process) → s.place ≡ selecting → Step signalled s (record s { place = stopping })
  stops_presence : (s : Process) → s.place ≡ stopping → Step stopped s (stop_presence s)
  shuts_down :
      (s : Process) (fine : Bool)
      → s.place ≡ shutting_down
      → Step (shut_down fine) s (after_shutdown fine s)

-- A run from the start of the process, with its events, the latest first.
pub data Run : List Event → Process → Type 0 where
  at_start : Run [] begun
  one_more : {es : List Event} {e : Event} {s t : Process} → Run es s → Step e s t → Run (e ∷ es) t
