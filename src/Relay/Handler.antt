-- ===== src/Relay/Handler.antt =====
-- relay/internal/api/handler.go: the read loop of one connection, and what follows it. The frames
-- that arrive, with the time of each, are a list; its end stands for the read error.
pub mod Cleanup
use pocketclaude.Base.{
  ℕ, GoString, str_eq, true, false, none, some, List, [], ◌∷◌, ◌==◌, map, if◌then◌else◌,
}
use pocketclaude.Base.GoMap.{values}
use pocketclaude.Relay.Protocol.{Time}
use pocketclaude.Relay.Registry.{Conn, unregister}
use pocketclaude.Relay.Net.{Env, World, raw, post, close, post_all}
use pocketclaude.Relay.Presence.{offline_notice}
use pocketclaude.Relay.Router.{Router, Outcome, new, handle_text, handle_binary}

pub record Arrival : Type 0 where
  pub msg_type : ℕ
  pub bytes : GoString
  pub at : Time

module _ (env : Env) (conn : Conn) where
  -- The `switch` on the message type: 1 is text, 2 is binary.
  unfoldable pub handle_frame : Router → World → Arrival → Outcome
  handle_frame rt w a =
      if a.msg_type == 1
      then handle_text env a.at rt w conn a.bytes
      else if a.msg_type == 2
      then handle_binary env rt w a.bytes
      else record { router = rt; world = w; keep_open = true }

  unfoldable pub read_loop : Router → World → List Arrival → Router × World
  unfolding handle_frame
  read_loop rt w [] = (rt, w)
  read_loop rt w (a ∷ rest) =
      let o = handle_frame rt w a in
      elim o.keep_open [ true ↦ read_loop o.router o.world rest | false ↦ (o.router, o.world) ]

  -- The part of cleanup for a connection that has registered.
  unfoldable pub unregister_device : Router → World → World
  unregister_device rt w =
      let (r, removed) = unregister w.registry rt.device_id conn in
      elim removed [
        | none ↦ w
        | some _ ↦
            post_all env (offline_notice env rt.device_id) (map (λ d. d.conn) (values r))
              (record w { registry = r })
      ]

  unfoldable pub cleanup : Router → World → World
  unfolding unregister_device
  cleanup rt w =
      let w1 = if str_eq rt.device_id [] then w else unregister_device rt w in
      close (post env w1 conn (raw 8 (env.format_close_message 1000 []))) conn

  -- ServeHTTP after the upgrade.
  unfoldable pub serve_http : World → List Arrival → World
  unfolding read_loop cleanup
  serve_http w arrivals = let (rt, w') = read_loop new w arrivals in cleanup rt w'
