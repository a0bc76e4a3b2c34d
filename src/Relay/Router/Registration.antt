-- ===== src/Relay/Router/Registration.antt =====
-- What a registration does (handleRegister): to the registry, to the connection that it replaces, and
-- to the other devices.
use pocketclaude.Base.{
  ℕ, ◌+◌, length-append, GoString, text, str_eq, str_eq_iff, str_eq_refl, ◌≡◌, ◌≢◌, refl, sym, ap,
  ◌∙◌, true, none, some, List, [], ◌∷◌, ◌++◌, map, append_assoc, length, if◌then◌else◌, if_split,
  arith, ==_iff,
}
use pocketclaude.Base.GoMap.{lookup, delete, insert, values}
use pocketclaude.Relay.Router.Wire.{answered, notice}
use pocketclaude.Relay.Protocol.{
  online, new_notification, must_marshal, Time, JsonRpcRequest, RegisterParams, new_response,
  registered_at,
}
use pocketclaude.Relay.Registry.{Conn, DeviceInfo, Registry, register}
use pocketclaude.Relay.Registry.Laws.{lookup-register}
use pocketclaude.Relay.Registry.Invariant.{IsWellFormed}
use pocketclaude.Relay.Net.{Env, World, Frame, raw, write, close}
use pocketclaude.Relay.Net.Laws.{writes-post_all, closed-post_all}
use pocketclaude.Relay.Router.{
  Router, Outcome, close_replaced, complete_register, handle_register, known_type, online_notice,
  others,
}
use pocketclaude.Relay.Router.Invariant.{
  registry-close_replaced, registry-complete_register, router-complete_register, enrolled,
}

-- A registration that passes the checks of handleRegister.
abbrev pub Accepted : Env → JsonRpcRequest → RegisterParams → Type 0
Accepted env req p =
    (env.unmarshal_register req.params ≡ some p)
    × (p.device_id ≢ [])
    × (known_type env p.device_type ≡ true)

abbrev pub device_of : RegisterParams → Conn → Time → DeviceInfo
device_of p conn now = record {
  device_id = p.device_id;
  device_type = p.device_type;
  public_key = p.public_key;
  conn = conn;
  registered = now;
  last_seen = now;
}

module _ (env : Env) where
  handle_register-Accepted :
      (now : Time) (rt : Router) (w : World) (conn : Conn) (req : JsonRpcRequest)
      (p : RegisterParams)
      → Accepted env req p
      → handle_register env now rt w conn req ≡ complete_register env now conn req p w
  unfolding handle_register
  handle_register-Accepted now rt w conn req p (parsed, named, known) =
      ground (arith, str_eq_iff p.device_id [])

  -- An accepted registration makes the router the device's, puts the device under its id with this
  -- connection and time, and leaves every other entry as it was. This holds whether or not the
  -- response could be written; the connection stays open exactly if it could.
  pub registration :
      (now : Time) (rt : Router) (w : World) (conn : Conn) (req : JsonRpcRequest)
      (p : RegisterParams)
      → Accepted env req p
      → let o = handle_register env now rt w conn req in
        (o.router ≡ record { device_id = p.device_id; registered = true })
        × ((j : GoString)
            → lookup j o.world.registry
              ≡ (if str_eq p.device_id j then some (device_of p conn now) else lookup j w.registry))
        × (o.keep_open ≡ env.delivers (length (close_replaced env w p.device_id conn).writes))
  registration now rt w conn req p ok = rw (handle_register-Accepted now rt w conn req p ok) (
    router-complete_register env now conn req p w,
    λ j.
        rw (registry-complete_register env now conn req p w)
          (lookup-register w.registry p.device_id p.device_type p.public_key conn now j),
    kept,
  )
    where
      kept :
          (complete_register env now conn req p w).keep_open
          ≡ env.delivers (length (close_replaced env w p.device_id conn).writes)
      kept =
          unfold complete_register write in
          if_split
            (λ (o : Outcome).
              o.keep_open ≡ env.delivers (length (close_replaced env w p.device_id conn).writes))
            (env.delivers (length (close_replaced env w p.device_id conn).writes)) (λ e. sym e)
            (λ e. sym e)

  others-delete :
      (id : GoString) (r : Registry)
      → IsWellFormed r
      → others env id (delete id r) ≡ others env id r
  unfolding delete
  others-delete id [] h = refl
  others-delete id ((k, dev) ∷ r) h = ground (arith, others-delete id r h.1, h.0.keyed)

  others-register :
      (r : Registry) (p : RegisterParams) (conn : Conn) (now : Time)
      → IsWellFormed r
      → others env p.device_id (register r p.device_id p.device_type p.public_key conn now)
        ≡ others env p.device_id r
  unfolding register insert
  others-register r p conn now h =
      ground (arith, str_eq_refl p.device_id, others-delete p.device_id r h)

  -- The response to a registration, as the n-th write.
  abbrev pub welcome : ℕ → JsonRpcRequest → Frame
  welcome n req = answered req.id (registered_at true (env.unix_now n))

  -- A presence.online with the parameters of the registration, to every entry of the registry under
  -- another id.
  abbrev pub announcements : RegisterParams → World → List (Conn × Frame)
  announcements p w =
      map
        (λ (dev : DeviceInfo). (
          dev.conn,
          notice env (text "presence.online") (
              online (record {
                device_id = p.device_id;
                device_type = p.device_type;
                public_key = p.public_key;
              })),
        ))
        (values (delete p.device_id w.registry))

  announcements-others :
      (p : RegisterParams) (w : World) (r : Registry)
      → IsWellFormed r
      → map (λ c. (c, online_notice env p)) (others env p.device_id r)
        ≡ announcements p (record w { registry = r })
  unfolding delete online_notice new_notification must_marshal
  announcements-others p w [] h = refl
  announcements-others p w ((k, dev) ∷ r) h =
      ground (arith, announcements-others p w r h.1, h.0.keyed)

  others-enrolled :
      (now : Time) (conn : Conn) (p : RegisterParams) (w : World)
      → IsWellFormed w.registry
      → others env p.device_id (enrolled env now conn p w).registry
        ≡ others env p.device_id w.registry
  others-enrolled now conn p w h =
      ap (λ r. others env p.device_id (register r p.device_id p.device_type p.public_key conn now))
        (registry-close_replaced env w p.device_id conn)
      ∙ others-register w.registry p conn now h

  writes-complete_register :
      (now : Time) (w : World) (conn : Conn) (req : JsonRpcRequest) (p : RegisterParams)
      → IsWellFormed w.registry
      → env.delivers (length (close_replaced env w p.device_id conn).writes) ≡ true
      → let o = complete_register env now conn req p w in
        (o.world.writes
          ≡ (close_replaced env w p.device_id conn).writes
            ++ (conn, welcome (length (close_replaced env w p.device_id conn).writes) req)
              ∷ announcements p w)
        × (o.world.closed ≡ (close_replaced env w p.device_id conn).closed)
  unfolding complete_register write new_response
  writes-complete_register now w conn req p h sent = rw sent (
    writes-post_all env (online_notice env p) _ _
        ∙ ap
            (λ cs.
              ((close_replaced env w p.device_id conn).writes
                ++ (conn, welcome (length (close_replaced env w p.device_id conn).writes) req) ∷ [])
              ++ map (λ c. (c, online_notice env p)) cs)
            (others-enrolled now conn p w h)
        ∙ append_assoc (close_replaced env w p.device_id conn).writes _ _
        ∙ ap
            (λ l.
              (close_replaced env w p.device_id conn).writes
              ++ (conn, welcome (length (close_replaced env w p.device_id conn).writes) req) ∷ l)
            (announcements-others p w w.registry h),
    closed-post_all env (online_notice env p) _ _,
  )

  close_replaced-fresh :
      (w : World) (conn : Conn) (id : GoString)
      → lookup id w.registry ≡ none
      → close_replaced env w id conn ≡ w
  unfolding close_replaced
  close_replaced-fresh w conn id fresh = ground (arith, fresh)

  abbrev told_and_closed : World → Conn → World
  told_and_closed w c = record w {
    writes = w.writes ++ (c, raw 8 (text "replaced by new connection")) ∷ [];
    closed = w.closed ++ c ∷ [];
  }

  close_replaced-held :
      (w : World) (conn : Conn) (id : GoString) (old : DeviceInfo)
      → lookup id w.registry ≡ some old
      → old.conn ≢ conn
      → close_replaced env w id conn ≡ told_and_closed w old.conn
  unfolding close_replaced write close
  close_replaced-held w conn id old held differs = ground (arith, ==_iff old.conn conn)

  -- A device registers under an id that nobody holds, in a registry with each device under its own id,
  -- and its response can be written: it is answered first, and then the connection of each entry of
  -- the registry gets one presence.online with the id, type and key that it registered with. Nothing is
  -- closed.
  pub registration_announced :
      (now : Time) (rt : Router) (w : World) (conn : Conn) (req : JsonRpcRequest)
      (p : RegisterParams)
      → Accepted env req p
      → IsWellFormed w.registry
      → lookup p.device_id w.registry ≡ none
      → env.delivers (length w.writes) ≡ true
      → let o = handle_register env now rt w conn req in
        (o.world.writes ≡ w.writes ++ (conn, welcome (length w.writes) req) ∷ announcements p w)
        × (o.world.closed ≡ w.closed)
  registration_announced now rt w conn req p ok h fresh sent =
      rw (handle_register-Accepted now rt w conn req p ok) (
        rw (close_replaced-fresh w conn p.device_id fresh) at (
          writes-complete_register now w conn req p h
            (rw (close_replaced-fresh w conn p.device_id fresh) sent)))

  -- A device registers again, on another connection than before, in a registry with each device under
  -- its own id, and its response can be written. The old connection is told first, then the new one is
  -- answered, and then each entry under another id gets one presence.online with the id, type and key
  -- of the registration. The old connection is closed, and no other.
  pub reconnection :
      (now : Time) (rt : Router) (w : World) (conn : Conn) (req : JsonRpcRequest)
      (p : RegisterParams) (old : DeviceInfo)
      → Accepted env req p
      → IsWellFormed w.registry
      → lookup p.device_id w.registry ≡ some old
      → old.conn ≢ conn
      → env.delivers (length w.writes + 1) ≡ true
      → let o = handle_register env now rt w conn req in
        (o.world.writes
          ≡ w.writes
            ++ (old.conn, raw 8 (text "replaced by new connection"))
              ∷ (conn, welcome (length w.writes + 1) req)
              ∷ announcements p w)
        × (o.world.closed ≡ w.closed ++ old.conn ∷ [])
  reconnection now rt w conn req p old ok h held differs sent =
      rw (handle_register-Accepted now rt w conn req p ok) (
        total.0
            ∙ ap
                (λ n.
                  (told_and_closed w old.conn).writes ++ (conn, welcome n req) ∷ announcements p w)
                one_told
            ∙ append_assoc w.writes _ _,
        total.1,
      )
    where
      replaced : close_replaced env w p.device_id conn ≡ told_and_closed w old.conn
      replaced = close_replaced-held w conn p.device_id old held differs

      one_told : length (told_and_closed w old.conn).writes ≡ length w.writes + 1
      one_told = length-append w.writes _ ∙ omega arith

      total :
          ((complete_register env now conn req p w).world.writes
            ≡ (told_and_closed w old.conn).writes
              ++ (conn, welcome (length (told_and_closed w old.conn).writes) req)
                ∷ announcements p w)
          × ((complete_register env now conn req p w).world.closed ≡ w.closed ++ old.conn ∷ [])
      total = rw replaced at (
          writes-complete_register now w conn req p h
            (rw replaced (ap env.delivers one_told ∙ sent)))
