-- ===== src/Relay/Handler/Cleanup.antt =====
-- What the end of a connection leaves (cleanup, and ServeHTTP as a whole).
use pocketclaude.Base.{
  inr, GoString, str_eq, str_eq_iff, str_eq_refl, ◌≡◌, ◌≢◌, refl, ap, sym, ◌∙◌, true, false, Option,
  some, none, List, [], ◌∷◌, ◌++◌, arith, if◌then◌else◌, ◌==◌, option_split, if_split,
}
use pocketclaude.Base.GoMap.{lookup}
use pocketclaude.Relay.Protocol.{Time, JsonRpcRequest, RegisterParams}
use pocketclaude.Relay.Registry.{Conn, DeviceInfo, Registry, unregister}
use pocketclaude.Relay.Registry.Laws.{lookup-unregister, unless_owned}
use pocketclaude.Relay.Registry.Invariant.{IsValid, unregister-IsValid}
use pocketclaude.Relay.Net.{Env, World, write, close}
use pocketclaude.Relay.Net.Laws.{registry-post_all, closed-post_all}
use pocketclaude.Relay.Router.{Router, Outcome, new, handle_register}
use pocketclaude.Relay.Router.Invariant.{
  IsConsistent, IsSound, handle_text-IsSound, handle_binary-IsSound,
}
use pocketclaude.Relay.Router.Registration.{Accepted, device_of, registration}
use pocketclaude.Relay.Handler.{
  Arrival, handle_frame, read_loop, unregister_device, cleanup, serve_http,
}

unregister-none :
    (r : Registry) (id : GoString) (conn : Conn)
    → (unregister r id conn).1 ≡ none
    → r ≡ (unregister r id conn).0
unfolding unregister
unregister-none r id conn h = ground arith

module _ (env : Env) (conn : Conn) where
  registry-unregister_device :
      (rt : Router) (w : World)
      → (unregister_device env conn rt w).registry ≡ (unregister w.registry rt.device_id conn).0
  unfolding unregister_device
  registry-unregister_device rt w =
      option_split (λ (v : World). v.registry ≡ u.0) u.1
        (unregister-none w.registry rt.device_id conn) (λ d _. registry-post_all env _ _ _)
    where
      u : Registry × Option DeviceInfo
      u = unregister w.registry rt.device_id conn

  closed-unregister_device :
      (rt : Router) (w : World) → (unregister_device env conn rt w).closed ≡ w.closed
  unfolding unregister_device
  closed-unregister_device rt w =
      option_split (λ (v : World). v.closed ≡ w.closed) (unregister w.registry rt.device_id conn).1
        (λ _. refl) (λ d _. closed-post_all env _ _ _)

  registry-cleanup :
      (rt : Router) (w : World)
      → (cleanup env conn rt w).registry ≡ (
          if str_eq rt.device_id []
          then w.registry
          else (unregister w.registry rt.device_id conn).0)
  unfolding cleanup write close
  registry-cleanup rt w = ground (arith, registry-unregister_device rt w)

  -- The end of a connection closes it, and takes away the entry of its router's device exactly if
  -- that entry is still this connection's: not if the device has come back on another one. No other
  -- entry changes.
  pub cleanup_lem :
      (rt : Router) (w : World)
      → rt.device_id ≢ []
      → ((cleanup env conn rt w).closed ≡ w.closed ++ conn ∷ [])
        × ((j : GoString)
            → lookup j (cleanup env conn rt w).registry ≡ (
                if str_eq rt.device_id j
                then unless_owned conn (lookup j w.registry)
                else lookup j w.registry))
  unfolding cleanup write close
  cleanup_lem rt w ne = (
    ground (arith, closed-unregister_device rt w, str_eq_iff rt.device_id []),
    λ j. ground (
      arith,
      registry-unregister_device rt w,
      lookup-unregister w.registry rt.device_id conn j,
      str_eq_iff rt.device_id [],
    ),
  )

  pub cleanup-IsValid :
      (rt : Router) (w : World) → IsValid w.registry → IsValid (cleanup env conn rt w).registry
  cleanup-IsValid rt w h = rw (registry-cleanup rt w) (
      if_split IsValid (str_eq rt.device_id []) (λ _. h)
        (λ _. unregister-IsValid w.registry rt.device_id conn h))

  pub handle_frame-IsSound :
      (rt : Router) (w : World) (a : Arrival)
      → IsValid w.registry
      → IsConsistent rt
      → IsSound (handle_frame env conn rt w a)
  unfolding handle_frame
  handle_frame-IsSound rt w a h c =
      if_split IsSound (a.msg_type == 1) (λ _. handle_text-IsSound env rt w h c a.at conn a.bytes)
        λ _.
          if_split IsSound (a.msg_type == 2) (λ _. handle_binary-IsSound env rt w h c a.bytes)
            (λ _. record { registry_ok = h; router_ok = c })

  abbrev Sound : Router × World → Type 0
  Sound s = IsValid s.1.registry × IsConsistent s.0

  read_loop-Sound :
      (rt : Router) (w : World) (arrivals : List Arrival)
      → IsValid w.registry
      → IsConsistent rt
      → Sound (read_loop env conn rt w arrivals)
  unfolding read_loop
  read_loop-Sound rt w [] h c = (h, c)
  read_loop-Sound rt w (a ∷ rest) h c =
      elim (handle_frame env conn rt w a).keep_open
        as (λ b. Sound (elim b [
          | true ↦
              read_loop env conn (handle_frame env conn rt w a).router
                (handle_frame env conn rt w a).world rest
          | false ↦ ((handle_frame env conn rt w a).router, (handle_frame env conn rt w a).world)
        ])) [
          | true ↦
              read_loop-Sound (handle_frame env conn rt w a).router
                (handle_frame env conn rt w a).world rest one.registry_ok one.router_ok
          | false ↦ (one.registry_ok, one.router_ok)
        ]
    where
      one : IsSound (handle_frame env conn rt w a)
      one = handle_frame-IsSound rt w a h c

  -- A whole connection, whatever frames arrive on it, keeps the registry's invariant.
  pub serve_http-IsValid :
      (w : World) (arrivals : List Arrival)
      → IsValid w.registry
      → IsValid (serve_http env conn w arrivals).registry
  unfolding serve_http
  serve_http-IsValid w arrivals h =
      let s = read_loop env conn new w arrivals in
      cleanup-IsValid s.0 s.1 (read_loop-Sound new w arrivals h (inr (refl, refl))).0

  -- A connection that registers two devices, one after the other, leaves the first one behind when it
  -- ends: its entry still has the connection that is now closed.
  ghost_device :
      (now later : Time) (rt : Router) (w : World) (req req' : JsonRpcRequest)
      (p p' : RegisterParams)
      → Accepted env req p
      → Accepted env req' p'
      → p.device_id ≢ p'.device_id
      → let o = handle_register env now rt w conn req in
        let o' = handle_register env later o.router o.world conn req' in
        let end = cleanup env conn o'.router o'.world in
        (end.closed ≡ o'.world.closed ++ conn ∷ [])
        × (lookup p.device_id end.registry ≡ some (device_of p conn now))
  ghost_device now later rt w req req' p p' ok ok' differ = (
    ended.0,
    ended.1 p.device_id
        ∙ ground (
          arith,
          second.1 p.device_id,
          first.1 p.device_id,
          ap (λ (r : Router). r.device_id) second.0,
          str_eq_iff p'.device_id p.device_id,
          str_eq_refl p.device_id,
          differ,
        ),
  )
    where
      o : Outcome
      o = handle_register env now rt w conn req

      o' : Outcome
      o' = handle_register env later o.router o.world conn req'

      first :
          (o.router ≡ record { device_id = p.device_id; registered = true })
          × ((j : GoString)
              → lookup j o.world.registry ≡ (
                  if str_eq p.device_id j
                  then some (device_of p conn now)
                  else lookup j w.registry))
      first = let r = registration env now rt w conn req p ok in (r.0, r.1)

      second :
          (o'.router ≡ record { device_id = p'.device_id; registered = true })
          × ((j : GoString)
              → lookup j o'.world.registry ≡ (
                  if str_eq p'.device_id j
                  then some (device_of p' conn later)
                  else lookup j o.world.registry))
      second = let r = registration env later o.router o.world conn req' p' ok' in (r.0, r.1)

      ended :
          ((cleanup env conn o'.router o'.world).closed ≡ o'.world.closed ++ conn ∷ [])
          × ((j : GoString)
              → lookup j (cleanup env conn o'.router o'.world).registry ≡ (
                  if str_eq o'.router.device_id j
                  then unless_owned conn (lookup j o'.world.registry)
                  else lookup j o'.world.registry))
      ended =
          cleanup_lem o'.router o'.world
            (λ e. ok'.1 (sym (ap (λ (r : Router). r.device_id) second.0) ∙ e))
