-- ===== src/Relay/System.antt =====
-- The relay as a whole: any number of connections, each with its router, over one registry, and the
-- presence checks (relay/cmd/main.go puts them together). A step is one frame, one end of a
-- connection, one heartbeat scan's removal, or a new connection; the environment chooses the order.
use pocketclaude.Base.{
  ◌≡◌, refl, Option, none, some, [], arith, if◌then◌else◌, ◌==◌, Bool-cases, inl, inr, if_split,
}
use mathlib.Core.Path.{subst}
use mathlib.Core.Option.{some-injective}
use pocketclaude.Relay.Registry.{new as empty_registry, Conn, DeviceInfo}
use pocketclaude.Relay.Registry.Invariant.{IsValid, unregister-IsValid}
use pocketclaude.Relay.Net.{Env, World}
use pocketclaude.Relay.Router.{Router, Outcome, new as new_router}
use pocketclaude.Relay.Router.Invariant.{IsConsistent, IsSound}
use pocketclaude.Relay.Presence.{remove_stale}
use pocketclaude.Relay.Presence.Liveness.{registry-remove_stale}
use pocketclaude.Relay.Handler.{Arrival, handle_frame, cleanup}
use pocketclaude.Relay.Handler.Cleanup.{handle_frame-IsSound, cleanup-IsValid}

-- The router of each open connection.
abbrev pub Routers : Type 0
Routers = Conn → Option Router

pub record System : Type 0 where
  pub world : World
  pub routers : Routers

abbrev pub boot : System
boot = record {
  world = record { registry = empty_registry; writes = []; closed = [] };
  routers = λ _. none;
}

abbrev pub assign : Routers → Conn → Option Router → Routers
assign rs c rt d = if c == d then rt else rs d

module _ (env : Env) where
  -- The world and the routers after a frame: a handler that gives up ends its connection.
  unfoldable pub settle : Routers → Conn → Outcome → System
  settle rs c o =
      if o.keep_open
      then record { world = o.world; routers = assign rs c (some o.router) }
      else record { world = cleanup env c o.router o.world; routers = assign rs c none }

  pub data Step : System → System → Type 0 where
    accept :
        (s : System) (c : Conn)
        → s.routers c ≡ none
        → Step s (record s { routers = assign s.routers c (some new_router) })
    receive :
        (s : System) (c : Conn) (rt : Router) (a : Arrival)
        → s.routers c ≡ some rt
        → Step s (settle s.routers c (handle_frame env c rt s.world a))
    hang_up :
        (s : System) (c : Conn) (rt : Router)
        → s.routers c ≡ some rt
        → Step s (record { world = cleanup env c rt s.world; routers = assign s.routers c none })
    -- One round of the loop over the stale devices; `dev` is of an earlier scan.
    expire :
        (s : System) (dev : DeviceInfo) → Step s (record s { world = remove_stale env dev s.world })

  pub data Reach : System → Type 0 where
    here : Reach boot
    next : {s t : System} → Reach s → Step s t → Reach t

  pub record IsSafe (s : System) : Type 0 where
    pub registry_ok : IsValid s.world.registry
    pub routers_ok : (c : Conn) (rt : Router) → s.routers c ≡ some rt → IsConsistent rt

  assign-ok :
      (rs : Routers) (c : Conn) (o : Option Router)
      → ((d : Conn) (rt : Router) → rs d ≡ some rt → IsConsistent rt)
      → ((rt : Router) → o ≡ some rt → IsConsistent rt)
      → (d : Conn) (rt : Router) → assign rs c o d ≡ some rt
      → IsConsistent rt
  assign-ok rs c o all new d rt e = elim (Bool-cases (c == d)) [
    | inl hit ↦ new rt (ground (arith, hit, e))
    | inr miss ↦ all d rt (ground (arith, miss, e))
  ]

  settle-IsSafe :
      (rs : Routers) (c : Conn) (o : Outcome)
      → ((d : Conn) (rt : Router) → rs d ≡ some rt → IsConsistent rt)
      → IsSound o
      → IsSafe (settle rs c o)
  unfolding settle
  settle-IsSafe rs c o all h =
      if_split IsSafe o.keep_open
        (λ _. record {
          registry_ok = h.registry_ok;
          routers_ok =
              assign-ok rs c (some o.router) all
                (λ rt e. subst IsConsistent (some-injective _ _ e) h.router_ok);
        })
        (λ _. record {
          registry_ok = cleanup-IsValid env c o.router o.world h.registry_ok;
          routers_ok = assign-ok rs c none all (λ rt e. cc);
        })

  Step-IsSafe : {s t : System} → Step s t → IsSafe s → IsSafe t
  Step-IsSafe (accept s c free) h = record {
    registry_ok = h.registry_ok;
    routers_ok =
        assign-ok s.routers c (some new_router) h.routers_ok
          (λ rt e. subst IsConsistent (some-injective _ _ e) (inr (refl, refl)));
  }
  Step-IsSafe (receive s c rt a open_) h =
      settle-IsSafe s.routers c _ h.routers_ok
        (handle_frame-IsSound env c rt s.world a h.registry_ok (h.routers_ok c rt open_))
  Step-IsSafe (hang_up s c rt open_) h = record {
    registry_ok = cleanup-IsValid env c rt s.world h.registry_ok;
    routers_ok = assign-ok s.routers c none h.routers_ok (λ rt e. cc);
  }
  Step-IsSafe (expire s dev) h = record {
    registry_ok =
        rw (registry-remove_stale env dev s.world)
          (unregister-IsValid s.world.registry dev.device_id dev.conn h.registry_ok);
    routers_ok = h.routers_ok;
  }

  -- In every state that the relay reaches, under any order of connections, frames, hang-ups and
  -- removals of stale devices: no id is registered twice; each entry stands under the id of its
  -- device, which is not empty, and is an agent or a client; and each open connection's router has a
  -- device id exactly if it is registered.
  pub Reach-IsSafe : {s : System} → Reach s → IsSafe s
  Reach-IsSafe here = record { registry_ok = (tt, tt); routers_ok = λ c rt e. cc }
  Reach-IsSafe (next r st) = Step-IsSafe st (Reach-IsSafe r)
