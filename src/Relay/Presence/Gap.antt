-- ===== src/Relay/Presence/Gap.antt =====
-- The gap between the scan of a presence check and its removals, in which the registry is not locked.
use mathlib.Core.Option.{map}
use pocketclaude.Base.{
  GoString, text, str_eq, str_eq_iff, ◌-◌, ltb, ◌==◌, ◌≡◌, ◌≢◌, refl, ap, ◌∙◌, ◌⊎◌, Bool, false,
  Option, some, none, List, [], ◌∷◌, if◌then◌else◌, All, arith,
}
use pocketclaude.Base.GoMap.{lookup, Unique}
use pocketclaude.Relay.Protocol.{Time}
use pocketclaude.Relay.Registry.{Conn, DeviceInfo, Registry, register, update_last_seen}
use pocketclaude.Relay.Registry.Laws.{lookup-register, lookup-update_last_seen}
use pocketclaude.Relay.Registry.Invariant.{
  IsWellFormed, IsValid, register-IsValid, update_last_seen-IsValid,
}
use pocketclaude.Relay.Net.{Env, World}
use pocketclaude.Relay.Presence.{stale_threshold, is_stale, scan, sweep}
use pocketclaude.Relay.Presence.Liveness.{claimed, swept, lookup-sweep, claimed-scan-none}
use pocketclaude.Relay.Presence.Schedule.{sweep-IsValid}

-- The two halves of a check, a heartbeat, and a registration.
pub data Moment : Type 0 where
  scans : Time → Moment
  sweeps : Moment
  beats : GoString → Time → Moment
  registers : GoString → GoString → GoString → Conn → Time → Moment

-- A registration has an id and one of the two types.
abbrev pub IsAccepted : Moment → Type 0
IsAccepted (scans now) = Unit
IsAccepted sweeps = Unit
IsAccepted (beats id now) = Unit
IsAccepted (registers id ty key conn now) = (id ≢ []) × ((ty ≡ text "agent") ⊎ (ty ≡ text "client"))

-- What counts of one device: its connection and when it was last seen, if it is online, and the
-- connection that the last scan found stale.
pub record Standing : Type 0 where
  pub entry : Option (Conn × Time)
  pub doomed : Option Conn

abbrev pub is_doomed : Option Conn → Conn → Bool
is_doomed none conn = false
is_doomed (some stale) conn = conn == stale

abbrev pub found_stale : Time → Option (Conn × Time) → Option Conn
found_stale now none = none
found_stale now (some (conn, last)) = if ltb stale_threshold (now - last) then some conn else none

abbrev pub spared : Option Conn → Option (Conn × Time) → Option (Conn × Time)
spared stale none = none
spared stale (some (conn, last)) = if is_doomed stale conn then none else some (conn, last)

abbrev pub seen_at : GoString → GoString → Time → Option (Conn × Time) → Option (Conn × Time)
seen_at j id now none = none
seen_at j id now (some (conn, last)) = some (conn, if str_eq j id then now else last)

abbrev pub standing_after : GoString → Moment → Standing → Standing
standing_after j (scans now) s = record { entry = s.entry; doomed = found_stale now s.entry }
standing_after j sweeps s = record { entry = spared s.doomed s.entry; doomed = none }
standing_after j (beats id now) s = record s { entry = seen_at j id now s.entry }
standing_after j (registers id ty key conn now) s = record s {
  entry = if str_eq id j then some (conn, now) else s.entry;
}

abbrev pub standing_after_all : GoString → List Moment → Standing → Standing
standing_after_all j [] s = s
standing_after_all j (e ∷ es) s = standing_after_all j es (standing_after j e s)

abbrev pub online_entry : GoString → Registry → Option (Conn × Time)
online_entry j r = map (λ (d : DeviceInfo). (d.conn, d.last_seen)) (lookup j r)

claimed-scan_lem :
    (now : Time) (r : Registry) (j : GoString) (conn : Conn)
    → IsWellFormed r
    → Unique r
    → claimed j conn (scan now r) ≡ is_doomed (found_stale now (online_entry j r)) conn
unfolding claimed scan lookup is_stale
claimed-scan_lem now [] j conn h u = refl
claimed-scan_lem now ((k, d) ∷ r) j conn h u = ground (
  arith,
  claimed-scan_lem now r j conn h.1 u.1,
  claimed-scan-none now r j conn h.1,
  h.0.keyed,
  u.0,
  str_eq_iff k j,
)

touched :
    (j id : GoString) (now : Time) (o : Option DeviceInfo)
    → map
        (λ (d : DeviceInfo). (d.conn, d.last_seen))
        (elim o [
          | none ↦ none
          | some dev ↦ some (if str_eq j id then record dev { last_seen = now } else dev)
        ])
      ≡ seen_at j id now (map (λ (d : DeviceInfo). (d.conn, d.last_seen)) o)
touched j id now none = refl
touched j id now (some dev) = ground arith

module _ (env : Env) where
  -- The world, and the devices that the last scan has found and that are still to be removed.
  unfoldable pub pass : Moment → World × List DeviceInfo → World × List DeviceInfo
  pass (scans now) (w, stale) = (w, scan now w.registry)
  pass sweeps (w, stale) = (sweep env stale w, [])
  pass (beats id now) (w, stale) =
      (record w { registry = update_last_seen w.registry id now }, stale)
  pass (registers id ty key conn now) (w, stale) =
      (record w { registry = register w.registry id ty key conn now }, stale)

  unfoldable pub pass_all : List Moment → World × List DeviceInfo → World × List DeviceInfo
  unfolding pass
  pass_all [] x = x
  pass_all (e ∷ es) x = pass_all es (pass e x)

  -- The standing of a device is what the registry and the scanned devices say of it.
  record Matches (j : GoString) (x : World × List DeviceInfo) (s : Standing) : Type 0 where
    valid : IsValid x.0.registry
    entries : online_entry j x.0.registry ≡ s.entry
    doom : (conn : Conn) → claimed j conn x.1 ≡ is_doomed s.doomed conn

  spared_lem :
      (j : GoString) (stale : List DeviceInfo) (o : Option DeviceInfo) (d : Option Conn)
      → ((conn : Conn) → claimed j conn stale ≡ is_doomed d conn)
      → map (λ (d : DeviceInfo). (d.conn, d.last_seen)) (swept j stale o)
        ≡ spared d (map (λ (d : DeviceInfo). (d.conn, d.last_seen)) o)
  spared_lem j stale none d h = refl
  spared_lem j stale (some dev) d h = ground (arith, h dev.conn)

  pass-Matches :
      (e : Moment) (j : GoString) (x : World × List DeviceInfo) (s : Standing)
      → IsAccepted e
      → Matches j x s
      → Matches j (pass e x) (standing_after j e s)
  unfolding pass claimed
  pass-Matches (scans now) j (w, stale) s ok m = record {
    valid = m.valid;
    entries = m.entries;
    doom = λ conn.
        claimed-scan_lem now w.registry j conn m.valid.0 m.valid.1
        ∙ ap (λ o. is_doomed (found_stale now o) conn) m.entries;
  }
  pass-Matches sweeps j (w, stale) s ok m = record {
    valid = sweep-IsValid env stale w m.valid;
    entries =
        ap (map (λ (d : DeviceInfo). (d.conn, d.last_seen))) (lookup-sweep env stale w j)
        ∙ spared_lem j stale (lookup j w.registry) s.doomed m.doom
        ∙ ap (spared s.doomed) m.entries;
    doom = λ conn. refl;
  }
  pass-Matches (beats id now) j (w, stale) s ok m = record {
    valid = update_last_seen-IsValid w.registry id now m.valid;
    entries =
        ap (map (λ (d : DeviceInfo). (d.conn, d.last_seen)))
          (lookup-update_last_seen w.registry id now j)
        ∙ touched j id now (lookup j w.registry)
        ∙ ap (seen_at j id now) m.entries;
    doom = m.doom;
  }
  pass-Matches (registers id ty key conn now) j (w, stale) s ok m = record {
    valid = register-IsValid w.registry id ty key conn now ok.0 ok.1 m.valid;
    entries =
        ap (map (λ (d : DeviceInfo). (d.conn, d.last_seen)))
          (lookup-register w.registry id ty key conn now j)
        ∙ ground (arith, m.entries);
    doom = m.doom;
  }

  pass_all-Matches :
      (es : List Moment) (j : GoString) (x : World × List DeviceInfo) (s : Standing)
      → All IsAccepted es
      → Matches j x s
      → Matches j (pass_all es x) (standing_after_all j es s)
  unfolding pass_all
  pass_all-Matches [] j x s ok m = m
  pass_all-Matches (e ∷ es) j x s ok m =
      pass_all-Matches es j (pass e x) (standing_after j e s) ok.1 (pass-Matches e j x s ok.0 m)

  -- Whatever registrations, heartbeats and presence checks happen, also between the scan of a check and
  -- its removals, where other goroutines can run: a device is online at the end, on its connection
  -- and with the time it was last seen, exactly as its own registrations and heartbeats decide with the
  -- times of the scans. A removal spares it if it has another connection than at the scan, and does not
  -- if it was only seen since. No other device has a part in it.
  pub online_entry-pass_all :
      (es : List Moment) (w : World) (j : GoString)
      → All IsAccepted es
      → IsValid w.registry
      → online_entry j (pass_all es (w, [])).0.registry
        ≡ (standing_after_all j es
            (record { entry = online_entry j w.registry; doomed = none })).entry
  unfolding claimed
  online_entry-pass_all es w j ok valid =
      (pass_all-Matches es j (w, []) _ ok
        (record { valid = valid; entries = refl; doom = λ conn. refl })).entries
