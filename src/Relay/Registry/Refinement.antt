-- ===== src/Relay/Registry/Refinement.antt =====
-- The registry as a partial function from ids to devices.
use mathlib.Core.List.{Perm}
use mathlib.Core.List.Perm
use pocketclaude.Base.{
  GoString, str_eq, ◌≡◌, refl, ap, sym, ◌∙◌, Option, none, some, List, [], ◌∷◌, if◌then◌else◌, ◌==◌,
  option_split, if_split,
}
use pocketclaude.Base.GoMap.{lookup, Unique, insert-Unique, delete-Unique}
use pocketclaude.Relay.Protocol.{Time}
use pocketclaude.Relay.Registry.{
  Conn, DeviceInfo, Registry, new, register, unregister, get, update_last_seen, snapshot,
  list_online, list_online_by_type, size,
}
use pocketclaude.Relay.Registry.Laws.{
  lookup-register, owned_by, unregister-snd, unless_owned, lookup-unregister,
  lookup-update_last_seen,
}
use pocketclaude.Relay.Registry.Invariant.{touch-Unique}
use pocketclaude.Relay.Registry.Ordering.{filter-Perm, lookup-Perm, length-Perm}

abbrev pub Online : Type 0
Online = GoString → Option DeviceInfo

-- A call that changes the registry.
pub data Call : Type 0 where
  registers : GoString → GoString → GoString → Conn → Time → Call
  unregisters : GoString → Conn → Call
  touches : GoString → Time → Call

unfoldable pub perform : Call → Registry → Registry
perform (registers id ty key conn now) r = register r id ty key conn now
perform (unregisters id conn) r = (unregister r id conn).0
perform (touches id now) r = update_last_seen r id now

unfoldable pub perform_all : List Call → Registry → Registry
unfolding perform
perform_all [] r = r
perform_all (c ∷ cs) r = perform_all cs (perform c r)

abbrev pub entry : GoString → GoString → GoString → Conn → Time → DeviceInfo
entry id ty key conn now = record {
  device_id = id;
  device_type = ty;
  public_key = key;
  conn = conn;
  registered = now;
  last_seen = now;
}

-- The same call on the function.
abbrev pub meaning : Call → Online → Online
meaning (registers id ty key conn now) o j =
    if str_eq id j then some (entry id ty key conn now) else o j
meaning (unregisters id conn) o j = if str_eq id j then unless_owned conn (o j) else o j
meaning (touches id now) o j = elim (o j) [
  | none ↦ none
  | some dev ↦ some (if str_eq j id then record dev { last_seen = now } else dev)
]

abbrev pub meaning_of_all : List Call → Online → Online
meaning_of_all [] o = o
meaning_of_all (c ∷ cs) o = meaning_of_all cs (meaning c o)

perform-meaning :
    (c : Call) (r : Registry) (o : Online)
    → ((j : GoString) → lookup j r ≡ o j)
    → (j : GoString) → lookup j (perform c r) ≡ meaning c o j
unfolding perform
perform-meaning (registers id ty key conn now) r o same j =
    lookup-register r id ty key conn now j
    ∙ ap (λ d. if str_eq id j then some (entry id ty key conn now) else d) (same j)
perform-meaning (unregisters id conn) r o same j =
    lookup-unregister r id conn j
    ∙ ap (λ d. if str_eq id j then unless_owned conn d else d) (same j)
perform-meaning (touches id now) r o same j =
    lookup-update_last_seen r id now j
    ∙ ap {A = Option DeviceInfo}
        (λ d. elim d [
          | none ↦ none
          | some dev ↦ some (if str_eq j id then record dev { last_seen = now } else dev)
        ])
        (same j)

perform-Unique : (c : Call) (r : Registry) → Unique r → Unique (perform c r)
unfolding perform register unregister update_last_seen
perform-Unique (registers id ty key conn now) r u = insert-Unique id _ r u
perform-Unique (unregisters id conn) r u =
    option_split (λ (x : Registry × Option DeviceInfo). Unique x.0) (lookup id r) (λ _. u)
      (λ dev _.
        if_split (λ (x : Registry × Option DeviceInfo). Unique x.0) (dev.conn == conn)
          (λ _. delete-Unique id r u) (λ _. u))
perform-Unique (touches id now) r u =
    option_split Unique (lookup id r) (λ _. u) (λ _ _. touch-Unique id now r u)

perform_all-meaning :
    (cs : List Call) (r : Registry) (o : Online)
    → Unique r
    → ((j : GoString) → lookup j r ≡ o j)
    → Unique (perform_all cs r)
      × ((j : GoString) → lookup j (perform_all cs r) ≡ meaning_of_all cs o j)
unfolding perform_all
perform_all-meaning [] r o u same = (u, same)
perform_all-meaning (c ∷ cs) r o u same =
    perform_all-meaning cs (perform c r) (meaning c o) (perform-Unique c r u)
      (perform-meaning c r o same)

-- After any calls of Register, Unregister and UpdateLastSeen, the registry stands for the function
-- from ids to devices that the calls mean. Get and Unregister answer as the function says, and the
-- order of a range over the map decides nothing else: any map without a key twice that
-- stands for the same function has the same Size, and ListOnline and ListOnlineByType give the same
-- devices up to their order.
pub perform_all-Perm :
    (cs : List Call) (m : Registry)
    → Unique m
    → ((j : GoString) → lookup j m ≡ meaning_of_all cs (λ _. none) j)
    → let r = perform_all cs new in
      ((j : GoString) → get r j ≡ meaning_of_all cs (λ _. none) j)
      × ((j : GoString) (conn : Conn)
          → (unregister r j conn).1 ≡ owned_by conn (meaning_of_all cs (λ _. none) j))
      × (size r ≡ size m)
      × Perm (list_online r) (list_online m)
      × ((ty : GoString) → Perm (list_online_by_type r ty) (list_online_by_type m ty))
unfolding size list_online list_online_by_type lookup
perform_all-Perm cs m u same =
    let (unique, means) = perform_all-meaning cs new (λ _. none) tt (λ j. refl) in
    let r = perform_all cs new in
    let all : Perm r m = lookup-Perm r m unique u (λ j. means j ∙ sym (same j)) in
    let devices = Perm.map (λ e. e.1) all in
    (
      means,
      λ j conn. unregister-snd r j conn ∙ ap (owned_by conn) (means j),
      length-Perm all,
      Perm.map snapshot devices,
      λ ty. Perm.map snapshot (filter-Perm (λ dev. str_eq dev.device_type ty) devices),
    )
