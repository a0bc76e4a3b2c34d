-- ===== src/Relay/Registry/Invariant.antt =====
-- The invariant of the registry, and that each of its operations keeps it.
use pocketclaude.Base.{
  GoString, text, ◌≡◌, ◌≢◌, ◌⊎◌, refl, Option, [], ◌∷◌, arith, option_split, if_split, ◌==◌,
}
use pocketclaude.Base.GoMap.{
  lookup, delete, Every, Every-insert, Every-delete, Unique, insert-Unique, delete-Unique,
}
use pocketclaude.Relay.Protocol.{Time}
use pocketclaude.Relay.Registry.{
  Conn, DeviceInfo, Registry, register, unregister, touch, update_last_seen,
}
use pocketclaude.Relay.Registry.Laws.{Every-touch, lookup-touch}

-- The entry stands under the id of its device, which is not empty, and is an agent or a client.
pub record IsEntry (k : GoString) (dev : DeviceInfo) : Type 0 where
  pub keyed : dev.device_id ≡ k
  pub named : k ≢ []
  pub typed : (dev.device_type ≡ text "agent") ⊎ (dev.device_type ≡ text "client")

abbrev pub IsWellFormed : Registry → Type 0
IsWellFormed = Every IsEntry

-- Moreover no id stands twice.
abbrev pub IsValid : Registry → Type 0
IsValid r = IsWellFormed r × Unique r

pub register-IsValid :
    (r : Registry) (id ty key : GoString) (conn : Conn) (now : Time)
    → id ≢ []
    → (ty ≡ text "agent") ⊎ (ty ≡ text "client")
    → IsValid r
    → IsValid (register r id ty key conn now)
unfolding register
register-IsValid r id ty key conn now ne kind h = (
  Every-insert IsEntry id _ r (record { keyed = refl; named = ne; typed = kind }) h.0,
  insert-Unique id _ r h.1,
)

delete-IsValid : (r : Registry) (id : GoString) → IsValid r → IsValid (delete id r)
delete-IsValid r id h = (Every-delete IsEntry id r h.0, delete-Unique id r h.1)

pub unregister-IsValid :
    (r : Registry) (id : GoString) (conn : Conn) → IsValid r → IsValid (unregister r id conn).0
unfolding unregister
unregister-IsValid r id conn h =
    option_split (λ (u : Registry × Option DeviceInfo). IsValid u.0) (lookup id r) (λ _. h)
      λ dev _.
        if_split (λ (u : Registry × Option DeviceInfo). IsValid u.0) (dev.conn == conn)
          (λ _. delete-IsValid r id h) (λ _. h)

pub touch-Unique : (id : GoString) (now : Time) (r : Registry) → Unique r → Unique (touch id now r)
unfolding touch
touch-Unique id now [] u = tt
touch-Unique id now ((k, dev) ∷ r) u =
    ground (arith, touch-Unique id now r u.1, lookup-touch id now r k)

pub update_last_seen-IsValid :
    (r : Registry) (id : GoString) (now : Time) → IsValid r → IsValid (update_last_seen r id now)
unfolding update_last_seen
update_last_seen-IsValid r id now h =
    option_split IsValid (lookup id r) (λ _. h)
      λ _ _. (
        Every-touch IsEntry id now r
            (λ k dev e. record { keyed = e.keyed; named = e.named; typed = e.typed }) h.0,
        touch-Unique id now r h.1,
      )
