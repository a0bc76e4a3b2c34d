-- ===== src/Agent/Sessions/Safety.antt =====
-- The channels of a session manager over its whole life.
use pocketclaude.Base.{
  ℕ, ◌+◌, ◌≤◌, GoString, str_eq, ◌≡◌, refl, ap, ◌∙◌, Bool, false, Option, none, some, List, [], ◌∷◌,
  ◌++◌, arith, if◌then◌else◌, if_split, option_split,
}
use pocketclaude.Base.GoMap.{GoMap, lookup, insert, delete, Unique, insert-Unique, delete-Unique}
use pocketclaude.Agent.SessionStore.{StoreIo}
use pocketclaude.Agent.Terminals.{get_session, Host, Manager as Terminals}
use pocketclaude.Agent.Sessions.{
  SessionInfo, Chan, Event, made, Manager, new_manager, subs_of, put_subs, cut_chan, has_chan,
  create, destroy, subscribe_output, unsubscribe_output, broadcast_output, close_all,
}
use pocketclaude.Agent.Sessions.Channels.{
  run, count, total, Closes, close_list, close_subs-Closes, run-append, run-broadcast_to,
  total-delete, total-insert, count-cons, count-other, count-append, count-cut_chan,
  cut_chan-Closes, total-put_subs, put_subs-Unique, has_chan-zero,
}

module _ {D : Type 0} (io : StoreIo D) (host : Host) where
  -- The operations, as any number of callers interleave them: each holds the manager's lock where it
  -- touches a channel.
  pub data Step : Manager D → Manager D → Type 0 where
    creating :
        (id : GoString) (now : ℕ) (project_dir command : GoString) (m : Manager D)
        → Step m (create io host id now project_dir command m).0
    destroying : (id : GoString) (m : Manager D) → Step m (destroy io host id m).0
    subscribing : (id : GoString) (m : Manager D) → Step m (subscribe_output io host id m).0
    unsubscribing :
        (id : GoString) (ch : Chan) (m : Manager D) → Step m (unsubscribe_output io host id ch m)
    broadcasting :
        (room : Chan → Bool) (id chunk : GoString) (m : Manager D)
        → Step m (broadcast_output io host room id chunk m)
    closing : (m : Manager D) → Step m (close_all io host m)

  pub data Reach (terminals : Terminals D) : Manager D → Type 0 where
    start : Reach terminals (new_manager terminals)
    next_step : (m n : Manager D) → Reach terminals m → Step m n → Reach terminals n

-- The events so far do not panic, and the open channels are the subscribed ones, each as often as it
-- is subscribed.
abbrev pub IsBalanced : GoMap (List Chan) → List Event → Type 0
IsBalanced subs events =
    (open_ : List Chan) × (run events [] ≡ some open_) × ((c : Chan) → count c open_ ≡ total c subs)

pub record IsSound {D : Type 0} (m : Manager D) : Type 0 where
  pub balanced : IsBalanced m.output_subs m.events
  pub unique : Unique m.output_subs
  pub fresh : (c : Chan) → m.next ≤ c → total c m.output_subs ≡ 0

-- Events that close what leaves the map keep the balance.
Closes-IsBalanced :
    (subs subs' : GoMap (List Chan)) (events more : List Event) (gone : Chan → ℕ)
    (b : IsBalanced subs events)
    → Closes more b.0 gone
    → ((c : Chan) → total c subs ≡ total c subs' + gone c)
    → IsBalanced subs' (events ++ more)
Closes-IsBalanced subs subs' events more gone (open_, ran, counts) (left, ran', counts') leaves = (
  left,
  run-append events more [] open_ ran ∙ ran',
  λ c. omega (arith, counts c, counts' c, leaves c),
)

module _ {D : Type 0} (io : StoreIo D) (host : Host) where
  create-IsSound :
      (id : GoString) (now : ℕ) (project_dir command : GoString) (m : Manager D)
      → IsSound m
      → IsSound (create io host id now project_dir command m).0
  unfolding create
  create-IsSound id now project_dir command m h =
      if_split (λ (r : Manager D × Option SessionInfo). IsSound r.0) (str_eq project_dir [])
        (λ _. h) (λ _. record { balanced = h.balanced; unique = h.unique; fresh = h.fresh })

  destroy-IsSound : (id : GoString) (m : Manager D) → IsSound m → IsSound (destroy io host id m).0
  unfolding destroy
  destroy-IsSound id m h = record {
    balanced =
        Closes-IsBalanced m.output_subs (delete id m.output_subs) m.events _
          (λ c. count c (subs_of id m.output_subs)) h.balanced
          (close_list (subs_of id m.output_subs) h.balanced.0
            (λ c. omega (arith, h.balanced.2 c, total-delete c id m.output_subs h.unique)))
          (λ c. total-delete c id m.output_subs h.unique);
    unique = delete-Unique id m.output_subs h.unique;
    fresh = λ c le. omega (arith, h.fresh c le, total-delete c id m.output_subs h.unique);
  }

  broadcast-IsSound :
      (room : Chan → Bool) (id chunk : GoString) (m : Manager D)
      → IsSound m
      → IsSound (broadcast_output io host room id chunk m)
  unfolding broadcast_output
  broadcast-IsSound room id chunk m h = record {
    balanced = (
      h.balanced.0,
      run-append m.events _ [] h.balanced.0 h.balanced.1
          ∙ run-broadcast_to room chunk (subs_of id m.output_subs) h.balanced.0
              (λ c. omega (arith, h.balanced.2 c, total-delete c id m.output_subs h.unique)),
      h.balanced.2,
    );
    unique = h.unique;
    fresh = h.fresh;
  }

  close_all-IsSound : (m : Manager D) → IsSound m → IsSound (close_all io host m)
  unfolding close_all total
  close_all-IsSound m h = record {
    balanced =
        Closes-IsBalanced m.output_subs [] m.events _ (λ c. total c m.output_subs) h.balanced
          (close_subs-Closes m.output_subs h.balanced.0 (λ c. omega (arith, h.balanced.2 c)))
          (λ c. omega arith);
    unique = tt;
    fresh = λ c le. refl;
  }

  subscribe-IsSound :
      (id : GoString) (m : Manager D) → IsSound m → IsSound (subscribe_output io host id m).0
  unfolding subscribe_output run
  subscribe-IsSound id m h =
      option_split (λ (r : Manager D × Option Chan). IsSound r.0)
        (get_session io host m.terminals id) (λ _. h)
        (λ s _. record {
          balanced = (
            m.next ∷ h.balanced.0,
            run-append m.events (made m.next ∷ []) [] h.balanced.0 h.balanced.1
                ∙ rw (unused, run) refl,
            λ c. omega (arith, h.balanced.2 c, added c, count-cons c m.next h.balanced.0),
          );
          unique = insert-Unique id _ m.output_subs h.unique;
          fresh = λ c le.
              omega (arith, h.fresh c (omega (arith, le)), added c, count-other c m.next le);
        })
    where
      unused : has_chan m.next h.balanced.0 ≡ false
      unused =
          has_chan-zero m.next h.balanced.0
            (omega (arith, h.balanced.2 m.next, h.fresh m.next (omega arith)))

      added :
          (c : Chan)
          → total c (insert id (subs_of id m.output_subs ++ m.next ∷ []) m.output_subs)
            ≡ total c m.output_subs + count c (m.next ∷ [])
      added c = omega (
        arith,
        total-insert c id (subs_of id m.output_subs ++ m.next ∷ []) m.output_subs,
        count-append c (subs_of id m.output_subs) (m.next ∷ []),
        total-delete c id m.output_subs h.unique,
      )

  unsubscribe-IsSound :
      (id : GoString) (ch : Chan) (m : Manager D)
      → IsSound m
      → IsSound (unsubscribe_output io host id ch m)
  unfolding unsubscribe_output
  unsubscribe-IsSound id ch m h =
      option_split (λ (r : Manager D). IsSound r) (lookup id m.output_subs) (λ _. h)
        (λ subs found. record {
          balanced =
              Closes-IsBalanced m.output_subs (put_subs id (cut_chan ch subs) m.output_subs)
                m.events _ _ h.balanced
                (cut_chan-Closes ch subs h.balanced.0
                  (λ c. omega (arith, h.balanced.2 c, held subs found c)))
                (left subs found);
          unique = put_subs-Unique id (cut_chan ch subs) m.output_subs h.unique;
          fresh = λ c le. omega (arith, h.fresh c le, left subs found c);
        })
    where
      held :
          (subs : List Chan)
          → lookup id m.output_subs ≡ some subs
          → (c : Chan) → total c m.output_subs ≡ total c (delete id m.output_subs) + count c subs
      held subs found c =
          total-delete c id m.output_subs h.unique
          ∙ ap
              (λ o. total c (delete id m.output_subs) + count c (elim o [ none ↦ [] | some l ↦ l ]))
              found

      left :
          (subs : List Chan)
          → lookup id m.output_subs ≡ some subs
          → (c : Chan)
          → total c m.output_subs
            ≡ total c (put_subs id (cut_chan ch subs) m.output_subs)
              + (if has_chan ch subs then count c (ch ∷ []) else 0)
      left subs found c = omega (
        arith,
        held subs found c,
        count-cut_chan c ch subs,
        total-put_subs c id (cut_chan ch subs) m.output_subs,
      )

  Step-IsSound : (m n : Manager D) → Step io host m n → IsSound m → IsSound n
  Step-IsSound _ _ (creating id now project_dir command m) h =
      create-IsSound id now project_dir command m h
  Step-IsSound _ _ (destroying id m) h = destroy-IsSound id m h
  Step-IsSound _ _ (subscribing id m) h = subscribe-IsSound id m h
  Step-IsSound _ _ (unsubscribing id ch m) h = unsubscribe-IsSound id ch m h
  Step-IsSound _ _ (broadcasting room id chunk m) h = broadcast-IsSound room id chunk m h
  Step-IsSound _ _ (closing m) h = close_all-IsSound m h

  -- Whatever the callers do, in any order, and whichever buffers are full: only an open channel is
  -- closed or sent on, so that nothing panics; a channel is open exactly as often as it is subscribed,
  -- so that none is left open; no session stands twice in the map; and no channel that is still to be
  -- made is subscribed.
  pub Reach-IsSound :
      (terminals : Terminals D) (m : Manager D) → Reach io host terminals m → IsSound m
  unfolding run count total
  Reach-IsSound terminals _ start = record {
    balanced = ([], refl, λ c. refl);
    unique = tt;
    fresh = λ c le. refl;
  }
  Reach-IsSound terminals _ (next_step m n r step) =
      Step-IsSound m n step (Reach-IsSound terminals m r)
