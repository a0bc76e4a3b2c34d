-- ===== src/Agent/SessionStore/Persistence.antt =====
-- What a store that is loaded again knows of the store that was written.
use pocketclaude.Base.{
  ℕ, GoString, str_eq, str_eq_iff, ◌≡◌, ◌≢◌, refl, ap, ◌∙◌, Bool, true, false, Option, none, some,
  List, [], ◌∷◌, arith, if◌then◌else◌, Option-cases, option_split, inl, inr,
}
use pocketclaude.Base.GoMap.{
  GoMap, lookup, insert, delete, values, lookup-insert, lookup-delete, Every, Every-insert,
  Every-delete, Unique, insert-Unique, delete-Unique,
}
use pocketclaude.Agent.SessionStore.{
  StoredSession, FileRead, missing, unreadable, bytes, StoreIo, SessionStore, load_all, load_bytes,
  load, write_locked, put, delete_session, new_session_store,
}

-- Each session stands under its own id, and no id stands twice.
abbrev pub IsKeyed : GoMap StoredSession → Type 0
IsKeyed m = Every (λ id ss. ss.id ≡ id) m × Unique m

-- What the documentation of encoding/json and os promises: a list that was marshalled is read back,
-- its bytes are not empty, and a file that was written is read as it was written.
pub record IsReliable {D : Type 0} (io : StoreIo D) : Type 0 where
  pub coded :
      (l : List StoredSession) (b : GoString) → io.marshal l ≡ some b → io.unmarshal b ≡ some l
  pub not_empty : (l : List StoredSession) (b : GoString) → io.marshal l ≡ some b → b ≢ []
  pub written :
      (disk : D) (b : GoString) → (io.write disk b).1 ≡ true → io.read (io.write disk b).0 ≡ bytes b

lookup-load_all :
    (m acc : GoMap StoredSession) (j : GoString)
    → IsKeyed m
    → lookup j (load_all acc (values m))
      ≡ elim (lookup j m) [ none ↦ lookup j acc | some ss ↦ some ss ]
unfolding load_all lookup
lookup-load_all [] acc j h = refl
lookup-load_all ((k, ss) ∷ m) acc j h =
    lookup-load_all m (insert ss.id ss acc) j (h.0.1, h.1.1)
    ∙ ground (arith, lookup-insert ss.id j ss acc, str_eq_iff k j, str_eq_iff ss.id j, h.0.0, h.1.0)

put-IsKeyed :
    (now : ℕ) (ss : StoredSession) (m : GoMap StoredSession)
    → IsKeyed m
    → IsKeyed (insert ss.id (record ss { last_seen_at = now }) m)
put-IsKeyed now ss m h =
    (Every-insert (λ id s. s.id ≡ id) ss.id _ m refl h.0, insert-Unique ss.id _ m h.1)

delete-IsKeyed : (id : GoString) (m : GoMap StoredSession) → IsKeyed m → IsKeyed (delete id m)
delete-IsKeyed id m h = (Every-delete (λ i s. s.id ≡ i) id m h.0, delete-Unique id m h.1)

load_all-IsKeyed :
    (acc : GoMap StoredSession) (l : List StoredSession) → IsKeyed acc → IsKeyed (load_all acc l)
unfolding load_all
load_all-IsKeyed acc [] h = h
load_all-IsKeyed acc (ss ∷ l) h =
    load_all-IsKeyed (insert ss.id ss acc) l
      (Every-insert (λ id s. s.id ≡ id) ss.id ss acc refl h.0, insert-Unique ss.id ss acc h.1)

module _ {D : Type 0} (io : StoreIo D) where
  load_bytes-IsKeyed :
      (st : SessionStore) (b : GoString)
      → IsKeyed st.sessions
      → IsKeyed (load_bytes io st b).0.sessions
  unfolding load_bytes
  load_bytes-IsKeyed st [] h = h
  load_bytes-IsKeyed st (c ∷ b) h =
      option_split (λ (r : SessionStore × Bool). IsKeyed r.0.sessions) (io.unmarshal (c ∷ b))
        (λ _. h) (λ l _. load_all-IsKeyed [] l (tt, tt))

  pub load-IsKeyed :
      (st : SessionStore) (disk : D) → IsKeyed st.sessions → IsKeyed (load io st disk).0.sessions
  unfolding load
  load-IsKeyed st disk h = loaded (io.read disk)
    where
      loaded :
          (r : FileRead)
          → IsKeyed
              (elim r as (λ _. SessionStore × Bool) [
                | missing ↦ (st, true)
                | unreadable ↦ (st, false)
                | bytes found ↦ load_bytes io st found
              ]).0.sessions
      loaded missing = h
      loaded unreadable = h
      loaded (bytes found) = load_bytes-IsKeyed st found h

  write_locked-fine :
      (st : SessionStore) (disk : D)
      → (write_locked io st disk).fine ≡ true
      → (b : GoString) × (io.marshal (values st.sessions) ≡ some b)
        × ((io.write (io.mkdir_all disk).0 b).1 ≡ true)
        × ((write_locked io st disk).disk ≡ (io.write (io.mkdir_all disk).0 b).0)
  unfolding write_locked
  write_locked-fine st disk fine = elim (Option-cases (io.marshal (values st.sessions))) [
    | inl e ↦ cc (rw (e, write_locked) at fine)
    | inr (b, e) ↦ (b, e, ground (arith, e, fine), ground (arith, e, fine))
  ]

  load_bytes-some :
      (st : SessionStore) (b : GoString) (l : List StoredSession)
      → b ≢ []
      → io.unmarshal b ≡ some l
      → load_bytes io st b ≡ (record { sessions = load_all [] l }, true)
  unfolding load_bytes
  load_bytes-some st [] l ne e = absurd (ne refl)
  load_bytes-some st (c ∷ b) l ne e = rw (e, load_bytes)

  load-bytes :
      (st : SessionStore) (disk : D) (b : GoString)
      → io.read disk ≡ bytes b
      → load io st disk ≡ load_bytes io st b
  unfolding load
  load-bytes st disk b e = rw (e, load)

module _ {D : Type 0} (io : StoreIo D) (sure : IsReliable io) where
  load-write_locked :
      (st : SessionStore) (disk : D) (j : GoString)
      → IsKeyed st.sessions
      → (write_locked io st disk).fine ≡ true
      → let again = load io new_session_store (write_locked io st disk).disk in
        (again.1 ≡ true) × (lookup j again.0.sessions ≡ lookup j st.sessions)
  load-write_locked st disk j keyed fine =
      let (b, coded, wrote, disk') = write_locked-fine io st disk fine in
      rw
        (
          load-bytes io new_session_store (write_locked io st disk).disk b
              (ap io.read disk' ∙ sure.written (io.mkdir_all disk).0 b wrote),
          load_bytes-some io new_session_store b (values st.sessions)
              (sure.not_empty (values st.sessions) b coded)
              (sure.coded (values st.sessions) b coded),
        )
        (refl, lookup-load_all st.sessions [] j keyed ∙ tidy (lookup j st.sessions))
    where
      tidy : (o : Option StoredSession) → elim o [ none ↦ lookup j [] | some ss ↦ some ss ] ≡ o
      tidy none = unfold lookup in refl
      tidy (some ss) = refl

  -- The coding and the disk are reliable, and the store has each session once, under its own id.
  -- After a Put that returned no error, an agent that starts anew and loads the file finds every
  -- session as this store has it, the new one with the time of the Put.
  pub load-put :
      (now : ℕ) (ss : StoredSession) (st : SessionStore) (disk : D) (j : GoString)
      → IsKeyed st.sessions
      → (put io now ss st disk).fine ≡ true
      → let again = load io new_session_store (put io now ss st disk).disk in
        (again.1 ≡ true)
        × (lookup j again.0.sessions ≡ (
            if str_eq ss.id j
            then some (record ss { last_seen_at = now })
            else lookup j st.sessions))
  unfolding put
  load-put now ss st disk j keyed fine =
      let r =
        load-write_locked
          (record { sessions = insert ss.id (record ss { last_seen_at = now }) st.sessions }) disk j
          (put-IsKeyed now ss st.sessions keyed) fine in
      (r.0, r.1 ∙ lookup-insert ss.id j _ st.sessions)

  -- The coding and the disk are reliable, and the store has each session once, under its own id.
  -- After a Delete that returned no error, an agent that starts anew and loads the file finds every
  -- other session as this store has it, and not the deleted one.
  pub load-delete :
      (id : GoString) (st : SessionStore) (disk : D) (j : GoString)
      → IsKeyed st.sessions
      → (delete_session io id st disk).fine ≡ true
      → let again = load io new_session_store (delete_session io id st disk).disk in
        (again.1 ≡ true)
        × (lookup j again.0.sessions ≡ (if str_eq id j then none else lookup j st.sessions))
  unfolding delete_session
  load-delete id st disk j keyed fine =
      let r =
        load-write_locked (record { sessions = delete id st.sessions }) disk j
          (delete-IsKeyed id st.sessions keyed) fine in
      (r.0, r.1 ∙ lookup-delete id j st.sessions)
