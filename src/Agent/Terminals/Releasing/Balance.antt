-- ===== src/Agent/Terminals/Releasing/Balance.antt =====
-- That every process, PTY and console that is started is released, and once only.
use mathlib.Core.Path.{subst, ap₂}
use mathlib.Core.Option.{some-injective}
use mathlib.Core.List.{Perm, perm_append_comm}
use mathlib.Core.List.Perm
use pocketclaude.Base.{
  ℕ, GoString, text, str_eq, str_eq_iff, ◌≡◌, refl, ap, sym, ◌∙◌, Bool-cases, false, Option,
  Option-cases, option_split, none, some, inl, inr, List, [], ◌∷◌, ◌++◌, append-nil, append_assoc,
  if◌then◌else◌,
}
use pocketclaude.Base.GoMap.{
  GoMap, lookup, insert, delete, delete-none, values, Every, Every-delete, lookup-Every, Unique,
  delete-Unique,
}
use pocketclaude.Agent.SessionStore.{StoreIo, put, delete_session}
use pocketclaude.Agent.Terminals.{
  Session, Host, Manager, Effect, start_session, blank, stored_of, entered_at, handles, release,
  create_session, enter_session, destroy_open, destroy_session, close_all, all_handles,
}
use pocketclaude.Agent.Terminals.Lifecycle.{
  effects-with_store, started-fields, create_session-some, destroy_session_lem,
  destroy_session-open, destroy_session-none, sessions-with_store,
}
use pocketclaude.Agent.Terminals.Releasing.{
  released, filter-append, released-handles, released-release,
}

swap_first : (xs ys zs : List Effect) → Perm (xs ++ (ys ++ zs)) (ys ++ (xs ++ zs))
swap_first xs ys zs =
    subst (λ l. Perm l (ys ++ (xs ++ zs))) (append_assoc xs ys zs)
      (subst (λ l. Perm ((xs ++ ys) ++ zs) l) (append_assoc ys xs zs)
        (Perm.append_right zs (perm_append_comm xs ys)))

module _ {D : Type 0} (io : StoreIo D) (host : Host) where
  -- The handles that the sessions of a map hold.
  abbrev pub held : GoMap Session → List Effect
  held m = all_handles io host (values m)

  -- An entry that a lookup finds can be released first.
  handles-delete :
      (id : GoString) (s : Session) (m : GoMap Session)
      → Unique m
      → lookup id m ≡ some s
      → Perm (handles s ++ held (delete id m)) (held m)
  unfolding lookup delete all_handles
  handles-delete id s [] u h = absurd cc
  handles-delete id s ((j, t) ∷ m) u h = elim (Bool-cases (str_eq j id)) [
    | inl hit ↦
        (let own : id ≡ j = sym ((str_eq_iff j id).0 hit) in
          let found : s ≡ t = sym (some-injective _ _ (rw (hit, lookup) at h)) in
          let alone : lookup id m ≡ none = ap (λ i. lookup i m) own ∙ u.0 in
          rw (hit) (
            subst (λ l. Perm (handles s ++ held (delete id m)) l)
              (ap₂ (λ s m. handles s ++ held m) found (delete-none id m alone)) Perm.rfl))
    | inr miss ↦ rw (miss) (
        Perm.trans (swap_first (handles s) (handles t) (held (delete id m)))
          (Perm.append_left (handles t) (handles-delete id s m u.1 (rw (miss, lookup) at h))))
  ]

  pub record IsBalanced (m : Manager D) (started : List Effect) : Type 0 where
    pub once : Unique m.sessions
    pub open_ : Every (λ id s. s.closed ≡ false) m.sessions
    pub balance : Perm started (released m.effects ++ held m.sessions)

  pub fields-IsBalanced :
      (m : Manager D) (started : List Effect) (ss : GoMap Session) (es : List Effect)
      → m.sessions ≡ ss
      → m.effects ≡ es
      → Unique ss
      → Every (λ id s. s.closed ≡ false) ss
      → Perm started (released es ++ held ss)
      → IsBalanced m started
  fields-IsBalanced m started ss es same effects once open_ balance = record {
    once = subst Unique (sym same) once;
    open_ = subst (Every (λ id s. s.closed ≡ false)) (sym same) open_;
    balance =
        subst (λ l. Perm started l) (ap₂ (λ es ss. released es ++ held ss) (sym effects) (sym same))
          balance;
  }

  pub created-IsBalanced :
      (m : Manager D) (started : List Effect) (id : GoString) (now : ℕ)
      (project_dir command : GoString) (s : Session)
      → IsBalanced m started
      → lookup id m.sessions ≡ none
      → (create_session io host id now project_dir command m).1 ≡ some s
      → IsBalanced (create_session io host id now project_dir command m).0 (handles s ++ started)
  unfolding enter_session insert all_handles
  created-IsBalanced m started id now project_dir command s b fresh made =
      let (found, after) = create_session-some io host id now project_dir command m s made in
      let (own, run, dir, open_s) = started-fields io host m.use_tmux _ s found in
      let stores = put io (entered_at host now) (stored_of io host s now) in
      fields-IsBalanced _ _ ((id, s) ∷ m.sessions) m.effects
        (ap (λ (m : Manager D). m.sessions) after
          ∙ sessions-with_store io host stores _
          ∙ ap (λ i. insert i s m.sessions) own
          ∙ ap (◌∷◌ (id, s)) (delete-none id m.sessions fresh))
        (ap (λ (m : Manager D). m.effects) after ∙ effects-with_store io host stores _)
        (fresh, b.once) (open_s, b.open_)
        (Perm.trans (Perm.append_left (handles s) b.balance)
          (swap_first (handles s) (released m.effects) (held m.sessions)))

  pub failed-fields :
      (m : Manager D) (id : GoString) (now : ℕ) (project_dir command : GoString)
      → (create_session io host id now project_dir command m).1 ≡ none
      → let m' = (create_session io host id now project_dir command m).0 in
        (m'.sessions ≡ m.sessions) × (m'.effects ≡ m.effects)
  unfolding create_session
  failed-fields m id now project_dir command failed =
      let run = if str_eq command [] then text "claude" else command in
      option_split
        (λ (r : Manager D × Option Session).
          r.1 ≡ none → (r.0.sessions ≡ m.sessions) × (r.0.effects ≡ m.effects))
        (start_session io host m.use_tmux (blank id run project_dir now)).0 (λ _ _. (refl, refl))
        (λ s _ h. absurd cc) failed

  pub failed-IsBalanced :
      (m : Manager D) (started : List Effect) (id : GoString) (now : ℕ)
      (project_dir command : GoString)
      → IsBalanced m started
      → (create_session io host id now project_dir command m).1 ≡ none
      → IsBalanced (create_session io host id now project_dir command m).0 started
  failed-IsBalanced m started id now project_dir command b failed =
      let (same, effects) = failed-fields m id now project_dir command failed in
      fields-IsBalanced _ _ m.sessions m.effects same effects b.once b.open_ b.balance

  pub destroyed-IsBalanced :
      (m : Manager D) (started : List Effect) (id : GoString)
      → IsBalanced m started
      → IsBalanced (destroy_session io host id m).0 started
  unfolding destroy_open
  destroyed-IsBalanced m started id b = elim (Option-cases (lookup id m.sessions)) [
    | inl missing ↦
        subst (λ (r : Manager D × Option Session). IsBalanced r.0 started)
          (sym (destroy_session-none io host id m missing)) b
    | inr (s, found) ↦
        (let open_s = lookup-Every (λ id s. s.closed ≡ false) id m.sessions b.open_ found in
          fields-IsBalanced _ _ (delete id m.sessions) (m.effects ++ release id s)
            (ap (λ (r : Manager D × Option Session). r.0.sessions)
                (destroy_session-open io host id m s found open_s)
              ∙ sessions-with_store io host (delete_session io id) _)
            (destroy_session_lem io host id m s id found open_s).0
            (delete-Unique id m.sessions b.once)
            (Every-delete (λ id s. s.closed ≡ false) id m.sessions b.open_)
            (Perm.trans b.balance (
              subst (λ l. Perm (released m.effects ++ held m.sessions) l)
                (sym (append_assoc (released m.effects) (handles s) (held (delete id m.sessions)))
                  ∙ ap (λ l. l ++ held (delete id m.sessions))
                      (ap (λ l. released m.effects ++ l) (sym (released-release id s))
                        ∙ sym (filter-append m.effects (release id s))))
                (Perm.append_left (released m.effects)
                  (Perm.symm (handles-delete id s m.sessions b.once found))))))
  ]

  released-all_handles :
      (ss : List Session) → released (all_handles io host ss) ≡ all_handles io host ss
  unfolding all_handles
  released-all_handles [] = refl
  released-all_handles (s ∷ ss) =
      filter-append (handles s) (all_handles io host ss)
      ∙ ap₂ (λ x y. x ++ y) (released-handles s) (released-all_handles ss)

  pub released-close_all :
      (m : Manager D)
      → released (close_all io host m).effects ≡ released m.effects ++ held m.sessions
  unfolding close_all
  released-close_all m =
      filter-append m.effects (all_handles io host (values m.sessions))
      ∙ ap (released m.effects ++◌) (released-all_handles (values m.sessions))

  pub closed-IsBalanced :
      (m : Manager D) (started : List Effect)
      → IsBalanced m started
      → IsBalanced (close_all io host m) started
  unfolding close_all all_handles
  closed-IsBalanced m started b =
      fields-IsBalanced _ _ [] _ refl refl tt tt
        (subst (λ l. Perm started l) (sym (released-close_all m) ∙ sym (append-nil _)) b.balance)
