-- ===== src/Agent/Plugins/Subscriptions.antt =====
-- Who hears an event, after registrations and removals.
use pocketclaude.Base.{
  ℕ, suc, GoString, str_eq, str_eq_iff, str_eq_refl, ◌≡◌, refl, ap, sym, ◌∙◌, false, none, some,
  List, [], ◌∷◌, ◌++◌, arith, if◌then◌else◌, append-nil, append_assoc, replicate, All,
}
use pocketclaude.Base.GoMap.{GoMap, lookup, insert, lookup-insert, lookup-delete}
use pocketclaude.Agent.Plugins.{
  Context, Plugin, Registry, subscribers, subscribe, register, cut_first, unsubscribe, unregister,
  answers, fire,
}

-- How often a hook is named.
pub count : GoString → List GoString → ℕ
count hook [] = 0
count hook (h ∷ hs) = if str_eq h hook then suc (count hook hs) else count hook hs

module _ {D : Type 0} where
  subscribers-insert :
      (k j : GoString) (ps : List (Plugin D)) (m : GoMap (List (Plugin D)))
      → subscribers j (insert k ps m) ≡ (if str_eq k j then ps else subscribers j m)
  unfolding subscribers
  subscribers-insert k j ps m = ground (arith, lookup-insert k j ps m)

  snoc-replicate :
      (ps : List (Plugin D)) (p : Plugin D) (n : ℕ)
      → (ps ++ p ∷ []) ++ replicate n p ≡ ps ++ replicate (suc n) p
  snoc-replicate ps p n = append_assoc ps (p ∷ []) (replicate n p)

  subscribers-subscribe :
      (p : Plugin D) (hs : List GoString) (m : GoMap (List (Plugin D))) (j : GoString)
      → subscribers j (subscribe p hs m) ≡ subscribers j m ++ replicate (count j hs) p
  unfolding subscribe count
  subscribers-subscribe p [] m j = sym (append-nil (subscribers j m))
  subscribers-subscribe p (h ∷ hs) m j =
      subscribers-subscribe p hs (insert h (subscribers h m ++ p ∷ []) m) j
      ∙ ground (
        arith,
        subscribers-insert h j (subscribers h m ++ p ∷ []) m,
        snoc-replicate (subscribers j m) p (count j hs),
        str_eq_iff h j,
      )

  -- None of these plugins has this id.
  abbrev pub Without : GoString → List (Plugin D) → Type 0
  Without id = All (λ p. str_eq p.info.id id ≡ false)

  cut_first-append :
      (p : Plugin D) (ps qs : List (Plugin D))
      → Without p.info.id ps
      → cut_first p.info.id (ps ++ p ∷ qs) ≡ some (ps ++ qs)
  unfolding cut_first
  cut_first-append p [] qs h = ground (arith, str_eq_refl p.info.id)
  cut_first-append p (q ∷ ps) qs h = ground (arith, cut_first-append p ps qs h.1, h.0)

  -- Removing one subscription for each named hook takes away one for each naming.
  subscribers-unsubscribe :
      (p : Plugin D) (hs : List GoString) (m : GoMap (List (Plugin D)))
      (old extra : GoString → List (Plugin D))
      → ((j : GoString) → Without p.info.id (old j))
      → ((j : GoString) → subscribers j m ≡ old j ++ (replicate (count j hs) p ++ extra j))
      → (j : GoString) → subscribers j (unsubscribe p.info.id hs m) ≡ old j ++ extra j
  unfolding unsubscribe count
  subscribers-unsubscribe p [] m old extra clean now j = now j
  subscribers-unsubscribe p (h ∷ hs) m old extra clean now j =
      rw (found, unsubscribe)
        (subscribers-unsubscribe p hs (insert h left m) old extra clean rest j)
    where
      left : List (Plugin D)
      left = old h ++ (replicate (count h hs) p ++ extra h)

      counted : count h (h ∷ hs) ≡ suc (count h hs)
      counted = ground (arith, str_eq_refl h)

      found : cut_first p.info.id (subscribers h m) ≡ some left
      found =
          ap (cut_first p.info.id) (now h ∙ ap (λ n. old h ++ (replicate n p ++ extra h)) counted)
          ∙ cut_first-append p (old h) (replicate (count h hs) p ++ extra h) (clean h)

      rest :
          (i : GoString)
          → subscribers i (insert h left m) ≡ old i ++ (replicate (count i hs) p ++ extra i)
      rest i = ground (arith, subscribers-insert h i left m, now i, str_eq_iff h i)

  answers-append :
      (ctx : Context D) (ps qs : List (Plugin D))
      → answers ctx (ps ++ qs) ≡ answers ctx ps ++ answers ctx qs
  unfolding answers
  answers-append ctx [] qs = refl
  answers-append ctx (p ∷ ps) qs = ground (arith, answers-append ctx ps qs)

  fire_lem :
      (r : Registry D) (hook : GoString) (ctx : Context D)
      → fire r hook ctx ≡ answers (record ctx { hook = hook }) (subscribers hook r.hooks)
  unfolding fire subscribers
  fire_lem r hook ctx = ground arith

  abbrev pub own_answers : Plugin D → GoString → Context D → List D
  own_answers p hook ctx =
      answers (record ctx { hook = hook }) (replicate (count hook p.info.hooks) p)

  -- After a registration an event is answered as before, and then by the new plugin, once for each
  -- time that its manifest names the hook: whether or not its OnLoad failed.
  pub fire-register :
      (r : Registry D) (p : Plugin D) (hook : GoString) (ctx : Context D)
      → fire (register r p).0 hook ctx ≡ fire r hook ctx ++ own_answers p hook ctx
  unfolding register
  fire-register r p hook ctx =
      fire_lem (register r p).0 hook ctx
      ∙ ap (answers (record ctx { hook = hook }))
          (subscribers-subscribe p p.info.hooks r.hooks hook)
      ∙ answers-append (record ctx { hook = hook }) (subscribers hook r.hooks) _
      ∙ ap (λ l. l ++ own_answers p hook ctx) (sym (fire_lem r hook ctx))

  hooks-unregister :
      (r : Registry D) (p : Plugin D)
      → lookup p.info.id r.plugins ≡ some p
      → (unregister r p.info.id).hooks ≡ unsubscribe p.info.id p.info.hooks r.hooks
  unfolding unregister
  hooks-unregister r p found = ground (arith, found)

  plugin-register :
      (r : Registry D) (p : Plugin D) → lookup p.info.id (register r p).0.plugins ≡ some p
  unfolding register
  plugin-register r p =
      lookup-insert p.info.id p.info.id p r.plugins ∙ ground (arith, str_eq_refl p.info.id)

  fire-unregister :
      (r : Registry D) (p : Plugin D) (hook : GoString) (ctx : Context D)
      (old extra : GoString → List (Plugin D))
      → lookup p.info.id r.plugins ≡ some p
      → ((j : GoString) → Without p.info.id (old j))
      → ((j : GoString)
          → subscribers j r.hooks ≡ old j ++ (replicate (count j p.info.hooks) p ++ extra j))
      → fire (unregister r p.info.id) hook ctx
        ≡ answers (record ctx { hook = hook }) (old hook ++ extra hook)
  fire-unregister r p hook ctx old extra found clean now =
      fire_lem (unregister r p.info.id) hook ctx
      ∙ ap (answers (record ctx { hook = hook })) (
          ap (subscribers hook) (hooks-unregister r p found)
          ∙ subscribers-unsubscribe p p.info.hooks r.hooks old extra clean now hook)

  subscribers-register :
      (r : Registry D) (p : Plugin D) (j : GoString)
      → subscribers j (register r p).0.hooks
        ≡ subscribers j r.hooks ++ replicate (count j p.info.hooks) p
  unfolding register
  subscribers-register r p j = subscribers-subscribe p p.info.hooks r.hooks j

  plugins-unregister : (r : Registry D) (id : GoString) → lookup id (unregister r id).plugins ≡ none
  unfolding unregister
  plugins-unregister r id = ground (arith, lookup-delete id id r.plugins, str_eq_refl id)

  -- A plugin that is registered and removed again leaves no trace in any event, if no subscriber had
  -- its id before.
  pub fire-unregister-register :
      (r : Registry D) (p : Plugin D) (hook : GoString) (ctx : Context D)
      → ((j : GoString) → Without p.info.id (subscribers j r.hooks))
      → fire (unregister (register r p).0 p.info.id) hook ctx ≡ fire r hook ctx
  fire-unregister-register r p hook ctx clean =
      fire-unregister (register r p).0 p hook ctx (λ j. subscribers j r.hooks) (λ _. [])
        (plugin-register r p) clean
        (λ j.
          subscribers-register r p j
          ∙ ap (◌++◌ (subscribers j r.hooks))
              (sym (append-nil (replicate (count j p.info.hooks) p))))
      ∙ ap (answers (record ctx { hook = hook })) (append-nil (subscribers hook r.hooks))
      ∙ sym (fire_lem r hook ctx)

  -- A plugin that is registered twice and removed once is gone from the list of plugins, and is still
  -- sent every event of its hooks.
  registered_twice_survives :
      (r : Registry D) (p : Plugin D) (hook : GoString) (ctx : Context D)
      → ((j : GoString) → Without p.info.id (subscribers j r.hooks))
      → let r' = unregister (register (register r p).0 p).0 p.info.id in
        (lookup p.info.id r'.plugins ≡ none)
        × (fire r' hook ctx ≡ fire r hook ctx ++ own_answers p hook ctx)
  registered_twice_survives r p hook ctx clean = (
    plugins-unregister twice p.info.id,
    fire-unregister twice p hook ctx (λ j. subscribers j r.hooks)
          (λ j. replicate (count j p.info.hooks) p) (plugin-register (register r p).0 p) clean
          (λ j.
            subscribers-register (register r p).0 p j
            ∙ ap (λ l. l ++ replicate (count j p.info.hooks) p) (subscribers-register r p j)
            ∙ append_assoc (subscribers j r.hooks) _ _)
        ∙ answers-append (record ctx { hook = hook }) (subscribers hook r.hooks) _
        ∙ ap (λ l. l ++ own_answers p hook ctx) (sym (fire_lem r hook ctx)),
  )
    where
      twice : Registry D
      twice = (register (register r p).0 p).0
