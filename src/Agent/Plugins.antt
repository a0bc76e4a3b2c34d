-- ===== src/Agent/Plugins.antt =====
-- agent/internal/plugin/plugin.go. A plugin is what its four methods do; `D` is map[string]any.
pub mod Dispatch
pub mod Subscriptions
use pocketclaude.Base.{
  ℕ, zero, suc, GoString, text, str_eq, Bool, true, false, Option, none, some, List, [], ◌∷◌, ◌++◌,
  if◌then◌else◌, map,
}
use pocketclaude.Base.GoMap.{GoMap, lookup, insert, delete, values}

pub record Manifest : Type 0 where
  pub id : GoString
  pub name : GoString
  pub version : GoString
  pub description : GoString
  pub author : GoString
  pub hooks : List GoString

pub record Context (D : Type 0) : Type 0 where
  pub hook : GoString
  pub session_id : GoString
  pub context_data : D

-- OnHook returns an error, nil, or data.
pub data Answer (D : Type 0) : Type 0 where
  failed nothing : Answer D
  produced : D → Answer D

-- `on_load` is whether OnLoad returns nil.
pub record Plugin (D : Type 0) : Type 0 where
  pub info : Manifest
  pub on_load : Bool
  pub on_hook : Context D → Answer D

-- `unloaded` lists the calls of OnUnload, by the ids of the plugins.
pub record Registry (D : Type 0) : Type 0 where
  pub plugins : GoMap (Plugin D)
  pub hooks : GoMap (List (Plugin D))
  pub unloaded : List GoString

module _ {D : Type 0} where
  abbrev pub new_registry : Registry D
  new_registry = record { plugins = []; hooks = []; unloaded = [] }

  -- r.hooks[hook], which is nil where there is none.
  unfoldable pub subscribers : GoString → GoMap (List (Plugin D)) → List (Plugin D)
  subscribers hook hooks = elim (lookup hook hooks) [ none ↦ [] | some ps ↦ ps ]

  unfoldable pub subscribe :
      Plugin D → List GoString → GoMap (List (Plugin D)) → GoMap (List (Plugin D))
  unfolding subscribers
  subscribe p [] hooks = hooks
  subscribe p (hook ∷ rest) hooks =
      subscribe p rest (insert hook (subscribers hook hooks ++ p ∷ []) hooks)

  -- The registry, and whether OnLoad returned nil.
  unfoldable pub register : Registry D → Plugin D → Registry D × Bool
  unfolding subscribe
  register r p = (
    record r { plugins = insert p.info.id p r.plugins; hooks = subscribe p p.info.hooks r.hooks },
    p.on_load,
  )

  -- The slice without its first plugin of this id; `none` if there is none.
  unfoldable pub cut_first : GoString → List (Plugin D) → Option (List (Plugin D))
  cut_first id [] = none
  cut_first id (p ∷ ps) =
      let rest = cut_first id ps in
      if str_eq p.info.id id then some ps else elim rest [ none ↦ none | some qs ↦ some (p ∷ qs) ]

  unfoldable pub unsubscribe :
      GoString → List GoString → GoMap (List (Plugin D)) → GoMap (List (Plugin D))
  unfolding subscribers cut_first
  unsubscribe id [] hooks = hooks
  unsubscribe id (hook ∷ rest) hooks =
      unsubscribe id rest (elim (cut_first id (subscribers hook hooks)) [
        | none ↦ hooks
        | some ps ↦ insert hook ps hooks
      ])

  unfoldable pub unregister : Registry D → GoString → Registry D
  unfolding unsubscribe
  unregister r id = elim (lookup id r.plugins) [
    | none ↦ r
    | some p ↦ record {
      plugins = delete id r.plugins;
      hooks = unsubscribe id p.info.hooks r.hooks;
      unloaded = r.unloaded ++ id ∷ [];
    }
  ]

  -- The data that the plugins produce, in the order of their subscription.
  unfoldable pub answers : Context D → List (Plugin D) → List D
  answers ctx [] = []
  answers ctx (p ∷ ps) =
      let rest = answers ctx ps in
      elim (p.on_hook ctx) [ failed ↦ rest | nothing ↦ rest | produced d ↦ d ∷ rest ]

  unfoldable pub fire : Registry D → GoString → Context D → List D
  unfolding answers
  fire r hook ctx = elim (lookup hook r.hooks) [
    | none ↦ []
    | some ps ↦ answers (record ctx { hook = hook }) ps
  ]

  unfoldable pub list_manifests : Registry D → List Manifest
  list_manifests r = map (λ p. p.info) (values r.plugins)
