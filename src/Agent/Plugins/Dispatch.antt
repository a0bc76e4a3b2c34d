-- ===== src/Agent/Plugins/Dispatch.antt =====
-- HandleRPC of agent/internal/plugin/plugin.go. `id_of` is json.Unmarshal at the type of the request.
use pocketclaude.Base.{GoString, text, str_eq, Option, none, some, List, if◌then◌else◌}
use pocketclaude.Base.GoMap.{lookup}
use pocketclaude.Agent.Rpc.{Rpc, result, failed, invalid_params, unknown_method}
use pocketclaude.Agent.Plugins.{Manifest, Registry, list_manifests}

pub data PluginResult : Type 0 where
  manifests : List Manifest → PluginResult
  manifest : Manifest → PluginResult

pub data PluginError : Type 0 where
  plugin_not_found : GoString → PluginError

module _ {D : Type 0} (id_of : GoString → Option GoString) where
  unfoldable pub handle_rpc : GoString → GoString → Registry D → Rpc PluginResult PluginError
  handle_rpc method params r =
      if str_eq method (text "plugin.list")
      then result (manifests (list_manifests r))
      else if str_eq method (text "plugin.info")
      then elim (id_of params) [
        | none ↦ invalid_params
        | some id ↦ elim (lookup id r.plugins) [
          | none ↦ failed (plugin_not_found id)
          | some p ↦ result (manifest p.info)
        ]
      ]
      else unknown_method
