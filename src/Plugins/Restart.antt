-- ===== src/Plugins/Restart.antt =====
-- plugin_manager.go: a request that finds a plugin whose process is gone.

use steampipe.Plugins.{
  check_pid, start_plugin, store_client_to_map, PluginManager, ConnectionConfig, starting, launched,
  storing, failed, nil_pointer,
}
use steampipe.Prelude.{string_eq, String, ℕ, ◌≡◌, some, false, none, ◌∙◌, ==_refl, refl}
use steampipe.Prelude.Dict.{lookup, erase, lookup-erase}

-- A request finds that the process of a plugin is gone, and its connection has a config. The
-- request removes the plugin from the map and goes on to start a new process. If no other request
-- comes in between, the new client cannot be stored: the request fails by a nil pointer, the map
-- has no entry for the connection, and the heap of plugins is as before.
restart-nil_pointer :
    (m : PluginManager) (c : String) (p pid new : ℕ) (config : ConnectionConfig)
    → (m.heap p).reattach ≡ some pid
    → lookup c m.connection_config ≡ some config
    → (let m' = (check_pid false c p m).0 in
        ((check_pid false c p m).1 ≡ starting c)
        × (start_plugin (λ _. launched new) c m' ≡ storing c new)
        × (store_client_to_map c new m' ≡ (m', failed nil_pointer))
        × (lookup c m'.plugins ≡ none)
        × (m'.heap ≡ m.heap))
unfolding check_pid start_plugin store_client_to_map
restart-nil_pointer m c p pid new config running configured =
    let gone : lookup c (erase c m.plugins) ≡ none = lookup-erase c c m.plugins ∙ rw (==_refl c) in
    rw (running, configured, gone) (refl, refl, refl, refl, refl)
