-- ===== src/Connections/Updates/Again.antt =====
-- NewConnectionUpdates on the state that the last refresh saved.
use steampipe.Prelude.{
  ◌≡◌, none, some, true, false, inr, ◌∙◌, arith, String, List, [], string_eq, refl, any, ◌==◌,
  nat_eq, sym, ℕ, ap,
}
use steampipe.Connections.{answer, ConnectionDataMap, Connection, ConnectionData}
use steampipe.Connections.State.{
  prune_each, StateFile, get_connection_state, load_connection_state_file, save_connection_state,
  prune_connection_state, parsed,
}
use steampipe.Connections.Updates.Compare.{
  ConnectionUpdates, new_connection_updates, populate_connection_plugins,
}
use steampipe.Connections.Updates.Needed.{new_connection_updates-Calls}
use steampipe.Connections.Updates.{
  Environment, get_schema_hashes_for_dynamic_schemas, new_connection_data_map,
}
use steampipe.Connections.Plugins.Created.{Values, Values-lookup}
use steampipe.Connections.Updates.Settled.{
  Entries, Similar, update_required-Similar, Entries-lookup, Similar-NodupKeys, Similar-lookup,
}
use steampipe.Prelude.Dict.{lookup, lookup-nil, Dict, NodupKeys}
use steampipe.Prelude.Options.{is_some}
use steampipe.Connections.Plugins.{create_connection_plugins}
use steampipe.Connections.Schemas.{new_connection_schema_map_for_connections}
use steampipe.Connections.Updates.Unchanged.{
  out_of_date-Settled, lookup-prune_each, Settled, delete_old-same, with_dynamic_schema-Settled,
  struct_version-Similar, update_required-Settled, settle_all, no_longer_required-Entries,
  prune_each-Entries,
}
use steampipe.Connections.Updates.New.{IsNew, new_connection_data_map-IsNew}

module _ (env : Environment) where
  open env use {sdk}

  -- With the plugin manager there, no plugins are made for no connections.
  abbrev pub AnswersNone : Type 0
  AnswersNone = (sdk.get_plugin_manager ≡ none) × (m : Dict String ℕ) × (sdk.get [] ≡ inr m)

  create_connection_plugins-nil :
      AnswersNone → create_connection_plugins sdk true [] ≡ answer ([], [])
  unfolding create_connection_plugins new_connection_schema_map_for_connections
  create_connection_plugins-nil (manager, m, got) = rw (manager, got) refl

  module _ (config : Dict String Connection) (file : StateFile) (names names' : List String)
      (u : ConnectionUpdates env) (warnings : List String) where
    -- The state that the second call reads, for the first call's `state`.
    current_again :
        (state : ConnectionDataMap) (n : String)
        → ((m : String) → is_some (lookup m state) ≡ true → any (λ x. x == m) names' ≡ true)
        → lookup n (prune_each state names' []) ≡ lookup n state
    current_again state n listed =
        lookup-prune_each state names' [] n
        ∙ ground (arith, listed n, lookup-nil {V = ConnectionData} n)

    -- The second call, once its state and what it requires are settled.
    new_connection_updates-Settled :
        (loaded current state : ConnectionDataMap) (missing : List String) (file' : StateFile)
        → AnswersNone
        → new_connection_data_map env config ≡ answer (loaded, missing)
        → get_connection_state file' names' ≡ answer current
        → Settled env current loaded state
        → Entries (λ n d. is_some (lookup n loaded) ≡ true) current
        → new_connection_updates env config file' names'
          ≡ answer (
            record {
              update = [];
              delete = [];
              missing_plugins = missing;
              required_connection_state = state;
              connection_plugins = [];
            },
            [],
          )
    unfolding new_connection_updates get_schema_hashes_for_dynamic_schemas
        populate_connection_plugins
    new_connection_updates-Settled loaded current state missing file' none_made e1 e2 settled
          entries =
        rw
          (
            e1,
            e2,
            with_dynamic_schema-Settled env current loaded state settled,
            create_connection_plugins-nil none_made,
            out_of_date-Settled env current loaded state [] settled,
            create_connection_plugins-nil none_made,
            update_required-Settled env current loaded state settled,
            no_longer_required-Entries env loaded current [] entries,
          )
          refl

    saved_again :
        (loaded state : ConnectionDataMap) (missing : List String)
        → Similar loaded state
        → NodupKeys loaded × Values (IsNew env) loaded
        → AnswersNone
        → new_connection_data_map env config ≡ answer (loaded, missing)
        → Values (λ d. (d.schema_mode == sdk.dynamic) ≡ false) state
        → ((n : String) → is_some (lookup n state) ≡ true → any (λ x. x == n) names' ≡ true)
        → new_connection_updates env config (save_connection_state state) names'
          ≡ answer (
            record {
              update = [];
              delete = [];
              missing_plugins = missing;
              required_connection_state = state;
              connection_plugins = [];
            },
            [],
          )
    unfolding get_connection_state load_connection_state_file save_connection_state
        prune_connection_state
    saved_again loaded state missing similar (nodup, new) none_made e static listed =
        let current = prune_each state names' [] in
        new_connection_updates-Settled loaded current state missing (parsed state) none_made e
          (rw (delete_old-same state (struct_version-Similar env loaded state similar new)) refl)
          (settle_all env current loaded state similar new (
            Entries-lookup
              (λ k v. (lookup k current ≡ some v) × ((v.schema_mode == sdk.dynamic) ≡ false)) state
              (Similar-NodupKeys loaded state similar nodup)
              (λ k v f. (
                current_again state k listed ∙ f,
                Values-lookup (λ d. (d.schema_mode == sdk.dynamic) ≡ false) k v state static f,
              ))))
          (prune_each-Entries (λ n d. is_some (lookup n loaded) ≡ true) state names' []
            (λ n d f. sym (Similar-lookup loaded state n similar) ∙ rw f refl) tt)

    -- NewConnectionUpdates, once it returned for a config of distinct names and its required state
    -- was saved with no dynamic schema in it, returns again, for the same config and plugin files, a
    -- plugin manager that answers and a database with the schemas of all that state: it updates and
    -- deletes nothing, makes no plugin and requires the very state that was saved.
    pub new_connection_updates-save_connection_state :
        NodupKeys config
        → AnswersNone
        → new_connection_updates env config file names ≡ answer (u, warnings)
        → Values (λ d. (d.schema_mode == sdk.dynamic) ≡ false) u.required_connection_state
        → ((n : String)
            → is_some (lookup n u.required_connection_state) ≡ true
            → any (λ x. x == n) names' ≡ true)
        → new_connection_updates env config
            (save_connection_state u.required_connection_state)
            names'
          ≡ answer (
            record {
              update = [];
              delete = [];
              missing_plugins = u.missing_plugins;
              required_connection_state = u.required_connection_state;
              connection_plugins = [];
            },
            [],
          )
    new_connection_updates-save_connection_state distinct none_made h static listed =
        let calls = new_connection_updates-Calls env config file names u warnings h in
        let at_state : u.required_connection_state ≡ calls.state =
          ap (λ (x : ConnectionUpdates env). x.required_connection_state) calls.result in
        let at_missing : u.missing_plugins ≡ calls.missing =
          ap (λ (x : ConnectionUpdates env). x.missing_plugins) calls.result in
        rw at_missing (
          saved_again calls.loaded u.required_connection_state calls.missing
            (rw at_state (
              update_required-Similar env calls.current calls.hashes calls.plugins calls.loaded
                calls.state calls.at_state))
            (new_connection_data_map-IsNew env config calls.loaded calls.missing distinct
              calls.at_loaded)
            none_made calls.at_loaded static listed)
