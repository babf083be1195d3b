-- ===== src/Connections/Updates/Needed.antt =====
-- What NewConnectionUpdates wants to be updated and deleted.
use steampipe.Prelude.{[], ◌≡◌, String, List, ◌∙◌, ap, sym}
use steampipe.Connections.{answer, Connection, ConnectionDataMap}
use steampipe.Connections.Updates.Compare.{
  update_required_state_with_schema_properties, new_connection_updates, no_longer_required, updated,
  ConnectionUpdates, populate_connection_plugins,
}
use steampipe.Connections.Updates.{
  Environment, PluginMap, new_connection_data_map, get_schema_hashes_for_dynamic_schemas,
}
use steampipe.Prelude.Dict.{Dict}
use steampipe.Connections.State.{StateFile, get_connection_state}
use steampipe.Connections.Updates.Loaded.{>>=-eq-answer}

pub answer_injective {ℓ} : {A : Type ℓ} (a b : A) → answer a ≡ answer b → a ≡ b
answer_injective a b h = cc

module _ (env : Environment) (config : Dict String Connection) (file : StateFile)
    (names : List String) where
  open env use {sdk, format_int}

  -- The calls of NewConnectionUpdates that returned, and what they returned.
  pub record Calls (u : ConnectionUpdates env) (warnings : List String) : Type 0 where
    pub loaded : ConnectionDataMap
    pub missing : List String
    pub current : ConnectionDataMap
    pub hashes : Dict String String
    pub created : PluginMap sdk
    pub plugins : PluginMap sdk
    pub state : ConnectionDataMap
    pub at_loaded : new_connection_data_map env config ≡ answer (loaded, missing)
    pub at_current : get_connection_state file names ≡ answer current
    pub at_hashes :
        get_schema_hashes_for_dynamic_schemas env loaded current ≡ answer (hashes, created)
    pub at_plugins :
        populate_connection_plugins env (updated env loaded current hashes) created
        ≡ answer (plugins, warnings)
    pub at_state :
        update_required_state_with_schema_properties env current hashes plugins loaded
        ≡ answer state
    pub result : u ≡ record {
      update = updated env loaded current hashes;
      delete = no_longer_required env loaded current [];
      missing_plugins = missing;
      required_connection_state = state;
      connection_plugins = plugins;
    }

  pub new_connection_updates-Calls :
      (u : ConnectionUpdates env) (warnings : List String)
      → new_connection_updates env config file names ≡ answer (u, warnings)
      → Calls u warnings
  unfolding new_connection_updates
  new_connection_updates-Calls u warnings h =
      let ((loaded, missing), e1, h1) = >>=-eq-answer (new_connection_data_map env config) _ h in
      let (current, e2, h2) = >>=-eq-answer (get_connection_state file names) _ h1 in
      let ((hashes, created), e3, h3) =
        >>=-eq-answer (get_schema_hashes_for_dynamic_schemas env loaded current) _ h2 in
      let ((plugins, w), e4, h4) =
        >>=-eq-answer (populate_connection_plugins env (updated env loaded current hashes) created)
          _ h3 in
      let (state, e5, h5) =
        >>=-eq-answer
          (update_required_state_with_schema_properties env current hashes plugins loaded) _ h4 in
      let pair = answer_injective _ (u, warnings) h5 in
      record {
        loaded = loaded;
        missing = missing;
        current = current;
        hashes = hashes;
        created = created;
        plugins = plugins;
        state = state;
        at_loaded = e1;
        at_current = e2;
        at_hashes = e3;
        at_plugins = e4 ∙ ap (λ x. answer (plugins, x)) (ap (λ p. p.1) pair);
        at_state = e5;
        result = sym (ap (λ p. p.0) pair);
      }
