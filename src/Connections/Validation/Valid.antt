-- ===== src/Connections/Validation/Valid.antt =====
-- What ValidatePlugins lets pass.
use steampipe.Prelude.{◌≡◌, some, true, false, ◌≤◌, All, String, any, Option, ◌==◌, string_eq}
use steampipe.Connections.Updates.{Environment, string_slice_contains}
use steampipe.Connections.Plugins.{ConnectionPlugin}
use steampipe.Connections.{ConnectionDataMap, ConnectionData}
use steampipe.Connections.Validation.{protocol_version_of, Validation, reserved_connection_names}
use steampipe.Prelude.Dict.{lookup}

module _ (env : Environment) where
  open env use {sdk}

  -- A plugin of a version that this one knows, for a connection whose name is free.
  abbrev pub IsCompatible : ConnectionPlugin sdk → Type 0
  IsCompatible p =
      (protocol_version_of env p.schema ≤ sdk.protocol_version)
      × (string_slice_contains env reserved_connection_names p.connection_name ≡ false)

  record IsSound (updates : ConnectionDataMap) (v : Validation env) : Type 0 where
    compatible : All IsCompatible v.plugins
    validated :
        (n : String) (d : ConnectionData)
        → lookup n v.updates ≡ some d
        → (lookup n updates ≡ some d) × (any (λ p. p.connection_name == n) v.plugins ≡ true)
