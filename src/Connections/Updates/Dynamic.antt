-- ===== src/Connections/Updates/Dynamic.antt =====
-- The schemas that are hashed are those of required connections.
use steampipe.Connections.Plugins.Missing.{KeepsKeys, set_schema-KeepsKeys}
use steampipe.Connections.Schemas.{
  unique_schemas, SchemaMap, names_at, new_connection_schema_map_for_connections,
}
use steampipe.Prelude.{
  refl, [], ◌∷◌, ◌≡◌, none, some, true, inl, inr, ◌∙◌, arith, String, Bool, Bool-cases, ℕ, List,
  string_eq, ◌==◌, subst, All, eq_of_==, sym, ◌⊎◌, Option-cases, ap, map, Option,
}
use steampipe.Connections.{answer, ◌>>=◌, Connection}
use steampipe.Connections.Plugins.{
  Sdk, PluginMap, ConnectionPlugin, create_each, set_schemas, create_connection_plugins,
  populate_connection_plugin_schemas, Schema, build_plugin_schema_map, keep, set_schema,
  build_schema_mode_map, create_connection_plugin,
}
use steampipe.Prelude.Options.{is_some}
use steampipe.Prelude.Dict.{insert, Dict, lookup, lookup-insert, lookup-nil}
use steampipe.Connections.Updates.Needed.{answer_injective}
use steampipe.Connections.Updates.Loaded.{>>=-eq-answer}

module _ (sdk : Sdk) (P : String → Type 0) where
  -- Only names that satisfy `P` are keys.
  abbrev pub KeysAre : PluginMap sdk → Type 0
  KeysAre plugins = (n : String) → is_some (lookup n plugins) ≡ true → P n

  insert-KeysAre :
      (k : String) (p : ConnectionPlugin sdk) (plugins : PluginMap sdk)
      → P k
      → KeysAre plugins
      → KeysAre (insert k p plugins)
  insert-KeysAre k p plugins h hs n e = elim (Bool-cases (k == n)) [
    | inl same ↦ subst P (eq_of_== k n same) h
    | inr other ↦ hs n (sym (ap is_some (lookup-insert n k p plugins ∙ rw other refl)) ∙ e)
  ]

  create_each-KeysAre :
      (set_config : Bool) (reattach_map : Dict String ℕ) (cs : List Connection)
      (s : PluginMap sdk × List String) (made : PluginMap sdk × List String)
      → All (λ c. P c.name) cs
      → create_each sdk set_config reattach_map cs s ≡ answer made
      → KeysAre s.0
      → KeysAre made.0
  unfolding create_each
  create_each-KeysAre set_config reattach_map [] s made h e keys_are =
      subst (λ (x : PluginMap sdk × List String). KeysAre x.0) (answer_injective s made e) keys_are
  create_each-KeysAre set_config reattach_map (c ∷ cs) (plugins, warnings) made (h, hs) e keys_are =
      let (r, _, after) =
        >>=-eq-answer (create_connection_plugin sdk set_config c reattach_map)
          (λ r. create_each sdk set_config reattach_map cs (keep sdk c r (plugins, warnings))) e in
      create_each-KeysAre set_config reattach_map cs (keep sdk c r (plugins, warnings)) made hs
        after (kept r)
    where
      kept : (r : String ⊎ ConnectionPlugin sdk) → KeysAre (keep sdk c r (plugins, warnings)).0
      kept (inl err) = keys_are
      kept (inr p) = insert-KeysAre c.name p plugins h keys_are

  set_schemas-KeysAre :
      (schemas : Dict String Schema) (uses : SchemaMap) (unique : List String)
      (plugins made : PluginMap sdk)
      → set_schemas sdk schemas uses unique plugins ≡ answer made
      → KeysAre plugins
      → KeysAre made
  unfolding set_schemas
  set_schemas-KeysAre schemas uses [] plugins made e keys_are =
      subst KeysAre (answer_injective plugins made e) keys_are
  set_schemas-KeysAre schemas uses (c ∷ unique) plugins made e keys_are =
      elim (Option-cases (lookup c plugins)) [
        | inl gone ↦
            let run : set_schemas sdk schemas uses (c ∷ unique) plugins
                ≡ set_schemas sdk schemas uses unique plugins =
              rw (gone, set_schemas) refl in
            set_schemas-KeysAre schemas uses unique plugins made (sym run ∙ e) keys_are
        | inr (p, found) ↦
            let set = set_schema sdk (lookup p.plugin_name schemas) (names_at c uses) plugins in
            let run : set_schemas sdk schemas uses (c ∷ unique) plugins
                ≡ (set >>= set_schemas sdk schemas uses unique) =
              rw (found, set_schemas) refl in
            let (next, e1, e2) =
              >>=-eq-answer set (set_schemas sdk schemas uses unique) (sym run ∙ e) in
            let keeps : KeepsKeys sdk plugins (answer next) =
              subst (KeepsKeys sdk plugins) e1 (
                set_schema-KeepsKeys sdk (lookup p.plugin_name schemas) (names_at c uses)
                  plugins) in
            set_schemas-KeysAre schemas uses unique next made e2
              (λ n h. keys_are n (sym (keeps n) ∙ h))
      ]

  pub create_connection_plugins-KeysAre :
      (set_config : Bool) (cs : List Connection) (made : PluginMap sdk × List String)
      → All (λ c. P c.name) cs
      → create_connection_plugins sdk set_config cs ≡ answer made
      → KeysAre made.0
  unfolding create_connection_plugins populate_connection_plugin_schemas
  create_connection_plugins-KeysAre set_config cs made h e = manager sdk.get_plugin_manager refl
    where
      populated :
          (plugins : PluginMap sdk × List String)
          → KeysAre plugins.0
          → (populate_connection_plugin_schemas sdk cs plugins.0 >>= λ x. answer (x, plugins.1))
            ≡ answer made
          → KeysAre made.0
      populated plugins keys_are f =
          let (after, f1, f2) =
            >>=-eq-answer (populate_connection_plugin_schemas sdk cs plugins.0)
              (λ x. answer (x, plugins.1)) f in
          let (schemas, g, g1) = >>=-eq-answer (build_plugin_schema_map sdk plugins.0) _ f1 in
          let (modes, g2, g3) = >>=-eq-answer (build_schema_mode_map sdk plugins.0 schemas) _ g1 in
          let uses = new_connection_schema_map_for_connections sdk.dynamic cs modes in
          subst (λ (x : PluginMap sdk × List String). KeysAre x.0)
            (answer_injective (after, plugins.1) made f2)
            (set_schemas-KeysAre schemas uses (unique_schemas uses) plugins.0 after g3 keys_are)

      got :
          (r : String ⊎ Dict String ℕ)
          → sdk.get (map (λ c. c.name) cs) ≡ r
          → sdk.get_plugin_manager ≡ none
          → KeysAre made.0
      got (inl err) f m = absurd (ground (arith, m, f, e))
      got (inr reattach_map) f m =
          let loop = create_each sdk set_config reattach_map cs ([], []) in
          let rest = λ (x : PluginMap sdk × List String).
            populate_connection_plugin_schemas sdk cs x.0 >>= λ y. answer (y, x.1) in
          let run : create_connection_plugins sdk set_config cs ≡ (loop >>= rest) =
            rw (m, f, create_connection_plugins) refl in
          let (plugins, f1, f2) = >>=-eq-answer loop rest (sym run ∙ e) in
          populated plugins
            (create_each-KeysAre set_config reattach_map cs ([], []) plugins h f1
              (λ n k. cc (lookup-nil {V = ConnectionPlugin sdk} n, k)))
            f2

      manager : (r : Option String) → sdk.get_plugin_manager ≡ r → KeysAre made.0
      manager (some err) m = absurd (ground (arith, m, e))
      manager none m = got (sdk.get (map (λ c. c.name) cs)) refl m
