-- ===== src/Connections/Plugins/Missing.antt =====
-- What becomes of a connection whose plugin did not start, where its schema is another's.
use steampipe.Connections.{answer, failed, nil_pointer, ◌>>=◌, Answer, Connection}
use steampipe.Prelude.{
  true, false, arith, ◌≡◌, none, some, inl, inr, String, Option, ◌∙◌, List, refl, string_eq, ◌∷◌,
  Option-cases, [], Bool-cases, ◌==◌, subst, sym, eq_of_==, ==_refl,
}
use steampipe.Connections.Plugins.{
  Sdk, PluginMap, set_schema, set_schemas, ConnectionPlugin, Schema,
  populate_connection_plugin_schemas, build_plugin_schema_map, build_schema_mode_map,
}
use steampipe.Connections.Schemas.{
  SchemaMap, names_at, unique_schemas, new_connection_schema_map_for_connections, keys,
}
use steampipe.Prelude.Options.{is_some}
use steampipe.Prelude.Dict.{Dict, lookup, insert, lookup-insert}
use steampipe.Connections.Plugins.Filled.{listed}
use steampipe.Connections.Schemas.Once.{
  DistinctNames, occurrences-new_connection_schema_map_for_connections,
}
use steampipe.Connections.Schemas.Shared.{
  plugin_at, new_connection_schema_map_for_connections-OnePlugin,
}
use steampipe.Connections.Plugins.Populated.{
  plugin_at-count, listed_under, new_connection_schema_map_for_connections-NodupKeys, keys-any,
}

module _ (sdk : Sdk) where
  -- Setting schemas adds no plugin and drops none.
  abbrev pub SameKeys : PluginMap sdk → PluginMap sdk → Type 0
  SameKeys before after = (n : String) → is_some (lookup n after) ≡ is_some (lookup n before)

  abbrev pub KeepsKeys : PluginMap sdk → Answer (PluginMap sdk) → Type 0
  KeepsKeys before (answer after) = SameKeys before after
  KeepsKeys before (failed e) = ⊥
  KeepsKeys before nil_pointer = Unit

  insert-SameKeys :
      (n : String) (p p' : ConnectionPlugin sdk) (plugins : PluginMap sdk)
      → lookup n plugins ≡ some p
      → SameKeys plugins (insert n p' plugins)
  insert-SameKeys n p p' plugins found m = ground (arith, lookup-insert m n p' plugins, found)

  KeepsKeys-trans :
      (before middle : PluginMap sdk) (r : Answer (PluginMap sdk))
      → SameKeys before middle
      → KeepsKeys middle r
      → KeepsKeys before r
  KeepsKeys-trans before middle (answer after) h k = λ n. k n ∙ h n
  KeepsKeys-trans before middle (failed e) h k = k
  KeepsKeys-trans before middle nil_pointer h k = tt

  pub set_schema-KeepsKeys :
      (schema : Option Schema) (names : List String) (plugins : PluginMap sdk)
      → KeepsKeys plugins (set_schema sdk schema names plugins)
  unfolding set_schema
  set_schema-KeepsKeys schema [] plugins = λ n. refl
  set_schema-KeepsKeys schema (n ∷ names) plugins = elim (Option-cases (lookup n plugins)) [
    | inl gone ↦ rw (gone, set_schema) tt
    | inr (p, found) ↦
        let next = insert n (record p { schema = schema }) plugins in
        rw (found, set_schema)
          (KeepsKeys-trans plugins next (set_schema sdk schema names next)
            (insert-SameKeys n p (record p { schema = schema }) plugins found)
            (set_schema-KeepsKeys schema names next))
  ]

  set_schema-nil_pointer :
      (schema : Option Schema) (d : String) (names : List String) (plugins : PluginMap sdk)
      → lookup d plugins ≡ none
      → listed d names ≡ true
      → set_schema sdk schema names plugins ≡ nil_pointer
  unfolding set_schema
  set_schema-nil_pointer schema d [] plugins gone h = cc
  set_schema-nil_pointer schema d (n ∷ names) plugins gone h =
      elim (Option-cases (lookup n plugins)) [
        | inl missing ↦ rw (missing, set_schema) refl
        | inr (p, found) ↦
            rw (found, set_schema)
              (set_schema-nil_pointer schema d names
                (insert n (record p { schema = schema }) plugins)
                (ground
                  (arith, lookup-insert d n (record p { schema = schema }) plugins, gone, found))
                (ground (arith, gone, found, h)))
      ]

  abbrev pub KeepsNil : PluginMap sdk → (PluginMap sdk → Answer (PluginMap sdk)) → Type 0
  KeepsNil before f = (after : PluginMap sdk) → SameKeys before after → f after ≡ nil_pointer

  >>=-nil_pointer :
      (before : PluginMap sdk) (r : Answer (PluginMap sdk))
      (f : PluginMap sdk → Answer (PluginMap sdk))
      → KeepsKeys before r
      → KeepsNil before f
      → (r >>= f) ≡ nil_pointer
  >>=-nil_pointer before (answer after) f k h = h after k
  >>=-nil_pointer before (failed e) f k h = absurd k
  >>=-nil_pointer before nil_pointer f k h = refl

  none_of_is_some : (o : Option (ConnectionPlugin sdk)) → is_some o ≡ false → o ≡ none
  none_of_is_some none h = refl
  none_of_is_some (some p) h = cc

  -- A key that is at hand, and lists a connection that is not, among the unique schemas.
  abbrev pub Reads : SchemaMap → (k d : String) → PluginMap sdk → Type 0
  Reads uses k d plugins =
      (is_some (lookup k plugins) ≡ true)
      × (is_some (lookup d plugins) ≡ false)
      × (listed d (names_at k uses) ≡ true)

  set_schemas-nil_pointer :
      (schemas : Dict String Schema) (uses : SchemaMap) (k d : String) (unique : List String)
      (plugins : PluginMap sdk)
      → listed k unique ≡ true
      → Reads uses k d plugins
      → set_schemas sdk schemas uses unique plugins ≡ nil_pointer
  unfolding set_schemas
  set_schemas-nil_pointer schemas uses k d [] plugins h reads = cc
  set_schemas-nil_pointer schemas uses k d (j ∷ unique) plugins h (at_k, at_d, l) =
      elim (Option-cases (lookup j plugins)) [
        | inl missing ↦
            rw (missing, set_schemas)
              (set_schemas-nil_pointer schemas uses k d unique plugins
                (ground (arith, missing, at_k, h)) (at_k, at_d, l))
        | inr (p, found) ↦
            rw (found, set_schemas)
              (elim (Bool-cases (j == k)) [
                | inl same ↦
                    let here : listed d (names_at j uses) ≡ true =
                      subst (λ x. listed d (names_at x uses) ≡ true) (sym (eq_of_== j k same)) l in
                    rw
                      (set_schema-nil_pointer (lookup p.plugin_name schemas) d (names_at j uses)
                        plugins (none_of_is_some (lookup d plugins) at_d) here)
                      refl
                | inr other ↦
                    >>=-nil_pointer plugins
                      (set_schema sdk (lookup p.plugin_name schemas) (names_at j uses) plugins)
                      (set_schemas sdk schemas uses unique)
                      (set_schema-KeepsKeys (lookup p.plugin_name schemas) (names_at j uses)
                        plugins)
                      (λ after keeps.
                        set_schemas-nil_pointer schemas uses k d unique after
                          (ground (arith, other, h)) (keeps k ∙ at_k, keeps d ∙ at_d, l))
              ])
      ]

  module _ (cs : List Connection) (plugins : PluginMap sdk) (schemas : Dict String Schema)
      (modes : Dict String String) where
    open sdk use {dynamic}

    -- Take connections with distinct names, plugins that all tell their schemas, and a connection
    -- `d` that alone has no plugin, since it did not start. If `d` is no key of the schema map, so
    -- that it shares the schema of another connection, then setting the schemas reads a nil pointer.
    pub populate_connection_plugin_schemas-nil_pointer :
        (d q : String)
        → DistinctNames cs
        → build_plugin_schema_map sdk plugins ≡ answer schemas
        → build_schema_mode_map sdk plugins schemas ≡ answer modes
        → plugin_at d cs ≡ some q
        → lookup d plugins ≡ none
        → ((n p : String)
            → plugin_at n cs ≡ some p
            → (d == n) ≡ false
            → is_some (lookup n plugins) ≡ true)
        → lookup d (new_connection_schema_map_for_connections dynamic cs modes) ≡ none
        → populate_connection_plugin_schemas sdk cs plugins ≡ nil_pointer
    unfolding populate_connection_plugin_schemas unique_schemas
    populate_connection_plugin_schemas-nil_pointer d q u fetched moded at_d gone started shares =
        let res = new_connection_schema_map_for_connections dynamic cs modes in
        let (k, names, e, l) =
          listed_under d res (new_connection_schema_map_for_connections-NodupKeys dynamic cs modes)
            (omega (
              arith,
              occurrences-new_connection_schema_map_for_connections dynamic cs modes d u,
              plugin_at-count d q cs at_d,
            )) in
        let (p, at_k, _) =
          new_connection_schema_map_for_connections-OnePlugin dynamic cs modes u k names e in
        let differ : (d == k) ≡ false = key_differs d k names res shares e in
        rw (fetched, moded, populate_connection_plugin_schemas)
          (set_schemas-nil_pointer schemas res k d (keys res) plugins
            (keys-any (λ j. j == k) k names res e (==_refl k))
            (started k p at_k differ, rw gone refl, rw (e, names_at) l))
      where
        key_differs :
            (a b : String) (ns : List String) (m : SchemaMap)
            → lookup a m ≡ none
            → lookup b m ≡ some ns
            → (a == b) ≡ false
        key_differs a b ns m h h' = ground (arith, h, h')
