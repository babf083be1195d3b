-- ===== src/Connections/Plugins/Filled.antt =====
-- What populateConnectionPluginSchemas leaves in the plugins.
use steampipe.Connections.{answer}
use steampipe.Prelude.{
  arith, ◌≡◌, none, some, inl, inr, String, List, Option, Bool, All, any, string_eq, ◌==◌,
  if◌then◌else◌, ◌∷◌, Bool-cases, ◌∙◌, ap, refl, true, [], ◌||◌, false, Option-cases,
}
use steampipe.Connections.Plugins.{
  Sdk, set_schema, Schema, ConnectionPlugin, PluginMap, set_schemas,
}
use steampipe.Prelude.Dict.{Dict, lookup, insert, lookup-insert}
use steampipe.Connections.Schemas.{SchemaMap, names_at}
use steampipe.Connections.Schemas.Shared.{OnePlugin}

abbrev pub listed : String → List String → Bool
listed m names = any (λ n. n == m) names

abbrev pub used : String → SchemaMap → List String → Bool
used m uses unique = any (λ k. listed m (names_at k uses)) unique

module _ (sdk : Sdk) where
  -- The plugin with the schema of its plugin's name.
  abbrev pub filled : Dict String Schema → ConnectionPlugin sdk → ConnectionPlugin sdk
  filled schemas p = record p { schema = lookup p.plugin_name schemas }

  abbrev pub filled? :
      Dict String Schema → Option (ConnectionPlugin sdk) → Option (ConnectionPlugin sdk)
  filled? schemas none = none
  filled? schemas (some p) = some (filled schemas p)

  -- The names of a list have plugins, all of the plugin `plugin`.
  abbrev pub AreOf : String → List String → PluginMap sdk → Type 0
  AreOf plugin names plugins =
      All (λ n. (p : ConnectionPlugin sdk) × (lookup n plugins ≡ some p) × (p.plugin_name ≡ plugin))
        names

  set_schema-filled :
      (schemas : Dict String Schema) (plugin : String) (names : List String)
      (plugins : PluginMap sdk)
      → AreOf plugin names plugins
      → (plugins' : PluginMap sdk) × (set_schema sdk (lookup plugin schemas) names plugins
          ≡ answer plugins')
        × ((m : String)
            → lookup m plugins'
              ≡ (if listed m names then filled? schemas (lookup m plugins) else lookup m plugins))
  unfolding set_schema
  set_schema-filled schemas plugin [] plugins h = (plugins, refl, λ m. refl)
  set_schema-filled schemas plugin (n ∷ names) plugins ((p, found, of_plugin), hs) =
      let next = insert n (record p { schema = lookup plugin schemas }) plugins in
      let (plugins', e, at) = set_schema-filled schemas plugin names next (still names hs) in
      (plugins', rw (found, set_schema) e, λ m. at m ∙ here m)
    where
      still :
          (ns : List String)
          → AreOf plugin ns plugins
          → AreOf plugin ns (insert n (record p { schema = lookup plugin schemas }) plugins)
      still [] k = tt
      still (x ∷ ns) (k, ks) = (
        elim (Bool-cases (n == x)) [
          | inl same ↦ (
            record p { schema = lookup plugin schemas },
            lookup-insert x n _ plugins ∙ rw same,
            of_plugin,
          )
          | inr other ↦ (k.0, (lookup-insert x n _ plugins ∙ rw other k.1), k.2)
        ],
        still ns ks,
      )

      here :
          (m : String)
          → (if listed m names
              then filled? schemas
                  (lookup m (insert n (record p { schema = lookup plugin schemas }) plugins))
              else lookup m (insert n (record p { schema = lookup plugin schemas }) plugins))
            ≡ (if listed m (n ∷ names)
                then filled? schemas (lookup m plugins)
                else lookup m plugins)
      here m = ground (
        arith,
        lookup-insert m n (record p { schema = lookup plugin schemas }) plugins,
        found,
        of_plugin,
        ap (λ k. lookup k schemas) of_plugin,
      )

  -- The plugins of connections are at hand, by the connections' names.
  abbrev pub Covers : (String → Option String) → PluginMap sdk → Type 0
  Covers plugin_of plugins =
      (n q : String)
      → plugin_of n ≡ some q
      → (p : ConnectionPlugin sdk) × (lookup n plugins ≡ some p) × (p.plugin_name ≡ q)

  filled?-filled? :
      (schemas : Dict String Schema) (o : Option (ConnectionPlugin sdk))
      → filled? schemas (filled? schemas o) ≡ filled? schemas o
  filled?-filled? schemas none = refl
  filled?-filled? schemas (some p) = refl

  filled_cases :
      (schemas : Dict String Schema) (b : Bool) (o : Option (ConnectionPlugin sdk))
      (p : ConnectionPlugin sdk)
      → o ≡ some p
      → (p' : ConnectionPlugin sdk) × ((if b then filled? schemas o else o) ≡ some p')
        × (p'.plugin_name ≡ p.plugin_name)
  filled_cases schemas true o p e = (filled schemas p, rw e, refl)
  filled_cases schemas false o p e = (p, e, refl)

  names-AreOf :
      (plugin_of : String → Option String) (plugins : PluginMap sdk) (q : String)
      (names : List String)
      → Covers plugin_of plugins
      → All (λ n. plugin_of n ≡ some q) names
      → AreOf q names plugins
  names-AreOf plugin_of plugins q [] covers h = tt
  names-AreOf plugin_of plugins q (n ∷ names) covers (h, hs) =
      (covers n q h, names-AreOf plugin_of plugins q names covers hs)

  filled_twice :
      (schemas : Dict String Schema) (a b : Bool) (o : Option (ConnectionPlugin sdk))
      → (if a
          then filled? schemas (if b then filled? schemas o else o)
          else (if b then filled? schemas o else o))
        ≡ (if b || a then filled? schemas o else o)
  filled_twice schemas true true o = filled?-filled? schemas o
  filled_twice schemas true false o = refl
  filled_twice schemas false true o = refl
  filled_twice schemas false false o = refl

  pub set_schemas-filled :
      (schemas : Dict String Schema) (uses : SchemaMap) (plugin_of : String → Option String)
      → ((k : String) (names : List String)
          → lookup k uses ≡ some names
          → OnePlugin plugin_of k names)
      → (unique : List String) (plugins : PluginMap sdk) → Covers plugin_of plugins
      → (plugins' : PluginMap sdk) × (set_schemas sdk schemas uses unique plugins ≡ answer plugins')
        × ((m : String)
            → lookup m plugins' ≡ (
                if used m uses unique
                then filled? schemas (lookup m plugins)
                else lookup m plugins))
  unfolding set_schemas set_schema
  set_schemas-filled schemas uses plugin_of one [] plugins covers = (plugins, refl, λ m. refl)
  set_schemas-filled schemas uses plugin_of one (k ∷ unique) plugins covers =
      elim (Option-cases (lookup k uses)) [
        | inl missing ↦
            let (plugins', e, at) =
              set_schemas-filled schemas uses plugin_of one unique plugins covers in
            (
              plugins',
              elim (Option-cases (lookup k plugins)) [
                | inl gone ↦ rw (gone, set_schemas) e
                | inr (p, found) ↦ rw (found, missing, names_at, set_schemas) e
              ],
              λ m. rw (missing, names_at) (at m),
            )
        | inr (names, e) ↦
            let (q, at_k, all_q) = one k names e in
            let at_names : names_at k uses ≡ names = rw (e, names_at) in
            let (p, found, of_q) = covers k q at_k in
            let (plugins1, set, at1) =
              set_schema-filled schemas q names plugins
                (names-AreOf plugin_of plugins q names covers all_q) in
            let covers1 : Covers plugin_of plugins1 = λ n q' h.
              let (p0, f0, o0) = covers n q' h in
              let (p1, f1, o1) = filled_cases schemas (listed n names) (lookup n plugins) p0 f0 in
              (p1, at1 n ∙ f1, o1 ∙ o0) in
            let (plugins', rest, at) =
              set_schemas-filled schemas uses plugin_of one unique plugins1 covers1 in
            (
              plugins',
              rw (found, e, names_at, of_q, set, set_schemas) rest,
              λ m.
                  at m
                  ∙ rw (at1 m, ap (listed m) at_names)
                      (filled_twice schemas (used m uses unique) (listed m names)
                        (lookup m plugins)),
            )
      ]
