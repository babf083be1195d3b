-- ===== src/Connections/Plugins/Created.antt =====
-- CreateConnectionPlugins where every plugin starts.
use steampipe.Connections.{answer, Connection}
use steampipe.Prelude.{
  arith, ◌≡◌, none, some, inl, inr, String, Bool, List, ◌∷◌, [], ℕ, All, Bool-cases, ◌==◌, false,
  string_eq, subst, refl, sym, ◌∙◌, eq_of_==, Option-cases, ==_refl,
}
use steampipe.Connections.Schemas.Shared.{plugin_at}
use steampipe.Prelude.Dict.{Dict, insert, lookup, lookup-insert}
use steampipe.Connections.Plugins.{
  Sdk, create_connection_plugin, ConnectionPlugin, Schema, PluginMap, fetch_each,
  build_schema_mode_map, create_each,
}
use mathlib.Core.Option.{some-injective}
use steampipe.Connections.Schemas.Once.{DistinctNames}

-- Where the names are distinct, one that a list of connections lacks is not found in it.
plugin_at_fresh :
    (n : String) (cs : List Connection)
    → All (λ d. (n == d.name) ≡ false) cs
    → plugin_at n cs ≡ none
unfolding plugin_at
plugin_at_fresh n [] h = refl
plugin_at_fresh n (d ∷ cs) (h, hs) = ground (arith, plugin_at_fresh n cs hs, h)

module _ {ℓ κ} {A : Type ℓ} (P : A → Type κ) where
  abbrev pub Values : Dict String A → Type κ
  Values [] = Unit
  Values ((_, a) ∷ m) = P a × Values m

  pub insert-Values :
      (k : String) (a : A) (m : Dict String A) → P a → Values m → Values (insert k a m)
  unfolding insert
  insert-Values k a [] h hs = (h, tt)
  insert-Values k a ((j, b) ∷ m) h (hb, hs) = elim (Bool-cases (j == k)) [
    | inl same ↦ rw same (h, hs)
    | inr other ↦ rw other (hb, insert-Values k a m h hs)
  ]

  pub Values-lookup :
      (k : String) (a : A) (m : Dict String A) → Values m → lookup k m ≡ some a → P a
  unfolding lookup
  Values-lookup k a [] h e = cc
  Values-lookup k a ((j, b) ∷ m) (hb, hs) e = elim (Bool-cases (j == k)) [
    | inl same ↦ subst P (some-injective _ _ (sym (rw same refl) ∙ e)) hb
    | inr other ↦ Values-lookup k a m hs (sym (rw other refl) ∙ e)
  ]

module _ (sdk : Sdk) where
  open sdk use {get_schema, get_plugin_manager, get}

  -- The plugin of a connection starts, and tells its schema.
  abbrev pub Starts : Bool → Dict String ℕ → Connection → ConnectionPlugin sdk → Schema → Type 0
  Starts set_config reattach_map c p s =
      (create_connection_plugin sdk set_config c reattach_map ≡ answer (inr p))
      × (get_schema p.plugin_client ≡ inr s)

  abbrev pub HasStarted : Bool → Dict String ℕ → Connection → Type 0
  HasStarted set_config reattach_map c =
      (p : ConnectionPlugin sdk) × (s : Schema) × Starts set_config reattach_map c p s

  create_connection_plugin-plugin :
      (set_config : Bool) (c : Connection) (reattach_map : Dict String ℕ) (p : ConnectionPlugin sdk)
      → create_connection_plugin sdk set_config c reattach_map ≡ answer (inr p)
      → p.plugin_name ≡ c.plugin
  unfolding create_connection_plugin
  create_connection_plugin-plugin set_config c reattach_map p h = ground arith

  -- The schema was told by a started plugin of one of the connections, of the plugin named `q`.
  abbrev pub IsSchemaOf : Bool → Dict String ℕ → List Connection → String → Schema → Type 0
  IsSchemaOf set_config reattach_map cs q s =
      (d : Connection) × (p : ConnectionPlugin sdk) × Starts set_config reattach_map d p s
      × (plugin_at d.name cs ≡ some q)

  module _ (Told : String → Schema → Type 0) where
    abbrev pub Tells : ConnectionPlugin sdk → Type 0
    Tells p = (s : Schema) × (get_schema p.plugin_client ≡ inr s) × Told p.plugin_name s

    -- After a loop over plugins that tell their schemas, the map has one for each, and no error.
    abbrev pub Fetched : PluginMap sdk → Dict String Schema → Dict String Schema → Type 0
    Fetched plugins before after =
        ((q : String) (s : Schema) → lookup q before ≡ some s → lookup q after ≡ some s)
        × ((q : String) (s : Schema) → lookup q after ≡ some s → Told q s)
        × Values (λ p. (s : Schema) × (lookup p.plugin_name after ≡ some s)) plugins

    insert-Told :
        (p : ConnectionPlugin sdk) (s : Schema) (schemas : Dict String Schema)
        → Told p.plugin_name s
        → ((q : String) (s' : Schema) → lookup q schemas ≡ some s' → Told q s')
        → (q : String) (s' : Schema) → lookup q (insert p.plugin_name s schemas) ≡ some s'
        → Told q s'
    insert-Told p s schemas h old q s' e = elim (Bool-cases (p.plugin_name == q)) [
      | inl same ↦
          let at_s : s ≡ s' =
            some-injective _ _ (sym (lookup-insert q p.plugin_name s schemas ∙ rw same refl) ∙ e) in
          subst (λ x. Told x s') (eq_of_== p.plugin_name q same) (subst (Told p.plugin_name) at_s h)
      | inr other ↦ old q s' (sym (lookup-insert q p.plugin_name s schemas ∙ rw other refl) ∙ e)
    ]

    pub fetch_each-Fetched :
        (plugins : PluginMap sdk) (schemas : Dict String Schema) (errors : List String)
        → Values Tells plugins
        → ((q : String) (s : Schema) → lookup q schemas ≡ some s → Told q s)
        → (after : Dict String Schema) × (fetch_each sdk plugins (schemas, errors)
            ≡ (after, errors))
          × Fetched plugins schemas after
    unfolding fetch_each
    fetch_each-Fetched [] schemas errors h told = (schemas, refl, (λ q s e. e, told, tt))
    fetch_each-Fetched ((name, p) ∷ plugins) schemas errors ((s, gets, of_p), hs) told =
        elim (Option-cases (lookup p.plugin_name schemas)) [
          | inl new ↦
              let next = insert p.plugin_name s schemas in
              let (after, e, (grows, all_told, rest)) =
                fetch_each-Fetched plugins next errors hs (insert-Told p s schemas of_p told) in
              (
                after,
                rw (new, gets) e,
                (
                  λ q s' e'.
                      grows q s' (ground (arith, lookup-insert q p.plugin_name s schemas, e', new)),
                  all_told,
                  (
                    (
                      s,
                      grows p.plugin_name s (
                          lookup-insert p.plugin_name p.plugin_name s schemas
                          ∙ rw (==_refl p.plugin_name) refl),
                    ),
                    rest,
                  ),
                ),
              )
          | inr (s0, seen) ↦
              let (after, e, (grows, all_told, rest)) =
                fetch_each-Fetched plugins schemas errors hs told in
              (after, rw seen e, (grows, all_told, ((s0, grows p.plugin_name s0 seen), rest)))
        ]

  pub build_schema_mode_map-answer :
      (plugins : PluginMap sdk) (schemas : Dict String Schema)
      → Values (λ p. (s : Schema) × (lookup p.plugin_name schemas ≡ some s)) plugins
      → (modes : Dict String String) × (build_schema_mode_map sdk plugins schemas ≡ answer modes)
  unfolding build_schema_mode_map
  build_schema_mode_map-answer [] schemas h = ([], refl)
  build_schema_mode_map-answer ((name, p) ∷ plugins) schemas ((s, e), hs) =
      let (modes, rest) = build_schema_mode_map-answer plugins schemas hs in
      ((name, s.mode) ∷ modes, rw (e, rest, build_schema_mode_map) refl)

  module _ (set_config : Bool) (reattach_map : Dict String ℕ) where
    -- What the plugins are after the loop over connections that all start.
    abbrev pub Made :
        (String → Schema → Type 0) → List Connection → PluginMap sdk → PluginMap sdk → Type 0
    Made Told cs before after =
        ((n q : String)
          → plugin_at n cs ≡ some q
          → (p : ConnectionPlugin sdk) × (lookup n after ≡ some p) × (p.plugin_name ≡ q))
        × ((n : String) → plugin_at n cs ≡ none → lookup n after ≡ lookup n before)
        × Values (Tells Told) after

    pub create_each-Made :
        (Told : String → Schema → Type 0) (cs : List Connection) (plugins : PluginMap sdk)
        (warnings : List String)
        → DistinctNames cs
        → All (HasStarted set_config reattach_map) cs
        → All
            (λ c.
              (p : ConnectionPlugin sdk) (s : Schema)
              → Starts set_config reattach_map c p s
              → Told c.plugin s)
            cs
        → Values (Tells Told) plugins
        → (after : PluginMap sdk) × (create_each sdk set_config reattach_map cs (plugins, warnings)
            ≡ answer (after, warnings))
          × Made Told cs plugins after
    unfolding create_each plugin_at
    create_each-Made Told [] plugins warnings u starts told old =
        (plugins, refl, ((λ n q e. cc), (λ n e. refl), old))
    create_each-Made Told (c ∷ cs) plugins warnings (other, u) ((p, s, (made, gets)), starts)
          (told_c, told) old =
        let of_c = create_connection_plugin-plugin set_config c reattach_map p made in
        let tells : Tells Told p = (s, gets, rw of_c (told_c p s (made, gets))) in
        let next = insert c.name p plugins in
        let (after, e, (has, keeps, all_told)) =
          create_each-Made Told cs next warnings u starts told
            (insert-Values (Tells Told) c.name p plugins tells old) in
        let own : lookup c.name after ≡ some p =
          keeps c.name (plugin_at_fresh c.name cs other)
          ∙ lookup-insert c.name c.name p plugins
          ∙ rw (==_refl c.name) refl in
        (
          after,
          rw (made, create_each) e,
          (
            (λ n q h. elim (Bool-cases (c.name == n)) [
              | inl same ↦ (
                p,
                subst (λ k. lookup k after ≡ some p) (eq_of_== c.name n same) own,
                of_c ∙ some-injective _ _ (sym (rw same refl) ∙ h),
              )
              | inr differs ↦ has n q (sym (rw differs refl) ∙ h)
            ]),
            (λ n h. elim (Bool-cases (c.name == n)) [
              | inl same ↦ let found : plugin_at n (c ∷ cs) ≡ some c.plugin = rw same refl in cc
              | inr differs ↦
                  keeps n (sym (rw differs refl) ∙ h)
                  ∙ lookup-insert n c.name p plugins
                  ∙ rw differs refl
            ]),
            all_told,
          ),
        )
