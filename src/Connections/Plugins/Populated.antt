-- ===== src/Connections/Plugins/Populated.antt =====
-- CreateConnectionPlugins where every plugin starts and tells its schema.
use steampipe.Connections.{Connection, answer}
use steampipe.Prelude.{
  true, false, arith, ◌≡◌, none, some, inl, inr, String, Bool, List, ◌<◌, [], any, ◌∷◌, string_eq,
  ◌||◌, Bool-cases, Option-cases, ◌==◌, leb, eq_of_==, ==_refl, sym, subst, ◌++◌, ◌∙◌, refl, ℕ, All,
  All-mono, Option, if◌then◌else◌,
}
use steampipe.Connections.Schemas.Once.{
  count, occurrences, DistinctNames, occurrences-new_connection_schema_map_for_connections,
  names_of,
}
use steampipe.Prelude.Dict.{lookup, Dict, NodupKeys, insert-NodupKeys, lookup-nil}
use steampipe.Connections.Schemas.{
  each_connection, new_connection_schema_map_for_connections, unique_schemas, keys, place,
  SchemaMap, own_schema, same_schema, Sharing, names_at, text_at,
}
use steampipe.Connections.Schemas.Shared.{
  plugin_at, All-plugin_at, new_connection_schema_map_for_connections-OnePlugin,
}
use steampipe.Connections.Plugins.Filled.{listed, used, Covers, set_schemas-filled, filled, filled?}
use steampipe.Connections.Plugins.{
  Sdk, PluginMap, populate_connection_plugin_schemas, create_connection_plugins, ConnectionPlugin,
  build_plugin_schema_map, Schema, fetch_each,
}
use steampipe.Connections.Plugins.Created.{
  HasStarted, IsSchemaOf, Starts, Values, Tells, fetch_each-Fetched, create_each-Made,
  build_schema_mode_map-answer, Values-lookup,
}

-- A name that is listed stands under a key.
listed_of_count : (m : String) (names : List String) → 0 < count m names → listed m names ≡ true
unfolding count
listed_of_count m [] h = absurd (omega arith)
listed_of_count m (n ∷ names) h = ground (arith, listed_of_count m names)

pub keys-any {ℓ} :
    {A : Type ℓ} (f : String → Bool) (k : String) (a : A) (m : Dict String A)
    → lookup k m ≡ some a
    → f k ≡ true
    → any f (keys m) ≡ true
unfolding lookup keys
keys-any f k a [] e h = cc
keys-any f k a ((j, b) ∷ m) e h = elim (Bool-cases (j == k)) [
  | inl same ↦ rw (eq_of_== j k same, h) refl
  | inr other ↦ rw (keys-any f k a m (sym (rw other refl) ∙ e) h) (||-true (f j))
]
  where
    ||-true : (b : Bool) → (b || true) ≡ true
    ||-true true = refl
    ||-true false = refl

pub listed_under :
    (m : String) (res : SchemaMap)
    → NodupKeys res
    → 0 < occurrences m res
    → (k : String) × (names : List String) × (lookup k res ≡ some names) × (listed m names ≡ true)
unfolding occurrences lookup
listed_under m [] u h = absurd (omega arith)
listed_under m ((k, names) ∷ res) (fresh, u) h = elim (Bool-cases (leb 1 (count m names))) [
  | inl here ↦ (k, names, rw (==_refl k) refl, listed_of_count m names (ground (arith, here)))
  | inr later ↦
      let (j, ns, e, l) = listed_under m res u (ground (arith, later, h)) in
      (
        j,
        ns,
        elim (Bool-cases (k == j)) [
          | inl same ↦
              let gone : lookup j res ≡ none =
                subst (λ x. lookup x res ≡ none) (eq_of_== k j same) fresh in
              cc
          | inr other ↦ rw other e
        ],
        l,
      )
]

each_connection-NodupKeys :
    (dynamic : String) (modes : Dict String String) (cs : List Connection) (s : Sharing)
    → NodupKeys s.1
    → NodupKeys (each_connection dynamic modes cs s).1
unfolding each_connection place own_schema same_schema
each_connection-NodupKeys dynamic modes [] s u = u
each_connection-NodupKeys dynamic modes (c ∷ cs) s u =
    each_connection-NodupKeys dynamic modes cs (place dynamic modes c (lookup c.plugin s.0) s)
      (elim (Option-cases (lookup c.plugin s.0)) [
        | inl new ↦ rw new (insert-NodupKeys c.name (c.name ∷ []) s.1 u)
        | inr (first, seen) ↦ elim (Bool-cases (text_at c.name modes == dynamic)) [
          | inl own ↦ rw (seen, own) (insert-NodupKeys c.name (c.name ∷ []) s.1 u)
          | inr shared ↦
              rw (seen, shared) (insert-NodupKeys first (names_at first s.1 ++ c.name ∷ []) s.1 u)
        ]
      ])

pub new_connection_schema_map_for_connections-NodupKeys :
    (dynamic : String) (cs : List Connection) (modes : Dict String String)
    → NodupKeys (new_connection_schema_map_for_connections dynamic cs modes)
unfolding new_connection_schema_map_for_connections
new_connection_schema_map_for_connections-NodupKeys dynamic cs modes =
    each_connection-NodupKeys dynamic modes cs ([], []) tt

pub plugin_at-count :
    (n q : String) (cs : List Connection) → plugin_at n cs ≡ some q → 0 < count n (names_of cs)
unfolding plugin_at count
plugin_at-count n q [] h = cc
plugin_at-count n q (c ∷ cs) h = ground (arith, plugin_at-count n q cs)

-- Each connection is used by a list of the schema map.
used_of_plugin_at :
    (dynamic : String) (cs : List Connection) (modes : Dict String String)
    → DistinctNames cs
    → (n q : String) → plugin_at n cs ≡ some q
    → used n
        (new_connection_schema_map_for_connections dynamic cs modes)
        (unique_schemas (new_connection_schema_map_for_connections dynamic cs modes))
      ≡ true
unfolding unique_schemas
used_of_plugin_at dynamic cs modes u n q h =
    let res = new_connection_schema_map_for_connections dynamic cs modes in
    let (k, names, e, l) =
      listed_under n res (new_connection_schema_map_for_connections-NodupKeys dynamic cs modes) (
        omega (
          arith,
          occurrences-new_connection_schema_map_for_connections dynamic cs modes n u,
          plugin_at-count n q cs h,
        )) in
    keys-any (λ j. listed n (names_at j res)) k names res e (rw (e, names_at) l)

module _ (sdk : Sdk) (set_config : Bool) (cs : List Connection) (reattach_map : Dict String ℕ) where
  open sdk use {dynamic, get, get_plugin_manager}

  -- The plugin of a connection has the schema that a started plugin of that name told.
  abbrev pub HasSchema : PluginMap sdk → String → String → Type 0
  HasSchema plugins n q =
      (p : ConnectionPlugin sdk) × (s : Schema) × (lookup n plugins ≡ some p)
      × (p.plugin_name ≡ q)
      × (p.schema ≡ some s)
      × IsSchemaOf sdk set_config reattach_map cs q s

  started-Told :
      DistinctNames cs
      → All
          (λ c.
            (p : ConnectionPlugin sdk) (s : Schema)
            → Starts sdk set_config reattach_map c p s
            → IsSchemaOf sdk set_config reattach_map cs c.plugin s)
          cs
  started-Told u = All-mono _ _ (λ c e p s starts. (c, p, starts, e)) cs (All-plugin_at cs u)

  filled_at :
      (schemas : Dict String Schema) (b : Bool) (o : Option (ConnectionPlugin sdk))
      (p : ConnectionPlugin sdk)
      → b ≡ true
      → o ≡ some p
      → (if b then filled? sdk schemas o else o) ≡ some (filled sdk schemas p)
  filled_at schemas b o p e f = rw (e, f) refl

  build_of_fetched :
      (plugins : PluginMap sdk) (schemas : Dict String Schema)
      → fetch_each sdk plugins ([], []) ≡ (schemas, [])
      → build_plugin_schema_map sdk plugins ≡ answer schemas
  unfolding build_plugin_schema_map
  build_of_fetched plugins schemas e = ground arith

  populate-HasSchema :
      (plugins : PluginMap sdk)
      → DistinctNames cs
      → Covers sdk (λ n. plugin_at n cs) plugins
      → Values (Tells sdk (IsSchemaOf sdk set_config reattach_map cs)) plugins
      → (plugins' : PluginMap sdk) × (populate_connection_plugin_schemas sdk cs plugins
          ≡ answer plugins')
        × ((n q : String) → plugin_at n cs ≡ some q → HasSchema plugins' n q)
  unfolding populate_connection_plugin_schemas
  populate-HasSchema plugins u covers tells =
      let Told = IsSchemaOf sdk set_config reattach_map cs in
      let (schemas, fetched, (_, told, has)) =
        fetch_each-Fetched sdk Told plugins [] [] tells
          (λ q s e. cc (lookup-nil {V = Schema} q, e)) in
      let (modes, moded) = build_schema_mode_map-answer sdk plugins schemas has in
      let res = new_connection_schema_map_for_connections dynamic cs modes in
      let (plugins', set, at) =
        set_schemas-filled sdk schemas res (λ n. plugin_at n cs)
          (new_connection_schema_map_for_connections-OnePlugin dynamic cs modes u)
          (unique_schemas res) plugins covers in
      (
        plugins',
        rw (build_of_fetched plugins schemas fetched, moded, populate_connection_plugin_schemas)
            set,
        λ n q h.
            let (p, found, of_q) = covers n q h in
            let (s, of_p) =
              Values-lookup (λ p'. (s : Schema) × (lookup p'.plugin_name schemas ≡ some s)) n p
                plugins has found in
            (
              filled sdk schemas p,
              s,
              at n ∙ filled_at schemas _ _ p (used_of_plugin_at dynamic cs modes u n q h) found,
              of_q,
              of_p,
              told q s (subst (λ x. lookup x schemas ≡ some s) of_q of_p),
            ),
      )

  -- Where the plugin manager answers for connections with distinct names, and the plugin of each of
  -- them starts and tells its schema, CreateConnectionPlugins returns without a warning, and each
  -- connection has a plugin of its own plugin's name, with a schema that a started plugin of that
  -- name told for one of the connections.
  pub create_connection_plugins-HasSchema :
      DistinctNames cs
      → get_plugin_manager ≡ none
      → get (names_of cs) ≡ inr reattach_map
      → All (HasStarted sdk set_config reattach_map) cs
      → (plugins : PluginMap sdk) × (create_connection_plugins sdk set_config cs
          ≡ answer (plugins, []))
        × ((n q : String) → plugin_at n cs ≡ some q → HasSchema plugins n q)
  unfolding create_connection_plugins
  create_connection_plugins-HasSchema u manager got starts =
      let (made, e, (covers, _, tells)) =
        create_each-Made sdk set_config reattach_map (IsSchemaOf sdk set_config reattach_map cs) cs
          [] [] u starts (started-Told u) tt in
      let (plugins, populated, has) = populate-HasSchema made u covers tells in
      (plugins, rw (manager, got, e, populated) refl, has)
