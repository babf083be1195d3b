-- ===== src/Connections/Updates/Unchanged.antt =====
-- Where the state holds what the last refresh made of the connections, nothing is out of date.
use steampipe.Connections.Updates.New.{IsNew}
use steampipe.Prelude.{
  ◌≡◌, none, some, true, false, inl, inr, ◌∙◌, arith, String, Option, List, [], ==_refl, ◌∷◌,
  string_eq, if◌then◌else◌, Option-cases, refl, any, ◌==◌, nat_eq, ◌&&◌, sym, ℕ, ap, subst,
}
use steampipe.Connections.{
  answer, connections_equal, options_equal, ConnectionDataMap, data_equal, Connection,
  ConnectionData, ConnectionOptions, connection_data_struct_version, options_string,
  new_connection_data,
}
use steampipe.Connections.State.{prune_each, delete_old}
use steampipe.Connections.Updates.Compare.{
  update_required_state_with_schema_properties, out_of_date, is_out_of_date, no_longer_required,
}
use steampipe.Connections.Updates.{with_dynamic_schema, Environment}
use steampipe.Prelude.Int.{ℤ}
use steampipe.Connections.Plugins.Created.{Values}
use steampipe.Connections.Updates.Settled.{Entries, SameBut, insert-Entries, Similar}
use steampipe.Prelude.Dict.{lookup, lookup-nil, insert, lookup-insert}
use steampipe.Prelude.Options.{is_some}
use steampipe.Connections.Plugins.{ConnectionPlugin}

options_equal_refl : (f : ℤ → String) (o : Option ConnectionOptions) → options_equal f o o ≡ true
unfolding options_equal
options_equal_refl f none = refl
options_equal_refl f (some o) = ==_refl (options_string f (some o))

connections_equal_refl : (f : ℤ → String) (c : Connection) → connections_equal f c c ≡ true
unfolding connections_equal
connections_equal_refl f c =
    ground (arith, ==_refl c.name, ==_refl c.config, options_equal_refl f c.options)

-- Lookups in the pruned state, and in a state with no old entry.
pub lookup-prune_each :
    (state : ConnectionDataMap) (names : List String) (actual : ConnectionDataMap) (n : String)
    → lookup n (prune_each state names actual) ≡ (
        if any (λ x. x == n) names && is_some (lookup n state)
        then lookup n state
        else lookup n actual)
unfolding prune_each
lookup-prune_each state [] actual n = refl
lookup-prune_each state (x ∷ names) actual n = elim (Option-cases (lookup x state)) [
  | inl gone ↦ rw (gone, prune_each) (lookup-prune_each state names actual n ∙ ground (arith, gone))
  | inr (d, found) ↦
      rw (found, prune_each)
        (lookup-prune_each state names (insert x d actual) n
          ∙ ground (arith, found, lookup-insert n x d actual))
]

pub prune_each-Entries :
    (P : String → ConnectionData → Type 0) (state : ConnectionDataMap) (names : List String)
    (actual : ConnectionDataMap)
    → ((n : String) (d : ConnectionData) → lookup n state ≡ some d → P n d)
    → Entries P actual
    → Entries P (prune_each state names actual)
unfolding prune_each
prune_each-Entries P state [] actual h hs = hs
prune_each-Entries P state (x ∷ names) actual h hs = elim (Option-cases (lookup x state)) [
  | inl gone ↦ rw (gone, prune_each) (prune_each-Entries P state names actual h hs)
  | inr (d, found) ↦
      rw (found, prune_each)
        (prune_each-Entries P state names (insert x d actual) h
          (insert-Entries P x d actual (h x d found) hs))
]

pub delete_old-same :
    (state : ConnectionDataMap)
    → Values (λ d. d.struct_version ≡ connection_data_struct_version) state
    → delete_old state ≡ state
unfolding delete_old
delete_old-same [] h = refl
delete_old-same ((k, d) ∷ state) (h, hs) = rw (h, delete_old-same state hs) refl

module _ (env : Environment) where
  open env use {sdk, format_int}

  -- The state holds what the last refresh made of a connection, whose schema is not dynamic.
  abbrev pub Settled : ConnectionDataMap → ConnectionDataMap → ConnectionDataMap → Type 0
  Settled current [] [] = Unit
  Settled current ((k, v) ∷ required) ((k', v') ∷ state) =
      (k' ≡ k)
      × SameBut v v'
      × IsNew env v
      × (lookup k current ≡ some v')
      × ((v'.schema_mode == sdk.dynamic) ≡ false)
      × Settled current required state
  Settled current _ _ = ⊥

  data_equal-new_connection_data :
      (c : Connection) (t : ℕ) (mode hash : String)
      → data_equal format_int
          (record (new_connection_data c.plugin c t) { schema_mode = mode; schema_hash = hash })
          (new_connection_data c.plugin c t)
        ≡ true
  unfolding data_equal string_eq new_connection_data
  data_equal-new_connection_data c t mode hash =
      rw (==_refl c.plugin, ==_refl t, connections_equal_refl format_int c) refl

  data_equal-SameBut :
      (v v' : ConnectionData) → SameBut v v' → IsNew env v → data_equal format_int v' v ≡ true
  data_equal-SameBut v v' same (c, t, e) =
      let mode = v'.schema_mode in
      let hash = v'.schema_hash in
      let d = new_connection_data c.plugin c t in
      let e' : v' ≡ record d { schema_mode = mode; schema_hash = hash } =
        same ∙ ap (λ (x : ConnectionData). record x { schema_mode = mode; schema_hash = hash }) e in
      ap (data_equal format_int v') e
      ∙ ap (λ x. data_equal format_int x d) e'
      ∙ data_equal-new_connection_data c t mode hash

  pub out_of_date-Settled :
      (current required state update : ConnectionDataMap)
      → Settled current required state
      → out_of_date env current required update ≡ update
  unfolding out_of_date
  out_of_date-Settled current [] [] update h = refl
  out_of_date-Settled current [] (x ∷ state) update h = absurd h
  out_of_date-Settled current ((k, v) ∷ required) [] update h = absurd h
  out_of_date-Settled current ((k, v) ∷ required) ((k', v') ∷ state) update
        (_, same, new, found, _, h) =
      rw (found, data_equal-SameBut v v' same new, is_out_of_date)
        (out_of_date-Settled current required state update h)

  pub with_dynamic_schema-Settled :
      (current required state : ConnectionDataMap)
      → Settled current required state
      → with_dynamic_schema env required current ≡ []
  unfolding with_dynamic_schema
  with_dynamic_schema-Settled current [] [] h = refl
  with_dynamic_schema-Settled current [] (x ∷ state) h = absurd h
  with_dynamic_schema-Settled current ((k, v) ∷ required) [] h = absurd h
  with_dynamic_schema-Settled current ((k, v) ∷ required) ((k', v') ∷ state)
        (_, _, _, found, static, h) =
      ground (arith, with_dynamic_schema-Settled current required state h, found, static)

  pub update_required-Settled :
      (current required state : ConnectionDataMap)
      → Settled current required state
      → update_required_state_with_schema_properties env current [] [] required ≡ answer state
  unfolding update_required_state_with_schema_properties
  update_required-Settled current [] [] h = refl
  update_required-Settled current [] (x ∷ state) h = absurd h
  update_required-Settled current ((k, v) ∷ required) [] h = absurd h
  update_required-Settled current ((k, v) ∷ required) ((k', v') ∷ state) (e, same, _, found, _, h) =
      rw
        (
          found,
          lookup-nil {V = String} k,
          lookup-nil {V = ConnectionPlugin sdk} k,
          sym same,
          sym e,
          update_required-Settled current required state h,
        )
        refl

  pub no_longer_required-Entries :
      (required current delete : ConnectionDataMap)
      → Entries (λ n d. is_some (lookup n required) ≡ true) current
      → no_longer_required env required current delete ≡ delete
  unfolding no_longer_required
  no_longer_required-Entries required [] delete h = refl
  no_longer_required-Entries required ((n, d) ∷ current) delete (h, hs) =
      rw h (no_longer_required-Entries required current delete hs)

  pub settle_all :
      (current required state : ConnectionDataMap)
      → Similar required state
      → Values (IsNew env) required
      → Entries
          (λ k v. (lookup k current ≡ some v) × ((v.schema_mode == sdk.dynamic) ≡ false))
          state
      → Settled current required state
  settle_all current [] [] s n h = tt
  settle_all current [] (x ∷ state) s n h = absurd s
  settle_all current ((k, v) ∷ required) [] s n h = absurd s
  settle_all current ((k, v) ∷ required) ((k', v') ∷ state) (e, same, s) (new, ns)
        ((found, static), h) =
      (
        e,
        same,
        new,
        subst (λ x. lookup x current ≡ some v') e found,
        static,
        settle_all current required state s ns h,
      )

  pub struct_version-Similar :
      (required state : ConnectionDataMap)
      → Similar required state
      → Values (IsNew env) required
      → Values (λ d. d.struct_version ≡ connection_data_struct_version) state
  unfolding new_connection_data
  struct_version-Similar [] [] s n = tt
  struct_version-Similar [] (x ∷ state) s n = absurd s
  struct_version-Similar ((k, v) ∷ required) [] s n = absurd s
  struct_version-Similar ((k, v) ∷ required) ((k', v') ∷ state) (_, same, s) ((c, t, e), ns) = (
    ap (λ (x : ConnectionData). x.struct_version) same
        ∙ ap (λ (x : ConnectionData). x.struct_version) e,
    struct_version-Similar required state s ns,
  )
