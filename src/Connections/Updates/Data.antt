-- ===== src/Connections/Updates/Data.antt =====
-- connection_updates.go: the data that NewConnectionUpdates puts into its updates.
use mathlib.Core.Option.{some-injective, none-ne-some}
use steampipe.Prelude.{
  [], ◌∷◌, ◌≡◌, some, true, inl, inr, ◌∙◌, arith, refl, String, List, Option-cases, Bool-cases,
  ◌==◌, string_eq, sym, ap, none, ◌⊎◌, eq_of_==, if◌then◌else◌,
}
use steampipe.Connections.{answer, ◌>>=◌, ConnectionDataMap, ConnectionData}
use steampipe.Connections.Updates.{
  connections, with_dynamic_schema, schema_hashes, Environment, PluginMap,
  get_schema_hashes_for_dynamic_schemas, create_connection_plugins,
}
use steampipe.Connections.Updates.Compare.{out_of_date, is_out_of_date, hash_changed}
use steampipe.Prelude.Options.{is_some}
use steampipe.Connections.Updates.Settled.{Entries}
use steampipe.Connections.Updates.Loaded.{>>=-eq-answer}
use steampipe.Connections.Updates.Needed.{answer_injective}
use steampipe.Connections.Updates.Dynamic.{create_connection_plugins-KeysAre}
use steampipe.Connections.Updates.Keys.{IsNamed, connections-names, schema_hashes-keys}
use steampipe.Prelude.Dict.{lookup, Dict, NodupKeys, lookup-insert, insert, lookup-cons}

module _ (env : Environment) where
  open env use {sdk, format_int}

  -- A connection that is out of date is updated to what is required.
  pub out_of_date-from :
      (current required update : ConnectionDataMap) (n : String) (v : ConnectionData)
      → NodupKeys required
      → lookup n (out_of_date env current required update) ≡ some v
      → ((lookup n required ≡ some v) × (is_out_of_date env current n v ≡ true))
        ⊎ (lookup n update ≡ some v)
  unfolding out_of_date
  out_of_date-from current [] update n v distinct e = inr e
  out_of_date-from current ((k, d) ∷ required) update n v (new, distinct) e =
      elim (out_of_date-from current required
        (if is_out_of_date env current k d then insert k d update else update) n v distinct e) [
          | inl (found, out) ↦ elim (Bool-cases (k == n)) [
            | inl same ↦
                let none_there : lookup n required ≡ none =
                  ap (λ x. lookup x required) (sym (eq_of_== k n same)) ∙ new in
                absurd (none-ne-some v (sym none_there ∙ found))
            | inr other ↦ inl (lookup-cons n k d required ∙ rw other found, out)
          ]
          | inr stored ↦ elim (Bool-cases (is_out_of_date env current k d)) [
            | inr up_to_date ↦ inr (sym (rw up_to_date refl) ∙ stored)
            | inl out ↦
                let inserted : lookup n (insert k d update) ≡ some v = sym (rw out refl) ∙ stored in
                elim (Bool-cases (k == n)) [
                  | inl same ↦
                      let is : d ≡ v =
                        some-injective _ _
                          (sym (lookup-insert n k d update ∙ rw same refl) ∙ inserted) in
                      inl (
                        lookup-cons n k d required ∙ rw same (ap some is),
                        sym (
                              ap (λ x. is_out_of_date env current x d) (eq_of_== k n same)
                              ∙ ap (is_out_of_date env current n) is)
                            ∙ out,
                      )
                  | inr other ↦ inr (sym (lookup-insert n k d update ∙ rw other refl) ∙ inserted)
                ]
          ]
        ]

  -- A connection whose schema has changed is updated to what is in the state.
  pub hash_changed-from :
      (current : ConnectionDataMap) (hashes : Dict String String) (update : ConnectionDataMap)
      (n : String) (v : ConnectionData)
      → lookup n (hash_changed env current hashes update) ≡ some v
      → ((lookup n current ≡ some v) × (is_some (lookup n hashes) ≡ true))
        ⊎ (lookup n update ≡ some v)
  unfolding hash_changed
  hash_changed-from current [] update n v e = inr e
  hash_changed-from current ((k, hash) ∷ hashes) update n v e =
      elim (Option-cases (lookup k current)) [
        | inl gone ↦
            beside update
              (hash_changed-from current hashes update n v (sym (rw (gone, hash_changed) refl) ∙ e))
        | inr (d, found) ↦ elim (Bool-cases (d.schema_hash == hash)) [
          | inl same_hash ↦ beside update (
              hash_changed-from current hashes update n v
                (sym (rw (found, same_hash, hash_changed) refl) ∙ e))
          | inr other_hash ↦ stored d found (
              hash_changed-from current hashes (insert k d update) n v
                (sym (rw (found, other_hash, hash_changed) refl) ∙ e))
        ]
      ]
    where
      beside :
          (m : ConnectionDataMap)
          → ((lookup n current ≡ some v) × (is_some (lookup n hashes) ≡ true))
            ⊎ (lookup n m ≡ some v)
          → ((lookup n current ≡ some v) × (is_some (lookup n ((k, hash) ∷ hashes)) ≡ true))
            ⊎ (lookup n m ≡ some v)
      beside m (inl (at_n, hashed)) =
          inl (at_n, ground (arith, hashed, lookup-cons n k hash hashes))
      beside m (inr h) = inr h

      stored :
          (d : ConnectionData)
          → lookup k current ≡ some d
          → ((lookup n current ≡ some v) × (is_some (lookup n hashes) ≡ true))
            ⊎ (lookup n (insert k d update) ≡ some v)
          → ((lookup n current ≡ some v) × (is_some (lookup n ((k, hash) ∷ hashes)) ≡ true))
            ⊎ (lookup n update ≡ some v)
      stored d found (inl h) = beside update (inl h)
      stored d found (inr inserted) = elim (Bool-cases (k == n)) [
        | inl same ↦
            let is : d ≡ v =
              some-injective _ _ (sym (lookup-insert n k d update ∙ rw same refl) ∙ inserted) in
            inl (
              ap (λ x. lookup x current) (sym (eq_of_== k n same)) ∙ found ∙ ap some is,
              ground (arith, same, lookup-cons n k hash hashes),
            )
        | inr other ↦ inr (sym (lookup-insert n k d update ∙ rw other refl) ∙ inserted)
      ]

  -- The state has a connection of this name, with a dynamic schema.
  abbrev pub IsDynamic : ConnectionDataMap → String → Type 0
  IsDynamic current k =
      (c : ConnectionData) × (lookup k current ≡ some c) × ((c.schema_mode == sdk.dynamic) ≡ true)

  pub with_dynamic_schema-IsDynamic :
      (P : String → Type 0) (required current : ConnectionDataMap)
      → Entries (IsNamed env P) required
      → Entries (IsNamed env (IsDynamic current)) (with_dynamic_schema env required current)
  unfolding with_dynamic_schema
  with_dynamic_schema-IsDynamic P [] current h = tt
  with_dynamic_schema-IsDynamic P ((k, d) ∷ required) current ((_, c, is_c, named), hs) =
      let rest = with_dynamic_schema-IsDynamic P required current hs in
      elim (Option-cases (lookup k current)) [
        | inl gone ↦ rw (gone, with_dynamic_schema) rest
        | inr (v, found) ↦ elim (Bool-cases (v.schema_mode == sdk.dynamic)) [
          | inl dyn ↦ rw (found, dyn, with_dynamic_schema) (((v, found, dyn), c, is_c, named), rest)
          | inr static ↦ rw (found, static, with_dynamic_schema) rest
        ]
      ]

  -- What holds of the names that are hashed.
  pub hashes-IsNamed :
      (P : String → Type 0) (loaded current : ConnectionDataMap) (hashes : Dict String String)
      (created : PluginMap sdk) (n : String)
      → Entries (IsNamed env P) (with_dynamic_schema env loaded current)
      → get_schema_hashes_for_dynamic_schemas env loaded current ≡ answer (hashes, created)
      → is_some (lookup n hashes) ≡ true
      → P n
  unfolding get_schema_hashes_for_dynamic_schemas
  hashes-IsNamed P loaded current hashes created n named e h =
      let dynamic = with_dynamic_schema env loaded current in
      let pair =
        λ (made : PluginMap sdk × List String) (hs : Dict String String). answer (hs, made.0) in
      let after = λ (made : PluginMap sdk × List String). schema_hashes env made.0 >>= pair made in
      let (made, f1, f2) =
        >>=-eq-answer (connections env dynamic >>= create_connection_plugins sdk true) after e in
      let (cs, e1, e2) =
        >>=-eq-answer (connections env dynamic) (create_connection_plugins sdk true) f1 in
      let (hs, e3, f3) = >>=-eq-answer (schema_hashes env made.0) (pair made) f2 in
      let same : hs ≡ hashes = ap (λ p. p.0) (answer_injective (hs, made.0) (hashes, created) f3) in
      create_connection_plugins-KeysAre sdk P true cs made
        (connections-names env P dynamic cs e1 named) e2 n
        (sym (schema_hashes-keys env made.0 hs n e3) ∙ ap (λ x. is_some (lookup n x)) same ∙ h)
