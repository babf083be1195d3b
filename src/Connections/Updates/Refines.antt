-- ===== src/Connections/Updates/Refines.antt =====
-- The updates turn the connections of the state into the required ones.
use mathlib.Core.Option.{some-injective}
use steampipe.Prelude.{
  [], ◌∷◌, ◌≡◌, some, true, inl, inr, ◌∙◌, arith, refl, String, List, Option-cases, ◌||◌,
  Bool-cases, ◌==◌, string_eq, sym, subst, ap, ◌&&◌, not, ℕ, Bool, false, none, ◌⊎◌,
}
use steampipe.Connections.{
  answer, ConnectionDataMap, ConnectionData, Connection, new_connection_data, data_equal,
}
use steampipe.Connections.Updates.{
  Environment, PluginMap, get_schema_hashes_for_dynamic_schemas, new_connection_data_map,
}
use steampipe.Connections.Updates.Compare.{
  out_of_date, is_out_of_date, no_longer_required, updated, ConnectionUpdates,
  new_connection_updates,
}
use steampipe.Prelude.Dict.{lookup, Dict, NodupKeys, lookup-nil}
use steampipe.Prelude.Options.{is_some}
use steampipe.Connections.Updates.Settled.{
  Entries, Entries-lookup, Similar, SameBut, update_required-Similar, Similar-lookup,
}
use steampipe.Connections.Updates.Loaded.{IsResolved, new_connection_data_map-IsResolved}
use steampipe.Connections.Updates.Needed.{answer_injective, new_connection_updates-Calls}
use steampipe.Connections.Updates.Data.{
  IsDynamic, hash_changed-from, out_of_date-from, with_dynamic_schema-IsDynamic, hashes-IsNamed,
}
use steampipe.Connections.State.{StateFile, get_connection_state}
use steampipe.Connections.Updates.Keys.{
  IsNamed, out_of_date-update, hash_changed-keys, hash_changed-grows, with_dynamic_schema-Entries,
  out_of_date-keys, no_longer_required-keys,
}
use steampipe.Connections.Updates.New.{new_connection_data_map-IsNew}

module _ (env : Environment) where
  open env use {sdk, format_int}

  -- Only required connections are hashed.
  hashes-required :
      (loaded current : ConnectionDataMap) (hashes : Dict String String) (created : PluginMap sdk)
      (n : String)
      → Entries (IsNamed env (λ k. is_some (lookup k loaded) ≡ true)) loaded
      → get_schema_hashes_for_dynamic_schemas env loaded current ≡ answer (hashes, created)
      → is_some (lookup n hashes) ≡ true
      → is_some (lookup n loaded) ≡ true
  hashes-required loaded current hashes created n named e h =
      let P = λ (k : String). is_some (lookup k loaded) ≡ true in
      hashes-IsNamed env P loaded current hashes created n
        (with_dynamic_schema-Entries env (IsNamed env P) loaded current named) e h

  -- The required connections stand under their names, where those of the config do.
  loaded-IsNamed :
      (config : Dict String Connection) (loaded : ConnectionDataMap) (missing : List String)
      → NodupKeys config
      → ((n : String) (c : Connection) → lookup n config ≡ some c → c.name ≡ n)
      → new_connection_data_map env config ≡ answer (loaded, missing)
      → Entries (IsNamed env (λ k. is_some (lookup k loaded) ≡ true)) loaded
  unfolding new_connection_data
  loaded-IsNamed config loaded missing distinct named e =
      let (nodup, _) = new_connection_data_map-IsNew env config loaded missing distinct e in
      let (resolved, others) =
        new_connection_data_map-IsResolved env config loaded missing distinct e in
      Entries-lookup (IsNamed env (λ k. is_some (lookup k loaded) ≡ true)) loaded nodup
        (λ k d found.
          let (c', is_c', at_c') = configured_as k d found (others k) (resolved k) in
          (rw found refl, c', is_c', at_c'))
    where
      of_resolved :
          (k : String) (d : ConnectionData) (c : Connection)
          → lookup k loaded ≡ some d
          → c.name ≡ k
          → (times : Dict String ℕ) × IsResolved env
              (record { required = loaded; missing_plugins = missing; mod_times = times })
              k
              c
          → (c' : Connection) × (d.connection ≡ some c') × (c'.name ≡ k)
      of_resolved k d c found at_k (times, (path, _, inl (_, _, not_required))) =
          absurd (ground (arith, found, not_required))
      of_resolved k d c found at_k (times, (path, _, inr (_, t, _, required))) =
          let same : d ≡ new_connection_data c.plugin c t =
            some-injective _ _ (sym found ∙ required) in
          (c, ap (λ (x : ConnectionData). x.connection) same, at_k)

      configured_as :
          (k : String) (d : ConnectionData)
          → lookup k loaded ≡ some d
          → (lookup k config ≡ none → lookup k loaded ≡ none)
          → ((c : Connection)
              → lookup k config ≡ some c
              → (times : Dict String ℕ) × IsResolved env
                  (record { required = loaded; missing_plugins = missing; mod_times = times })
                  k
                  c)
          → (c' : Connection) × (d.connection ≡ some c') × (c'.name ≡ k)
      configured_as k d found others resolved = elim (Option-cases (lookup k config)) [
        | inl gone ↦ absurd (ground (arith, others, gone, found))
        | inr (c, at_c) ↦ of_resolved k d c found (named k c at_c) (resolved c at_c)
      ]

  joined :
      (out upd del cur req hash : Bool)
      → (upd ≡ true → (out || hash) ≡ true)
      → (out ≡ true → upd ≡ true)
      → (out ≡ true → req ≡ true)
      → (hash ≡ true → req ≡ true)
      → (cur ≡ false → req ≡ true → out ≡ true)
      → del ≡ (cur && not req)
      → (upd || cur && not del) ≡ req
  joined out upd del cur req hash a b c d e f = ground (arith, a, b, c, d, e, f)

  absent :
      (loaded current : ConnectionDataMap) (n : String)
      → is_some (lookup n current) ≡ false
      → is_some (lookup n loaded) ≡ true
      → is_some (lookup n (out_of_date env current loaded [])) ≡ true
  unfolding is_out_of_date
  absent loaded current n gone req = elim (Option-cases (lookup n loaded)) [
    | inl missing ↦ absurd (ground (arith, missing, req))
    | inr (d, found) ↦ out_of_date-update env current loaded [] n d found (ground (arith, gone))
  ]

  -- The updates and the deletions turn the state's names into the required ones.
  turns :
      (loaded current : ConnectionDataMap) (hashes : Dict String String) (n : String)
      → (is_some (lookup n hashes) ≡ true → is_some (lookup n loaded) ≡ true)
      → (is_some (lookup n (updated env loaded current hashes))
          || is_some (lookup n current)
            && not (is_some (lookup n (no_longer_required env loaded current []))))
        ≡ is_some (lookup n loaded)
  turns loaded current hashes n hashed =
      let out = out_of_date env current loaded [] in
      joined (is_some (lookup n out)) (is_some (lookup n (updated env loaded current hashes)))
        (is_some (lookup n (no_longer_required env loaded current []))) (is_some (lookup n current))
        (is_some (lookup n loaded)) (is_some (lookup n hashes))
        (hash_changed-keys env current hashes out n) (hash_changed-grows env current hashes out n)
        (λ e.
          ground
            (arith, out_of_date-keys env current loaded [] n e, lookup-nil {V = ConnectionData} n))
        hashed (λ gone req. absent loaded current n gone req)
        (no_longer_required-keys env loaded current [] n
          ∙ ground (arith, lookup-nil {V = ConnectionData} n))

  -- Whether a connection is out of date does not hang on the schema mode and hash required of it.
  out_of_date_alike :
      (current : ConnectionDataMap) (n : String) (d d' : ConnectionData)
      → SameBut d d'
      → is_out_of_date env current n d' ≡ is_out_of_date env current n d
  unfolding is_out_of_date data_equal
  out_of_date_alike current n d d' same = ap (is_out_of_date env current n) same

  Similar-SameBut :
      (required state : ConnectionDataMap) (n : String) (d' : ConnectionData)
      → Similar required state
      → lookup n state ≡ some d'
      → (d : ConnectionData) × (lookup n required ≡ some d) × SameBut d d'
  unfolding lookup
  Similar-SameBut [] [] n d' s e = cc
  Similar-SameBut [] (x ∷ state) n d' s e = absurd s
  Similar-SameBut ((k, v) ∷ required) [] n d' s e = absurd s
  Similar-SameBut ((k, v) ∷ required) ((k', v') ∷ state) n d' (k_k, same, s) e =
      elim (Bool-cases (k == n)) [
        | inl at_n ↦
            let at' : v' ≡ d' = ground (arith, k_k, at_n, e) in
            (v, rw at_n refl, subst (SameBut v) at' same)
        | inr other ↦
            let (d, found, same_d) =
              Similar-SameBut required state n d' s (ground (arith, k_k, other, e)) in
            (d, rw other found, same_d)
      ]

  -- What an update is made of: the required data of a connection that is out of date, but for the
  -- schema mode and hash, or the data in the state of a connection with a dynamic schema.
  abbrev pub IsUpdate : ConnectionDataMap → ConnectionDataMap → String → ConnectionData → Type 0
  IsUpdate current state n v =
      ((d : ConnectionData) × (lookup n state ≡ some d)
        × SameBut v d
        × (is_out_of_date env current n d ≡ true))
      ⊎ ((lookup n current ≡ some v) × ((v.schema_mode == sdk.dynamic) ≡ true))

  -- How the updates and the deletions turn the state `current` into the required one.
  abbrev pub Turns :
      ConnectionDataMap → ConnectionDataMap → ConnectionDataMap → ConnectionDataMap → Type 0
  Turns current update delete state =
      ((n : String)
        → (is_some (lookup n update)
            || is_some (lookup n current) && not (is_some (lookup n delete)))
          ≡ is_some (lookup n state))
      × ((n : String) (d : ConnectionData)
          → lookup n state ≡ some d
          → is_out_of_date env current n d ≡ true
          → is_some (lookup n update) ≡ true)
      × ((n : String) (v : ConnectionData) → lookup n update ≡ some v → IsUpdate current state n v)

  lookup-Similar :
      (required state : ConnectionDataMap) (n : String) (d : ConnectionData)
      → Similar required state
      → lookup n required ≡ some d
      → (d' : ConnectionData) × (lookup n state ≡ some d') × SameBut d d'
  unfolding lookup
  lookup-Similar [] [] n d s e = cc
  lookup-Similar [] (x ∷ state) n d s e = absurd s
  lookup-Similar ((k, v) ∷ required) [] n d s e = absurd s
  lookup-Similar ((k, v) ∷ required) ((k', v') ∷ state) n d (k_k, same, s) e =
      elim (Bool-cases (k == n)) [
        | inl at_n ↦
            let at' : v ≡ d = ground (arith, at_n, e) in
            (v', ground (arith, k_k, at_n), subst (λ x. SameBut x v') at' same)
        | inr other ↦
            let (d', found, same_d) =
              lookup-Similar required state n d s (ground (arith, other, e)) in
            (d', ground (arith, k_k, other, found), same_d)
      ]

  updated-IsUpdate :
      (loaded current : ConnectionDataMap) (hashes : Dict String String) (created : PluginMap sdk)
      (state : ConnectionDataMap) (n : String) (v : ConnectionData)
      → NodupKeys loaded
      → Entries (IsNamed env (λ k. is_some (lookup k loaded) ≡ true)) loaded
      → get_schema_hashes_for_dynamic_schemas env loaded current ≡ answer (hashes, created)
      → Similar loaded state
      → lookup n (updated env loaded current hashes) ≡ some v
      → IsUpdate current state n v
  unfolding lookup
  updated-IsUpdate loaded current hashes created state n v distinct named at_hashes similar e =
      elim (hash_changed-from env current hashes (out_of_date env current loaded []) n v e) [
        | inl (at_n, hashed) ↦
            let (c, at_c, dynamic) =
              hashes-IsNamed env (IsDynamic env current) loaded current hashes created n
                (with_dynamic_schema-IsDynamic env _ loaded current named) at_hashes hashed in
            let is : c ≡ v = some-injective _ _ (sym at_c ∙ at_n) in
            inr (at_n, ap (λ (x : ConnectionData). x.schema_mode == sdk.dynamic) (sym is) ∙ dynamic)
        | inr stored ↦ elim (out_of_date-from env current loaded [] n v distinct stored) [
          | inl (found, out) ↦
              let (d, at_d, alike) = lookup-Similar loaded state n v similar found in
              inl (d, at_d, alike, out_of_date_alike current n v d alike ∙ out)
          | inr nothing ↦ cc
        ]
      ]

  module _ (config : Dict String Connection) (file : StateFile) (names : List String)
      (u : ConnectionUpdates env) (warnings : List String) (current : ConnectionDataMap) where
    -- Where NewConnectionUpdates returns, for a config that has each connection once under its name
    -- and the state `current`: the connections of the state that it does not delete, with those that
    -- it updates, are exactly the required ones; each required connection that is not in the state,
    -- or differs from it in plugin, time of the plugin's file, name, options or config, is updated;
    -- and each update has the data of a required connection that is out of date in this way, but for
    -- the schema mode and hash, or the data that the state has of a connection with a dynamic schema.
    pub new_connection_updates-required_connection_state :
        NodupKeys config
        → ((n : String) (c : Connection) → lookup n config ≡ some c → c.name ≡ n)
        → get_connection_state file names ≡ answer current
        → new_connection_updates env config file names ≡ answer (u, warnings)
        → Turns current u.update u.delete u.required_connection_state
    new_connection_updates-required_connection_state distinct named at_current h =
        let calls = new_connection_updates-Calls env config file names u warnings h in
        let same : calls.current ≡ current =
          answer_injective calls.current current (sym calls.at_current ∙ at_current) in
        let similar =
          update_required-Similar env calls.current calls.hashes calls.plugins calls.loaded
            calls.state calls.at_state in
        let keys_named =
          loaded-IsNamed config calls.loaded calls.missing distinct named calls.at_loaded in
        let nodup =
          (new_connection_data_map-IsNew env config calls.loaded calls.missing distinct
            calls.at_loaded).0 in
        subst
          (λ (x : ConnectionUpdates env).
            Turns current x.update x.delete x.required_connection_state)
          (sym calls.result)
          (subst
            (λ (cur : ConnectionDataMap).
              Turns cur (updated env calls.loaded calls.current calls.hashes)
                (no_longer_required env calls.loaded calls.current []) calls.state)
            same
            (
              λ n.
                  turns calls.loaded calls.current calls.hashes n (
                    hashes-required calls.loaded calls.current calls.hashes calls.created n
                      keys_named calls.at_hashes)
                  ∙ sym (Similar-lookup calls.loaded calls.state n similar),
              λ n d e out.
                  let (d0, found, alike) = Similar-SameBut calls.loaded calls.state n d similar e in
                  hash_changed-grows env calls.current calls.hashes
                    (out_of_date env calls.current calls.loaded []) n
                    (out_of_date-update env calls.current calls.loaded [] n d0 found
                      (sym (out_of_date_alike calls.current n d0 d alike) ∙ out)),
              λ n v e.
                  updated-IsUpdate calls.loaded calls.current calls.hashes calls.created calls.state
                    n v nodup keys_named calls.at_hashes similar e,
            ))
