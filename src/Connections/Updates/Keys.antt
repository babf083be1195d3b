-- ===== src/Connections/Updates/Keys.antt =====
-- The keys of the maps that NewConnectionUpdates makes.
use steampipe.Prelude.{
  [], ◌∷◌, ◌≡◌, some, true, inl, inr, ◌∙◌, arith, refl, String, List, Option-cases, ◌||◌,
  if◌then◌else◌, Bool-cases, All, ◌==◌, string_eq, eq_of_==, sym, subst, ◌&&◌, not,
}
use steampipe.Connections.{answer, ◌>>=◌, ConnectionDataMap, ConnectionData, Connection}
use steampipe.Connections.Updates.{
  connections, with_dynamic_schema, schema_hashes, Environment, PluginMap, plugin_schema_hash,
}
use steampipe.Connections.Updates.Compare.{
  hash_changed, out_of_date, is_out_of_date, no_longer_required,
}
use steampipe.Prelude.Dict.{lookup, Dict, lookup-insert, insert, lookup-cons}
use steampipe.Prelude.Options.{is_some}
use steampipe.Connections.Updates.Settled.{Entries}
use steampipe.Connections.Updates.Loaded.{>>=-eq-answer}
use steampipe.Connections.Updates.Needed.{answer_injective}

module _ (env : Environment) where
  open env use {sdk, format_int}

  -- The data under a key is that of the connection of that name.
  abbrev pub IsNamed : (String → Type 0) → String → ConnectionData → Type 0
  IsNamed P k d = P k × (c : Connection) × (d.connection ≡ some c) × (c.name ≡ k)

  pub connections-names :
      (P : String → Type 0) (m : ConnectionDataMap) (cs : List Connection)
      → connections env m ≡ answer cs
      → Entries (IsNamed P) m
      → All (λ c. P c.name) cs
  unfolding connections
  connections-names P [] cs e h = let same : cs ≡ [] = cc in rw same tt
  connections-names P ((k, d) ∷ m) cs e ((p, c, is_c, named), hs) =
      let rest = λ (xs : List Connection). answer (c ∷ xs) in
      let run : connections env ((k, d) ∷ m) ≡ (connections env m >>= rest) =
        rw (is_c, connections) refl in
      let (xs, e1, e2) = >>=-eq-answer (connections env m) rest (sym run ∙ e) in
      subst (All (λ c. P c.name)) (answer_injective (c ∷ xs) cs e2)
        (subst P (sym named) p, connections-names P m xs e1 hs)

  pub with_dynamic_schema-Entries :
      (P : String → ConnectionData → Type 0) (required current : ConnectionDataMap)
      → Entries P required
      → Entries P (with_dynamic_schema env required current)
  unfolding with_dynamic_schema
  with_dynamic_schema-Entries P [] current h = tt
  with_dynamic_schema-Entries P ((k, d) ∷ required) current (h, hs) =
      let rest = with_dynamic_schema-Entries P required current hs in
      elim (Option-cases (lookup k current)) [
        | inl gone ↦ rw (gone, with_dynamic_schema) rest
        | inr (v, found) ↦ elim (Bool-cases (v.schema_mode == sdk.dynamic)) [
          | inl dyn ↦ rw (found, dyn, with_dynamic_schema) (h, rest)
          | inr static ↦ rw (found, static, with_dynamic_schema) rest
        ]
      ]

  pub schema_hashes-keys :
      (plugins : PluginMap sdk) (hashes : Dict String String) (n : String)
      → schema_hashes env plugins ≡ answer hashes
      → is_some (lookup n hashes) ≡ is_some (lookup n plugins)
  unfolding schema_hashes lookup
  schema_hashes-keys [] hashes n e = let same : hashes ≡ [] = cc in rw same refl
  schema_hashes-keys ((k, p) ∷ plugins) hashes n e = elim (Option-cases p.schema) [
    | inl missing ↦ absurd (ground (arith, missing, e))
    | inr (s, told) ↦
        let rest = λ (hs : Dict String String). answer ((k, plugin_schema_hash env s) ∷ hs) in
        let run : schema_hashes env ((k, p) ∷ plugins) ≡ (schema_hashes env plugins >>= rest) =
          rw (told, schema_hashes) refl in
        let (hs, e1, e2) = >>=-eq-answer (schema_hashes env plugins) rest (sym run ∙ e) in
        let same : hashes ≡ (k, plugin_schema_hash env s) ∷ hs =
          sym (answer_injective _ hashes e2) in
        rw same (ground (arith, schema_hashes-keys plugins hs n e1))
  ]

  pub out_of_date-keys :
      (current required update : ConnectionDataMap) (n : String)
      → is_some (lookup n (out_of_date env current required update)) ≡ true
      → (is_some (lookup n update) || is_some (lookup n required)) ≡ true
  unfolding out_of_date
  out_of_date-keys current [] update n h = ground (arith, h)
  out_of_date-keys current ((k, d) ∷ required) update n h = ground (
    arith,
    h,
    lookup-insert n k d update,
    lookup-cons n k d required,
    out_of_date-keys current required
        (if is_out_of_date env current k d then insert k d update else update) n,
  )

  out_of_date-grows :
      (current required update : ConnectionDataMap) (n : String)
      → is_some (lookup n update) ≡ true
      → is_some (lookup n (out_of_date env current required update)) ≡ true
  unfolding out_of_date
  out_of_date-grows current [] update n h = h
  out_of_date-grows current ((k, d) ∷ required) update n h =
      out_of_date-grows current required
        (if is_out_of_date env current k d then insert k d update else update) n
        (ground (arith, h, lookup-insert n k d update))

  pub out_of_date-update :
      (current required update : ConnectionDataMap) (n : String) (d : ConnectionData)
      → lookup n required ≡ some d
      → is_out_of_date env current n d ≡ true
      → is_some (lookup n (out_of_date env current required update)) ≡ true
  unfolding out_of_date lookup
  out_of_date-update current [] update n d e h = cc
  out_of_date-update current ((k, v) ∷ required) update n d e h = elim (Bool-cases (k == n)) [
    | inl same ↦
        let v_d : v ≡ d = ground (arith, e, same) in
        let old : is_out_of_date env current k v ≡ true = rw (eq_of_== k n same, v_d) h in
        rw (old) (
          out_of_date-grows current required (insert k v update) n
            (ground (arith, lookup-insert n k v update, same)))
    | inr other ↦
        out_of_date-update current required
          (if is_out_of_date env current k v then insert k v update else update) n d
          (ground (arith, e, other)) h
  ]

  pub hash_changed-keys :
      (current : ConnectionDataMap) (hashes : Dict String String) (update : ConnectionDataMap)
      (n : String)
      → is_some (lookup n (hash_changed env current hashes update)) ≡ true
      → (is_some (lookup n update) || is_some (lookup n hashes)) ≡ true
  unfolding hash_changed
  hash_changed-keys current [] update n h = ground (arith, h)
  hash_changed-keys current ((k, hash) ∷ hashes) update n h =
      elim (Option-cases (lookup k current)) [
        | inl gone ↦ ground (
          arith,
          lookup-cons n k hash hashes,
          hash_changed-keys current hashes update n (sym (rw (gone, hash_changed) refl) ∙ h),
        )
        | inr (d, found) ↦ ground (
          arith,
          h,
          found,
          lookup-insert n k d update,
          lookup-cons n k hash hashes,
          hash_changed-keys current hashes
              (if d.schema_hash == hash then update else insert k d update) n,
        )
      ]

  pub hash_changed-grows :
      (current : ConnectionDataMap) (hashes : Dict String String) (update : ConnectionDataMap)
      (n : String)
      → is_some (lookup n update) ≡ true
      → is_some (lookup n (hash_changed env current hashes update)) ≡ true
  unfolding hash_changed
  hash_changed-grows current [] update n h = h
  hash_changed-grows current ((k, hash) ∷ hashes) update n h =
      elim (Option-cases (lookup k current)) [
        | inl gone ↦ rw (gone, hash_changed) (hash_changed-grows current hashes update n h)
        | inr (d, found) ↦
            rw (found, hash_changed)
              (hash_changed-grows current hashes
                (if d.schema_hash == hash then update else insert k d update) n
                (ground (arith, h, lookup-insert n k d update)))
      ]

  pub no_longer_required-keys :
      (required current delete : ConnectionDataMap) (n : String)
      → is_some (lookup n (no_longer_required env required current delete)) ≡ (
          is_some (lookup n delete)
          || is_some (lookup n current) && not (is_some (lookup n required)))
  unfolding no_longer_required lookup
  no_longer_required-keys required [] delete n = ground arith
  no_longer_required-keys required ((k, d) ∷ current) delete n = ground (
    arith,
    lookup-insert n k d delete,
    no_longer_required-keys required current
        (if is_some (lookup k required) then delete else insert k d delete) n,
  )
