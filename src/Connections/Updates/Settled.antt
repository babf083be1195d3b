-- ===== src/Connections/Updates/Settled.antt =====
-- A second refresh, with nothing changed since the first.
use steampipe.Prelude.{
  ◌≡◌, some, inl, inr, String, ◌∷◌, [], Bool-cases, ==_refl, arith, ◌==◌, string_eq, refl,
}
use steampipe.Connections.{answer, ◌>>=◌, ConnectionData, ConnectionDataMap}
use steampipe.Connections.Updates.Compare.{
  update_required_state_with_schema_properties, from_plugin, from_hash, from_state,
}
use steampipe.Prelude.Dict.{lookup, Dict, insert, NodupKeys}
use steampipe.Connections.Updates.{Environment, PluginMap}
use steampipe.Prelude.Options.{is_some}
use steampipe.Connections.Updates.Loaded.{>>=-eq-answer}

-- Every entry of a map, with its key.
module _ {ℓ κ} {A : Type ℓ} (P : String → A → Type κ) where
  abbrev pub Entries : Dict String A → Type κ
  Entries [] = Unit
  Entries ((k, a) ∷ m) = P k a × Entries m

  pub insert-Entries :
      (k : String) (a : A) (m : Dict String A) → P k a → Entries m → Entries (insert k a m)
  unfolding insert
  insert-Entries k a [] h hs = (h, tt)
  insert-Entries k a ((j, b) ∷ m) h (hb, hs) = elim (Bool-cases (j == k)) [
    | inl same ↦ rw same (h, hs)
    | inr other ↦ rw other (hb, insert-Entries k a m h hs)
  ]

  pub Entries-lookup :
      (m : Dict String A)
      → NodupKeys m
      → ((k : String) (a : A) → lookup k m ≡ some a → P k a)
      → Entries m
  unfolding lookup
  Entries-lookup [] u h = tt
  Entries-lookup ((k, a) ∷ m) (new, u) h =
      (h k a (rw (==_refl k) refl), Entries-lookup m u (λ j b e. h j b (ground (arith, e, new))))

-- The data but for the schema mode and hash.
abbrev pub SameBut : ConnectionData → ConnectionData → Type 0
SameBut v v' = v' ≡ record v { schema_mode = v'.schema_mode; schema_hash = v'.schema_hash }

abbrev pub Similar : ConnectionDataMap → ConnectionDataMap → Type 0
Similar [] [] = Unit
Similar ((k, v) ∷ required) ((k', v') ∷ state) = (k' ≡ k) × SameBut v v' × Similar required state
Similar _ _ = ⊥

pub Similar-lookup :
    (required state : ConnectionDataMap) (n : String)
    → Similar required state
    → is_some (lookup n state) ≡ is_some (lookup n required)
unfolding lookup
Similar-lookup [] [] n h = refl
Similar-lookup [] ((k', v') ∷ state) n h = absurd h
Similar-lookup ((k, v) ∷ required) [] n h = absurd h
Similar-lookup ((k, v) ∷ required) ((k', v') ∷ state) n (e, _, h) =
    ground (arith, e, Similar-lookup required state n h)

pub Similar-NodupKeys :
    (required state : ConnectionDataMap)
    → Similar required state
    → NodupKeys required
    → NodupKeys state
Similar-NodupKeys [] [] h u = tt
Similar-NodupKeys [] ((k', v') ∷ state) h u = absurd h
Similar-NodupKeys ((k, v) ∷ required) [] h u = absurd h
Similar-NodupKeys ((k, v) ∷ required) ((k', v') ∷ state) (e, _, h) (new, u) = (
  ground (arith, e, new, Similar-lookup required state k h),
  Similar-NodupKeys required state h u,
)

module _ (env : Environment) where
  open env use {sdk, format_int}

  pub update_required-Similar :
      (current : ConnectionDataMap) (hashes : Dict String String) (plugins : PluginMap sdk)
      (required state : ConnectionDataMap)
      → update_required_state_with_schema_properties env current hashes plugins required
        ≡ answer state
      → Similar required state
  unfolding update_required_state_with_schema_properties
  update_required-Similar current hashes plugins [] [] h = tt
  update_required-Similar current hashes plugins [] (x ∷ state) h = cc
  update_required-Similar current hashes plugins ((k, v) ∷ required) state h =
      let set =
        from_plugin env (lookup k plugins)
          (from_hash env (lookup k hashes) (from_state env (lookup k current) v)) in
      let loop = update_required_state_with_schema_properties env current hashes plugins required in
      let (v', e, h1) = >>=-eq-answer set (λ v'. loop >>= λ rest. answer ((k, v') ∷ rest)) h in
      let (rest, e1, h2) = >>=-eq-answer loop (λ rest. answer ((k, v') ∷ rest)) h1 in
      let whole : state ≡ (k, v') ∷ rest = cc in
      rw whole
        (refl, ground (arith, e), update_required-Similar current hashes plugins required rest e1)
