-- ===== src/Connections/Updates/New.antt =====
-- NewConnectionDataMap makes new data, under distinct names.
use steampipe.Prelude.{
  inl, ◌≡◌, inr, refl, String, ℕ, string_eq, arith, ◌==◌, List, false, none, ◌∷◌, [], ◌∙◌, ==_refl,
  ◌≢◌, subst,
}
use steampipe.Connections.{
  answer, Connection, new_connection_data, ConnectionDataMap, ConnectionData,
}
use steampipe.Connections.Updates.{
  Environment, Loading, load_connection, inl, load_each, new_connection_data_map,
}
use steampipe.Prelude.Dict.{Dict, lookup, NodupKeys, lookup-nil, insert-NodupKeys}
use steampipe.Connections.Plugins.Created.{Values, insert-Values}
use steampipe.Connections.Updates.Loaded.{load_connection-IsResolved, AreTimes, >>=-eq-answer}

module _ (env : Environment) where
  -- The data of a required connection is new.
  abbrev pub IsNew : ConnectionData → Type 0
  IsNew d = (c : Connection) × (t : ℕ) × (d ≡ new_connection_data c.plugin c t)

  load_each-IsNew :
      (connections : Dict String Connection) (s s' : Loading env)
      → load_each env connections s ≡ answer s'
      → AreTimes env s.mod_times
      → ((n : String) → lookup n connections ≢ none → lookup n s.required ≡ none)
      → NodupKeys connections
      → NodupKeys s.required × Values IsNew s.required
      → NodupKeys s'.required × Values IsNew s'.required
  unfolding load_each lookup
  load_each-IsNew [] s s' h are fresh u old = let same : s' ≡ s = cc in rw same old
  load_each-IsNew ((name, c) ∷ connections) s s' h are fresh (new, u) (nodup, news) =
      let (s1, step, after) =
        >>=-eq-answer (load_connection env name c s) (load_each env connections) h in
      let (_, keeps) =
        load_connection-IsResolved env name c s s1 step are
          (fresh name (ground (arith, ==_refl name))) in
      load_each-IsNew connections s1 s' after keeps.times
        (λ n e.
          let other : (name == n) ≡ false = ground (arith, e, new) in
          keeps.others n other ∙ fresh n (ground (arith, e, other)))
        u
        (elim keeps.stored [
          | inl same ↦ rw same (nodup, news)
          | inr (t, e) ↦
              let d = new_connection_data c.plugin c t in
              rw e (
                insert-NodupKeys name d s.required nodup,
                insert-Values IsNew name d s.required (c, t, refl) news,
              )
        ])

  pub new_connection_data_map-IsNew :
      (config : Dict String Connection) (required : ConnectionDataMap) (missing : List String)
      → NodupKeys config
      → new_connection_data_map env config ≡ answer (required, missing)
      → NodupKeys required × Values IsNew required
  unfolding new_connection_data_map
  new_connection_data_map-IsNew config required missing u h =
      let start : Loading env = record { required = []; missing_plugins = []; mod_times = [] } in
      let (s, e, end) =
        >>=-eq-answer (load_each env config start) (λ s. answer (s.required, s.missing_plugins))
          h in
      let same : s.required ≡ required = ground (arith, end) in
      subst (λ m. NodupKeys m × Values IsNew m) same
        (load_each-IsNew config start s e (λ p t k. cc (lookup-nil {V = ℕ} p, k))
          (λ n k. lookup-nil n) u (tt, tt))
