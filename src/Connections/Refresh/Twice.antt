-- ===== src/Connections/Refresh/Twice.antt =====
-- A refresh after a refresh.
use steampipe.Connections.Plugins.Created.{Values}
use steampipe.Prelude.{
  [], ◌∷◌, ◌≡◌, none, some, true, false, arith, refl, ◌∙◌, List, String, ◌++◌, ap, sym, ◌==◌, any,
  string_eq,
}
use steampipe.Connections.{
  answer, failed, nil_pointer, ◌>>=◌, Answer, Connection, RefreshConnectionResult,
  ConnectionDataMap, no_result,
}
use steampipe.Connections.Updates.Compare.{ConnectionUpdates, new_connection_updates}
use steampipe.Connections.Updates.{Environment}
use steampipe.Connections.Refresh.{
  Database, run_queries, build_connection_update_queries, delete_queries, Refreshed, apply_updates,
  with_error, ended, refresh_connections,
}
use steampipe.Connections.State.{StateFile, save_connection_state, parsed}
use steampipe.Prelude.Dict.{Dict, NodupKeys, lookup}
use steampipe.Connections.Updates.Needed.{answer_injective}
use steampipe.Connections.Updates.Loaded.{>>=-eq-answer}
use steampipe.Connections.Updates.Again.{AnswersNone, new_connection_updates-save_connection_state}
use steampipe.Prelude.Options.{is_some}

module _ (env : Environment) (db : Database) where
  open env use {sdk}

  with_error-updated :
      (file : StateFile) (a : Answer (Refreshed env db)) (r : Refreshed env db)
      → with_error env db file a ≡ answer r
      → (r.0).updated_connections ≡ true
      → a ≡ answer r
  with_error-updated file (answer r') r h up = h
  with_error-updated file (failed e) r h up =
      let same = answer_injective (ended env db [] (some e) file) r h in
      absurd (ground (arith, ap (λ (x : Refreshed env db). (x.0).updated_connections) same, up))
  with_error-updated file nil_pointer r h up = cc

  -- A run that updated has saved the required state.
  run_queries-updated :
      (u : ConnectionUpdates env) (warnings queries : List String) (file : StateFile)
      → ((run_queries env db u warnings queries file).0).updated_connections ≡ true
      → (run_queries env db u warnings queries file).1
        ≡ save_connection_state u.required_connection_state
  unfolding run_queries
  run_queries-updated u warnings [] file up = cc
  run_queries-updated u warnings (q ∷ queries) file up = ground (arith, up)

  apply_updates-updated :
      (file : StateFile) (u : ConnectionUpdates env) (warnings : List String) (r : Refreshed env db)
      → apply_updates env db file (u, warnings) ≡ answer r
      → (r.0).updated_connections ≡ true
      → (u.missing_plugins ≡ []) × (r.1 ≡ save_connection_state u.required_connection_state)
  apply_updates-updated file u warnings r h up = missing u.missing_plugins refl
    where
      missing :
          (ps : List String)
          → u.missing_plugins ≡ ps
          → (u.missing_plugins ≡ []) × (r.1 ≡ save_connection_state u.required_connection_state)
      missing (p ∷ ps) e = absurd (ground (arith, e, h, up))
      missing [] e =
          let after = λ (q : List String × List String).
            answer (run_queries env db u (warnings ++ q.1) q.0 file) in
          let run : apply_updates env db file (u, warnings)
              ≡ (build_connection_update_queries env db u >>= after) =
            simp e in
          let (q, e1, e2) =
            >>=-eq-answer (build_connection_update_queries env db u) after (sym run ∙ h) in
          let same = answer_injective (run_queries env db u (warnings ++ q.1) q.0 file) r e2 in
          (
            e,
            ap (λ (x : Refreshed env db). x.1) (sym same)
                ∙ run_queries-updated u (warnings ++ q.1) q.0 file
                    (ap (λ (x : Refreshed env db). (x.0).updated_connections) same ∙ up),
          )

  -- A refresh with nothing to update or delete.
  apply_updates-nothing :
      (file : StateFile) (u : ConnectionUpdates env)
      → u.update ≡ []
      → u.delete ≡ []
      → u.missing_plugins ≡ []
      → apply_updates env db file (u, []) ≡ answer (ended env db [] none file)
  unfolding build_connection_update_queries delete_queries run_queries
  apply_updates-nothing file u no_update no_delete none_missing =
      rw (none_missing, no_update, no_delete) refl

  module _ (config : Dict String Connection) (file file' : StateFile) (names names' : List String)
      (r : RefreshConnectionResult) where
    -- After a refresh that updated connections, for a config of distinct names, and saved a state
    -- with no dynamic schema: a refresh with the same config and plugin files, a plugin manager that
    -- answers, and a database with the schemas of all that state, updates nothing, warns of nothing,
    -- fails with no error and leaves the state file as it is.
    pub refresh_connections-updated :
        NodupKeys config
        → AnswersNone env
        → refresh_connections env db config file names ≡ answer (r, file')
        → r.updated_connections ≡ true
        → ((state : ConnectionDataMap)
            → file' ≡ parsed state
            → Values (λ d. (d.schema_mode == sdk.dynamic) ≡ false) state
              × ((n : String) → is_some (lookup n state) ≡ true → any (λ x. x == n) names' ≡ true))
        → refresh_connections env db config file' names' ≡ answer (no_result, file')
    unfolding refresh_connections save_connection_state
    refresh_connections-updated distinct none_made h up stays =
        let calls = new_connection_updates env config file names in
        let e = with_error-updated file (calls >>= apply_updates env db file) (r, file') h up in
        let ((u, warnings), e1, e2) = >>=-eq-answer calls (apply_updates env db file) e in
        let (none_missing, saved) = apply_updates-updated file u warnings (r, file') e2 up in
        let (static, listed) = stays u.required_connection_state saved in
        let again =
          new_connection_updates-save_connection_state env config file names names' u warnings
            distinct none_made e1 static listed in
        rw (saved, again) (rw none_missing refl)
