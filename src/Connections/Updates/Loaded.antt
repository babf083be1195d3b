-- ===== src/Connections/Updates/Loaded.antt =====
-- NewConnectionDataMap: what it makes of each connection of the config.
use steampipe.Prelude.{
  inl, ◌≡◌, some, inr, refl, String, ℕ, string_eq, arith, Bool, ◌==◌, List, false, any, none, true,
  ◌++◌, ◌⊎◌, ◌∷◌, [], Bool-cases, ◌||◌, sym, ◌∙◌, ==_refl, ◌≢◌, subst, eq_of_==, ap,
}
use steampipe.Connections.{
  answer, failed, nil_pointer, ◌>>=◌, Answer, Connection, new_connection_data, ConnectionDataMap,
}
use steampipe.Connections.Updates.{
  Environment, mod_time_of, Loading, load_connection, inl, note_missing, string_slice_contains,
  load_each, new_connection_data_map,
}
use steampipe.Prelude.Dict.{Dict, lookup, lookup-insert, insert, NodupKeys, lookup-nil}
use steampipe.Prelude.Text.{is_empty}

pub >>=-eq-answer {ℓ κ} :
    {A : Type ℓ} {B : Type κ} (m : Answer A) (f : A → Answer B) {b : B}
    → (m >>= f) ≡ answer b
    → (a : A) × (m ≡ answer a) × (f a ≡ answer b)
>>=-eq-answer (answer a) f h = (a, refl, h)
>>=-eq-answer (failed e) f h = cc
>>=-eq-answer nil_pointer f h = cc

module _ (env : Environment) where
  open env use {get_plugin_path, file_mod_time}

  -- The times that were read are those of the files.
  abbrev pub AreTimes : Dict String ℕ → Type 0
  AreTimes times = (path : String) (t : ℕ) → lookup path times ≡ some t → file_mod_time path ≡ inr t

  mod_time_of-AreTimes :
      (path : String) (times : Dict String ℕ) (m : ℕ × Dict String ℕ)
      → mod_time_of env path times ≡ answer m
      → AreTimes times
      → (file_mod_time path ≡ inr m.0) × AreTimes m.1
  unfolding mod_time_of
  mod_time_of-AreTimes path times m h are = (
    ground (arith, h, are path m.0),
    λ p t f. ground (arith, h, are path m.0, are p t, f, lookup-insert p path m.0 times),
  )

  -- What the loop comes to for a connection: its plugin is missing, or it is required, with the
  -- time of its plugin's file.
  abbrev pub IsResolved : Loading env → String → Connection → Type 0
  IsResolved s name c =
      (path : String) × (get_plugin_path c.plugin c.plugin_short_name ≡ inr path)
      × (((is_empty path ≡ true)
            × (string_slice_contains env s.missing_plugins c.plugin ≡ true)
            × (lookup name s.required ≡ none))
          ⊎ ((is_empty path ≡ false)
              × (t : ℕ) × (file_mod_time path ≡ inr t)
              × (lookup name s.required ≡ some (new_connection_data c.plugin c t))))

  -- A step for another connection keeps what is resolved.
  pub record Keeps (name : String) (c : Connection) (s s' : Loading env) : Type 0 where
    pub stored :
        (s'.required ≡ s.required)
        ⊎ ((t : ℕ) × (s'.required ≡ insert name (new_connection_data c.plugin c t) s.required))
    pub times : AreTimes s'.mod_times
    pub others : (n : String) → (name == n) ≡ false → lookup n s'.required ≡ lookup n s.required
    pub missing :
        (p : String)
        → string_slice_contains env s.missing_plugins p ≡ true
        → string_slice_contains env s'.missing_plugins p ≡ true

  any_append :
      (f : String → Bool) (xs : List String) (y : String) → any f (xs ++ y ∷ []) ≡ (any f xs || f y)
  any_append f [] y = ground arith
  any_append f (x ∷ xs) y = ground (arith, any_append f xs y)

  pub load_connection-IsResolved :
      (name : String) (c : Connection) (s s' : Loading env)
      → load_connection env name c s ≡ answer s'
      → AreTimes s.mod_times
      → lookup name s.required ≡ none
      → IsResolved s' name c × Keeps name c s s'
  unfolding load_connection
  load_connection-IsResolved name c s s' h are fresh =
      go (get_plugin_path c.plugin c.plugin_short_name) refl
    where
      go :
          (r : String ⊎ String)
          → get_plugin_path c.plugin c.plugin_short_name ≡ r
          → IsResolved s' name c × Keeps name c s s'
      go (inl err) e = absurd (ground (arith, h, e))
      go (inr path) e = elim (Bool-cases (is_empty path)) [
        | inl gone ↦
            let run : load_connection env name c s ≡ answer (note_missing env c.plugin s) =
              rw (e, gone, load_connection) refl in
            let same : s' ≡ note_missing env c.plugin s = cc in
            rw same (
              (
                path,
                e,
                inl (
                  gone,
                  ground (arith, any_append (λ y. y == c.plugin) s.missing_plugins c.plugin),
                  ground (arith, fresh),
                ),
              ),
              record {
                stored = inl (ground arith);
                times = ground (arith, are);
                others = λ n d. ground arith;
                missing =
                    λ p m. ground (arith, m, any_append (λ y. y == p) s.missing_plugins c.plugin);
              },
            )
        | inr installed ↦
            let stored = λ (m : ℕ × Dict String ℕ). record s {
              required = insert name (new_connection_data c.plugin c m.0) s.required;
              mod_times = m.1;
            } in
            let rest = λ (m : ℕ × Dict String ℕ). answer (stored m) in
            let run : load_connection env name c s ≡ (mod_time_of env path s.mod_times >>= rest) =
              rw (e, installed, load_connection) refl in
            let (m, read, after) =
              >>=-eq-answer (mod_time_of env path s.mod_times) rest (sym run ∙ h) in
            let (time, times') = mod_time_of-AreTimes path s.mod_times m read are in
            let d = new_connection_data c.plugin c m.0 in
            let same : s' ≡ record s { required = insert name d s.required; mod_times = m.1 } =
              cc in
            rw same (
              (
                path,
                e,
                inr (
                  installed,
                  m.0,
                  time,
                  lookup-insert name name d s.required ∙ rw (==_refl name) refl,
                ),
              ),
              record {
                stored = inr (m.0, refl);
                times = times';
                others = λ n other. lookup-insert n name d s.required ∙ rw other refl;
                missing = λ p k. k;
              },
            )
      ]

  IsResolved-later :
      (name : String) (c : Connection) (s s' : Loading env)
      → lookup name s'.required ≡ lookup name s.required
      → ((p : String)
          → string_slice_contains env s.missing_plugins p ≡ true
          → string_slice_contains env s'.missing_plugins p ≡ true)
      → IsResolved s name c
      → IsResolved s' name c
  IsResolved-later name c s s' same grows (path, e, inl (gone, listed, not_required)) =
      (path, e, inl (gone, grows c.plugin listed, same ∙ not_required))
  IsResolved-later name c s s' same grows (path, e, inr (installed, t, time, required)) =
      (path, e, inr (installed, t, time, same ∙ required))

  -- What the rest of the loop does, from `s` to `s'`.
  record Rest (connections : Dict String Connection) (s s' : Loading env) : Type 0 where
    resolved : (n : String) (c : Connection) → lookup n connections ≡ some c → IsResolved s' n c
    others : (n : String) → lookup n connections ≡ none → lookup n s'.required ≡ lookup n s.required
    missing :
        (p : String)
        → string_slice_contains env s.missing_plugins p ≡ true
        → string_slice_contains env s'.missing_plugins p ≡ true

  load_each-Rest :
      (connections : Dict String Connection) (s s' : Loading env)
      → load_each env connections s ≡ answer s'
      → NodupKeys connections
      → AreTimes s.mod_times
      → ((n : String) → lookup n connections ≢ none → lookup n s.required ≡ none)
      → Rest connections s s'
  unfolding load_each lookup
  load_each-Rest [] s s' h u are fresh =
      let same : s' ≡ s = cc in
      rw same (record { resolved = λ n c e. cc; others = λ n e. refl; missing = λ p k. k })
  load_each-Rest ((name, c) ∷ connections) s s' h (new, u) are fresh =
      let (s1, step, after) =
        >>=-eq-answer (load_connection env name c s) (load_each env connections) h in
      let (resolved1, keeps) =
        load_connection-IsResolved name c s s1 step are
          (fresh name (ground (arith, ==_refl name))) in
      let later = load_each-Rest connections s1 s' after u keeps.times (λ n e.
        let other : (name == n) ≡ false = ground (arith, e, new) in
        keeps.others n other ∙ fresh n (ground (arith, e, other))) in
      record {
        resolved = λ n c' e. elim (Bool-cases (name == n)) [
          | inl same ↦
              let c_c' : c ≡ c' = ground (arith, e, same) in
              subst (λ x. IsResolved s' x c') (eq_of_== name n same)
                (subst (IsResolved s' name) c_c'
                  (IsResolved-later name c s1 s' (later.others name new) later.missing resolved1))
          | inr other ↦ later.resolved n c' (ground (arith, e, other))
        ];
        others = λ n e.
            let other : (name == n) ≡ false = ground (arith, e) in
            later.others n (ground (arith, e, other)) ∙ keeps.others n other;
        missing = λ p k. later.missing p (keeps.missing p k);
      }

  -- NewConnectionDataMap, where it returns for a config with distinct names, requires exactly the
  -- connections of installed plugins, each with the time of its plugin's file as that file tells
  -- it, though a file's time is read once for all its connections; the plugin of every other
  -- connection is among the missing ones, and what is not configured is not required.
  pub new_connection_data_map-IsResolved :
      (config : Dict String Connection) (required : ConnectionDataMap) (missing : List String)
      → NodupKeys config
      → new_connection_data_map env config ≡ answer (required, missing)
      → ((n : String) (c : Connection)
          → lookup n config ≡ some c
          → (times : Dict String ℕ) × IsResolved
              (record { required = required; missing_plugins = missing; mod_times = times })
              n
              c)
        × ((n : String) → lookup n config ≡ none → lookup n required ≡ none)
  unfolding new_connection_data_map
  new_connection_data_map-IsResolved config required missing u h =
      let start : Loading env = record { required = []; missing_plugins = []; mod_times = [] } in
      let (s, e, end) =
        >>=-eq-answer (load_each env config start) (λ s. answer (s.required, s.missing_plugins))
          h in
      let rest =
        load_each-Rest config start s e u (λ p t k. cc (lookup-nil {V = ℕ} p, k))
          (λ n k. lookup-nil n) in
      let same : s
          ≡ record { required = required; missing_plugins = missing; mod_times = s.mod_times } =
        ground (arith, end) in
      (
        λ n c k. (s.mod_times, subst (λ x. IsResolved x n c) same (rest.resolved n c k)),
        λ n k.
            ap (λ x. lookup n x) (ap (λ x. x.required) (sym same)) ∙ rest.others n k ∙ lookup-nil n,
      )
