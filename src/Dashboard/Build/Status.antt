-- ===== src/Dashboard/Build/Status.antt =====
-- dashboardexecute: which runs are ready, and which are complete from the start.
use steampipe.Dashboard.Build.{
  no_resources, add_resource, container_of, check, leaf, no_leaf, add_run, no_runs, Building,
  Resource, Run, Runs, Registry, is_ready, new_leaf_run, new_check_run, new_run, BuildError,
  get_run_status, leaf_status, container_status, register, then_run, CheckKind, any_ready, inr,
  some, unique_name, node_type_of, new_runs, Resources, leaf_sql, done,
}
use steampipe.Prelude.{
  Option, String, ℕ, Bool, ◌⊎◌, ◌≡◌, inl, true, Bool-cases, refl, none, ap, false, sym, ◌∙◌, ◌||◌,
}
use steampipe.Prelude.Options.{is_some}
use steampipe.Names.{parse_resource_name}
use mathlib.Core.Path.{ap₂}

pub then_run-inl :
    {A B : Type 0} (f : A → Building B) (m : (A × Registry) ⊎ BuildError) (b : B) (r : Registry)
    → then_run f m ≡ inl (b, r)
    → (a : A) × (q : Registry) × (m ≡ inl (a, q)) × (f a q ≡ inl (b, r))
then_run-inl f (inl (a, q)) b r h = (a, q, refl, h)
then_run-inl f (inr err) b r h = cc

-- Is there something to execute: a check, or a leaf with a query?
mutual
  pub has_work : Resource → Bool
  has_work (container_of kind name children) = any_work children
  has_work (check kind name) = true
  has_work (leaf name query) = is_some query
  has_work (no_leaf name) = false

  pub any_work : Resources → Bool
  any_work no_resources = false
  any_work (add_resource child children) = has_work child || any_work children

status_of : Run × Registry → Bool
status_of (run, r) = is_ready (get_run_status run)

leaf_status-is_ready :
    (query : Option (String ⊎ String)) → is_ready (leaf_status query) ≡ is_some query
leaf_status-is_ready none = refl
leaf_status-is_ready (some answer) = refl

container_status-is_ready : (runs : Runs) → is_ready (container_status runs) ≡ any_ready runs
container_status-is_ready runs = elim (Bool-cases (any_ready runs)) [ inl h ↦ rw h | inr h ↦ rw h ]

-- What `register` leaves.
register-inl :
    (name : String) (run run' : Run) (r r' : Registry)
    → register name run r ≡ inl (run', r')
    → run ≡ run'
register-inl name run run' r r' h = cc

done-inl : (runs runs' : Runs) (r r' : Registry) → done runs r ≡ inl (runs', r') → runs ≡ runs'
done-inl runs runs' r r' h = cc

module _ (decimal : ℕ → String) where
  leaf-ready :
      (name : String) (query : Option (String ⊎ String)) (run : Run) (r r' : Registry)
      → new_leaf_run decimal name query r ≡ inl (run, r')
      → is_ready (get_run_status run) ≡ is_some query
  unfolding new_leaf_run get_run_status
  leaf-ready name query run r r' h =
      let (unique, r1, _, h1) = then_run-inl _ (unique_name decimal name r) run r' h in
      let (node_type, r2, _, h2) =
        then_run-inl _ (node_type_of (parse_resource_name name) r1) run r' h1 in
      let (sql, r3, _, h3) = then_run-inl _ (leaf_sql query r2) run r' h2 in
      ap (λ (x : Run). is_ready (get_run_status x)) (sym (register-inl unique _ run r3 r' h3))
      ∙ leaf_status-is_ready query

  check-ready :
      (kind : CheckKind) (name : String) (run : Run) (r r' : Registry)
      → new_check_run decimal kind name r ≡ inl (run, r')
      → is_ready (get_run_status run) ≡ true
  unfolding new_check_run get_run_status
  check-ready kind name run r r' h =
      let (unique, r1, _, h1) = then_run-inl _ (unique_name decimal name r) run r' h in
      ap (λ (x : Run). is_ready (get_run_status x)) (sym (register-inl unique _ run r1 r' h1))

  mutual
    unfolding new_run has_work get_run_status

    new_run-ready :
        (res : Resource) (run : Run) (r r' : Registry)
        → new_run decimal res r ≡ inl (run, r')
        → is_ready (get_run_status run) ≡ has_work res
    new_run-ready (container_of kind name children) run r r' h =
        let (unique, r1, _, h1) = then_run-inl _ (unique_name decimal name r) run r' h in
        let (runs, r2, made, h2) = then_run-inl _ (new_runs decimal children r1) run r' h1 in
        ap (λ (x : Run). is_ready (get_run_status x)) (sym (register-inl unique _ run r2 r' h2))
        ∙ container_status-is_ready runs
        ∙ new_runs-ready children runs r1 r2 made
    new_run-ready (check kind name) run r r' h = check-ready kind name run r r' h
    new_run-ready (leaf name query) run r r' h = leaf-ready name query run r r' h
    new_run-ready (no_leaf name) run r r' h = cc

    new_runs-ready :
        (res : Resources) (runs : Runs) (r r' : Registry)
        → new_runs decimal res r ≡ inl (runs, r')
        → any_ready runs ≡ any_work res
    new_runs-ready no_resources runs r r' h = ap any_ready (sym (done-inl no_runs runs r r' h))
    new_runs-ready (add_resource child children) runs r r' h =
        let (run, r1, one, h1) = then_run-inl _ (new_run decimal child r) runs r' h in
        let (others, r2, rest, h2) = then_run-inl _ (new_runs decimal children r1) runs r' h1 in
        ap any_ready (sym (done-inl (add_run run others) runs r2 r' h2))
        ∙ ap₂ (λ (x y : Bool). x || y) (new_run-ready child run r r1 one)
            (new_runs-ready children others r1 r2 rest)

  -- A run that is made is ready exactly when its resource has something to execute: a check, or a
  -- leaf with a query, at any depth below it. Otherwise it is complete from the start.
  pub new_run-is_ready :
      (res : Resource) (run : Run) (r r' : Registry)
      → new_run decimal res r ≡ inl (run, r')
      → is_ready (get_run_status run) ≡ has_work res
  new_run-is_ready = new_run-ready
