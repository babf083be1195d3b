-- ===== src/Plugins/Stuck.antt =====
-- plugin_manager.go: a connection whose first start has failed.
-- The map has a placeholder for the connection, which no other connection shares.
use mathlib.Core.Bool.{true≢false}
use steampipe.Prelude.{
  String, ℕ, ◌<◌, Option, Bool, eqb, ◌≢◌, ◌≡◌, some, false, string_eq, arith, sym, none, ◌∙◌, ap,
  true, ◌==◌, if◌then◌else◌, Bool-cases, inl, subst, eqb_iff, inr, refl,
}
use steampipe.Plugins.{
  PluginManager, Request, asked, waiting, checked_pid, loaded, found_in_map, some, stored_at,
  starting, storing, returned, failed, Launch, ConnectionConfig, wait_for_plugin_load, look_up,
  set_request, closed_channel, launch_result, with_config, check_pid, Calls, no_path,
  store_client_to_map, Reach, no_start, start_plugin, next_step, launched, Step, here, enter, wait,
  check, start, store,
}
use steampipe.Prelude.Dict.{lookup, lookup-insert, lookup-erase}
use mathlib.Core.Option.{some-injective}

pub record HasPlaceholder (c : String) (p : ℕ) (m : PluginManager) : Type 0 where
  pub in_map : lookup c m.plugins ≡ some p
  pub closed : (m.heap p).initialized ≡ false
  pub before_next : p < m.next
  pub own : (d : String) → lookup d m.plugins ≡ some p → d ≡ c

-- No request is about to start the plugin of this connection, or to remove it.
abbrev pub IsIdle : String → ℕ → Request → Type 0
IsIdle c p (asked d) = Unit
IsIdle c p (waiting d q) = d ≡ c → q ≡ p
IsIdle c p (loaded d q) = d ≢ c
IsIdle c p (starting d) = d ≢ c
IsIdle c p (storing d pid) = d ≢ c
IsIdle c p (returned pid) = Unit
IsIdle c p (failed err) = Unit

Kept : String → ℕ → PluginManager × Request → Type 0
Kept c p (m, r) = HasPlaceholder c p m × IsIdle c p r

differ : (d c : String) → d ≢ c → (d == c) ≡ false
differ d c h = ground arith

erased-own : (b : Bool) (o : Option ℕ) (p : ℕ) → (if b then none else o) ≡ some p → o ≡ some p
erased-own true o p e = cc
erased-own false o p e = e

inserted-own :
    (b : Bool) (o : Option ℕ) (p q : ℕ) → p < q → (if b then some q else o) ≡ some p → o ≡ some p
inserted-own true o p q lt e = absurd (omega (arith, some-injective q p e))
inserted-own false o p q lt e = e

some_ne : (a b : ℕ) → a < b → eqb b a ≡ false
some_ne a b h = ground arith

Kept-look_up :
    (c d : String) (p : ℕ) (o : Option ℕ) (m : PluginManager)
    → lookup d m.plugins ≡ o
    → HasPlaceholder c p m
    → Kept c p (found_in_map d o m)
unfolding Kept
Kept-look_up c d p (some q) m e h = (
  h,
  λ same. some-injective _ _ (sym e ∙ ap (λ (k : String). lookup k m.plugins) same ∙ h.in_map),
)
Kept-look_up c d p none m e h =
    let other : d ≢ c = λ same. cc in
    (
      record {
        in_map = lookup-insert c d m.next m.plugins ∙ rw (differ d c other) h.in_map;
        closed = rw (some_ne p m.next h.before_next) h.closed;
        before_next = omega (arith, h.before_next);
        own = λ k e'. h.own k (
            inserted-own (d == k) (lookup k m.plugins) p m.next h.before_next
              (sym (lookup-insert k d m.next m.plugins) ∙ e'));
      },
      other,
    )

Kept-check :
    (c d : String) (p : ℕ) (exists : Bool) (o : Option ℕ) (m : PluginManager)
    → d ≢ c
    → HasPlaceholder c p m
    → Kept c p (checked_pid exists d o m)
unfolding Kept
Kept-check c d p exists none m other h = (h, tt)
Kept-check c d p true (some pid) m other h = (h, tt)
Kept-check c d p false (some pid) m other h = (
  record {
    in_map = lookup-erase c d m.plugins ∙ rw (differ d c other) h.in_map;
    closed = h.closed;
    before_next = h.before_next;
    own = λ k e'.
        h.own k
          (erased-own (d == k) (lookup k m.plugins) p (sym (lookup-erase k d m.plugins) ∙ e'));
  },
  other,
)

IsIdle-stored :
    (c : String) (p pid : ℕ) (b : Bool)
    → IsIdle c p (if b then failed closed_channel else returned pid)
IsIdle-stored c p pid true = tt
IsIdle-stored c p pid false = tt

Kept-store :
    (c d : String) (p pid : ℕ) (o : Option ℕ) (m : PluginManager)
    → lookup d m.plugins ≡ o
    → d ≢ c
    → HasPlaceholder c p m
    → Kept c p (stored_at pid o m)
unfolding Kept
Kept-store c d p pid none m e other h = (h, tt)
Kept-store c d p pid (some q) m e other h =
    let apart : eqb q p ≡ false = elim (Bool-cases (eqb q p)) [
      | inl same ↦ absurd (other (h.own d (e ∙ ap some ((eqb_iff q p).0 same))))
      | inr unlike ↦ unlike
    ] in
    (
      record {
        in_map = h.in_map;
        closed = rw apart h.closed;
        before_next = h.before_next;
        own = h.own;
      },
      IsIdle-stored c p pid (m.heap q).initialized,
    )

IsIdle-launch_result : (c d : String) (p : ℕ) (l : Launch) → d ≢ c → IsIdle c p (launch_result d l)
IsIdle-launch_result c d p (no_path err) other = tt
IsIdle-launch_result c d p (no_start err) other = tt
IsIdle-launch_result c d p (launched pid) other = other

IsIdle-with_config :
    (c d : String) (p : ℕ) (o : Option ConnectionConfig) (launch : ConnectionConfig → Launch)
    → d ≢ c
    → IsIdle c p (with_config d o launch)
IsIdle-with_config c d p none launch other = tt
IsIdle-with_config c d p (some config) launch other =
    IsIdle-launch_result c d p (launch config) other

IsIdle-loaded :
    (c d : String) (p q : ℕ) (r : Request) (b : Bool)
    → (b ≡ true → d ≢ c)
    → (if b then some (loaded d q) else none) ≡ some r
    → IsIdle c p r
IsIdle-loaded c d p q r true other e = subst (IsIdle c p) (some-injective _ _ e) (other refl)
IsIdle-loaded c d p q r false other e = cc

IsIdle-wait :
    (timeout : Bool) (c d : String) (p q : ℕ) (r : Request) (m : PluginManager)
    → HasPlaceholder c p m
    → IsIdle c p (waiting d q)
    → wait_for_plugin_load timeout d q m ≡ some r
    → IsIdle c p r
unfolding wait_for_plugin_load
IsIdle-wait true c d p q r m h idle e = subst (IsIdle c p) (some-injective _ _ e) tt
IsIdle-wait false c d p q r m h idle e =
    IsIdle-loaded c d p q r (m.heap q).initialized
      (λ ready same.
        true≢false (sym ready ∙ ap (λ (k : ℕ). (m.heap k).initialized) (idle same) ∙ h.closed))
      e

Step-HasPlaceholder :
    (c : String) (p : ℕ) {m n : PluginManager} {r s : Request}
    → Step m r n s
    → HasPlaceholder c p m
    → IsIdle c p r
    → Kept c p (n, s)
unfolding look_up check_pid store_client_to_map start_plugin Kept
Step-HasPlaceholder c p {m} (enter d) h idle = Kept-look_up c d p (lookup d m.plugins) m refl h
Step-HasPlaceholder c p {m} (wait timeout d q r e) h idle =
    (h, IsIdle-wait timeout c d p q r m h idle e)
Step-HasPlaceholder c p {m} (check exists d q) h idle =
    Kept-check c d p exists (m.heap q).reattach m idle h
Step-HasPlaceholder c p {m} (start launch d) h idle =
    (h, IsIdle-with_config c d p (lookup d m.connection_config) launch idle)
Step-HasPlaceholder c p {m} (store d pid) h idle =
    Kept-store c d p pid (lookup d m.plugins) m refl idle h

IsIdle-set :
    (c : String) (p i j : ℕ) (r : Request) (requests : ℕ → Request)
    → IsIdle c p r
    → IsIdle c p (requests j)
    → IsIdle c p (set_request i r requests j)
IsIdle-set c p i j r requests ok old = elim (Bool-cases (eqb i j)) [
  | inl e ↦ rw e ok
  | inr e ↦ rw e old
]

-- A connection has a placeholder in the map that no other connection shares, and no request is
-- about to start or remove its plugin, as after a failed start. Then this stays so whatever
-- requests take steps and in whatever order, and a wait for the plugin can only end by a timeout.
pub Reach-HasPlaceholder :
    (c : String) (p : ℕ) {s t : Calls}
    → HasPlaceholder c p s.manager
    → ((i : ℕ) → IsIdle c p (s.requests i))
    → Reach s t
    → HasPlaceholder c p t.manager
      × ((i : ℕ) → IsIdle c p (t.requests i))
      × (wait_for_plugin_load false c p t.manager ≡ none)
unfolding Kept wait_for_plugin_load
Reach-HasPlaceholder c p h idle here = (h, idle, rw h.closed)
Reach-HasPlaceholder c p h idle (next_step {t} i m r reach step) =
    let (held, all, _) = Reach-HasPlaceholder c p h idle reach in
    let (kept, ok) = Step-HasPlaceholder c p step held (all i) in
    (kept, λ j. IsIdle-set c p i j r t.requests ok (all j), rw kept.closed)
