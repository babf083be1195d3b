-- ===== src/Plugins/Tests.antt =====
-- plugin_manager.go: the theorems at a manager with two connections.
use steampipe.Plugins.Collect.{
  both_done, result_events, mutex, has_failed, get-no_failure, locks, unlocks, one_more, no_more,
  from_left,
}
use steampipe.Plugins.{
  ConnectionConfig, Calls, PluginManager, Request, look_up, asked, set_request,
  wait_for_plugin_load, placeholder, filled, failed, returned, start_failed, next_step, here, enter,
}
use steampipe.Prelude.Dict.{Dict, lookup}
use steampipe.Prelude.{
  ℕ, String, ◌∷◌, string_eq, [], arith, suc, any, zero, ◌≡◌, refl, false, some, none, eqb, subst,
}
use steampipe.Plugins.Stuck.{HasPlaceholder, IsIdle, Reach-HasPlaceholder}

abbrev aws : ConnectionConfig
aws = record { plugin = "hub/aws"; plugin_short_name = "aws" }

abbrev config : Dict String ConnectionConfig
config = ("aws", aws) ∷ ("gcp", aws) ∷ []

-- One request asks for `aws`, the others for `gcp`.
abbrev asks : ℕ → Request
asks zero = asked "aws"
asks (suc i) = asked "gcp"

-- The start of `aws` has failed.
abbrev broken : Calls
broken = record {
  manager = record {
    plugins = ("aws", 0) ∷ [];
    heap = λ i. placeholder;
    next = 1;
    connection_config = config;
  };
  requests = set_request 0 (failed (start_failed "exit 1")) asks;
}

aws_own : (d : String) → lookup {V = ℕ} d (("aws", 0) ∷ []) ≡ some 0 → d ≡ "aws"
unfolding lookup
aws_own d h = ground arith

broken-HasPlaceholder : HasPlaceholder "aws" 0 broken.manager
unfolding lookup string_eq
broken-HasPlaceholder = record {
  in_map = refl;
  closed = refl;
  before_next = omega arith;
  own = aws_own;
}

eqb-suc : (i : ℕ) → eqb 0 (suc i) ≡ false
eqb-suc i = ground arith

broken-IsIdle : (i : ℕ) → IsIdle "aws" 0 (broken.requests i)
broken-IsIdle zero = tt
broken-IsIdle (suc i) = subst (IsIdle "aws" 0) {x = asked "gcp"} (rw (eqb-suc i)) tt

abbrev asked_again : Calls
asked_again = record {
  manager = (look_up "gcp" broken.manager).0;
  requests = set_request 1 (look_up "gcp" broken.manager).1 broken.requests;
}

Reach-HasPlaceholder_example :
    HasPlaceholder "aws" 0 asked_again.manager
    × ((i : ℕ) → IsIdle "aws" 0 (asked_again.requests i))
    × (wait_for_plugin_load false "aws" 0 asked_again.manager ≡ none)
Reach-HasPlaceholder_example =
    Reach-HasPlaceholder "aws" 0 {s = broken} {t = asked_again} broken-HasPlaceholder broken-IsIdle
      (next_step 1 _ _ here (enter "gcp"))

-- Process 7 of `aws` is gone.
abbrev running : PluginManager
running = record {
  plugins = ("aws", 0) ∷ [];
  heap = λ i. filled 7;
  next = 1;
  connection_config = config;
}

get-no_failure_example : any has_failed (returned 7 ∷ []) ≡ false
unfolding result_events mutex
get-no_failure_example =
    get-no_failure (returned 7 ∷ []) (locks ∷ unlocks ∷ []) false
      (one_more _ no_more (from_left locks (from_left unlocks both_done))) refl
