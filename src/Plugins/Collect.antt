-- ===== src/Plugins/Collect.antt =====
-- plugin_manager.go, `Get`: how the goroutines use `resultLock`.
-- A goroutine's use of the lock is a list of events; the runtime may interleave them at will.
use steampipe.Plugins.{Request, failed, asked, waiting, loaded, starting, storing, returned}
use steampipe.Prelude.{
  Bool, List, Option, [], ℕ, ◌≡◌, map, ◌∷◌, some, true, suc, ◌+◌, any, false, none, ◌≤◌, arith,
  if◌then◌else◌, refl,
}

pub data MutexEvent : Type 0 where
  locks unlocks : MutexEvent

-- What the goroutine does once its `getPlugin` has returned: on an error it unlocks in the branch, and
-- again behind it.
unfoldable pub result_events : Request → List MutexEvent
result_events (failed err) = locks ∷ unlocks ∷ unlocks ∷ []
result_events _ = locks ∷ unlocks ∷ []

-- sync.Mutex: `none` where a held lock is taken, which blocks and so is no step of a run, and where a
-- free lock is released, which ends the process.
unfoldable pub mutex : (held : Bool) → List MutexEvent → Option Bool
mutex held [] = some held
mutex false (locks ∷ events) = mutex true events
mutex true (locks ∷ events) = none
mutex true (unlocks ∷ events) = mutex false events
mutex false (unlocks ∷ events) = none

pub data Merged : List MutexEvent → List MutexEvent → List MutexEvent → Type 0 where
  both_done : Merged [] [] []
  from_left :
      {xs ys zs : List MutexEvent} (x : MutexEvent) → Merged xs ys zs → Merged (x ∷ xs) ys (x ∷ zs)
  from_right :
      {xs ys zs : List MutexEvent} (y : MutexEvent) → Merged xs ys zs → Merged xs (y ∷ ys) (y ∷ zs)

-- A run of all goroutines to their ends.
pub data AllMerged : List (List MutexEvent) → List MutexEvent → Type 0 where
  no_more : AllMerged [] []
  one_more :
      {events : List (List MutexEvent)} {ys zs : List MutexEvent} (xs : List MutexEvent)
      → AllMerged events ys
      → Merged xs ys zs
      → AllMerged (xs ∷ events) zs

abbrev pub has_failed : Request → Bool
has_failed (failed err) = true
has_failed _ = false

taken : List MutexEvent → ℕ
taken [] = 0
taken (locks ∷ events) = suc (taken events)
taken (unlocks ∷ events) = taken events

released : List MutexEvent → ℕ
released [] = 0
released (locks ∷ events) = released events
released (unlocks ∷ events) = suc (released events)

-- A run that goes through releases the lock no more often than it takes it.
mutex-balance :
    (held after : Bool) (events : List MutexEvent)
    → mutex held events ≡ some after
    → released events ≤ (if held then 1 else 0) + taken events
unfolding mutex taken released
mutex-balance held after [] h = omega arith
mutex-balance false after (locks ∷ events) h = omega (arith, mutex-balance true after events h)
mutex-balance true after (locks ∷ events) h = cc
mutex-balance true after (unlocks ∷ events) h = omega (arith, mutex-balance false after events h)
mutex-balance false after (unlocks ∷ events) h = cc

Merged-counts :
    {xs ys zs : List MutexEvent}
    → Merged xs ys zs
    → (taken zs ≡ taken xs + taken ys) × (released zs ≡ released xs + released ys)
unfolding taken released
Merged-counts both_done = (refl, refl)
Merged-counts (from_left locks m) = (omega (arith, (Merged-counts m).0), (Merged-counts m).1)
Merged-counts (from_left unlocks m) = ((Merged-counts m).0, omega (arith, (Merged-counts m).1))
Merged-counts (from_right locks m) = (omega (arith, (Merged-counts m).0), (Merged-counts m).1)
Merged-counts (from_right unlocks m) = ((Merged-counts m).0, omega (arith, (Merged-counts m).1))

failures : List Request → ℕ
failures [] = 0
failures (r ∷ results) = (if has_failed r then 1 else 0) + failures results

result_events-counts :
    (r : Request)
    → (taken (result_events r) ≡ 1)
      × (released (result_events r) ≡ 1 + (if has_failed r then 1 else 0))
unfolding taken released result_events
result_events-counts (failed err) = (refl, refl)
result_events-counts (asked c) = (refl, refl)
result_events-counts (waiting c p) = (refl, refl)
result_events-counts (loaded c p) = (refl, refl)
result_events-counts (starting c) = (refl, refl)
result_events-counts (storing c p) = (refl, refl)
result_events-counts (returned pid) = (refl, refl)

AllMerged-counts :
    (results : List Request) (trace : List MutexEvent)
    → AllMerged (map result_events results) trace
    → released trace ≡ taken trace + failures results
unfolding failures taken released
AllMerged-counts [] [] no_more = refl
AllMerged-counts [] (_ ∷ _) run = elim run [ ]
AllMerged-counts (r ∷ results) trace (one_more {ys} xs rest m) =
    omega (arith, Merged-counts m, result_events-counts r, AllMerged-counts results ys rest)

no_failures : (results : List Request) → failures results ≡ 0 → any has_failed results ≡ false
unfolding failures
no_failures [] h = refl
no_failures (r ∷ results) h = ground (arith, no_failures results)

-- If all goroutines of `Get` run to their ends, in whatever order, then no `getPlugin` has failed: the
-- error branch releases a lock that is free, which ends the process.
pub get-no_failure :
    (results : List Request) (trace : List MutexEvent) (held : Bool)
    → AllMerged (map result_events results) trace
    → mutex false trace ≡ some held
    → any has_failed results ≡ false
get-no_failure results trace held run h =
    no_failures results
      (omega (arith, AllMerged-counts results trace run, mutex-balance false held trace h))
