-- ===== src/Control/Groups/Duration.antt =====
-- result_group.go: the durations that `addDuration` adds up.
use steampipe.Control.Groups.{
  Heap, climb, round, millisecond, add_time, add_duration, add_duration_from, suc, modify,
  at_parent,
}
use steampipe.Control.Groups.Climb.{IsTree, is_under, climb_lem}
use steampipe.Prelude.{ℕ, ◌%◌, ◌≡◌, ◌≤◌, if◌then◌else◌, ◌+◌, ap, ◌<◌, ◌∙◌, arith, zero, refl}
use mathlib.Core.Path.{fun_ext}

-- A rounded duration is a whole number of milliseconds, at most half a millisecond away, and is
-- rounded to itself.
pub round_lem :
    (d : ℕ)
    → (round d % millisecond ≡ 0)
      × (round d ≤ d + 500000)
      × (d < round d + 500000 + 1)
      × (round (round d) ≡ round d)
unfolding round
round_lem d = ground arith

add_duration_from-climb :
    (fuel i d : ℕ) (h : Heap) → add_duration_from fuel i d h ≡ climb fuel (add_time (round d)) i h
unfolding add_duration_from climb
add_duration_from-climb zero i d h = refl
add_duration_from-climb (suc fuel) i d h =
    let k = modify i (add_time (round d)) h in
    ap (at_parent (h i).parent k)
      (fun_ext λ p. add_duration_from-climb fuel p (round d) k ∙ rw (round_lem d).3)

-- Where parents come before their children, `addDuration` adds the same rounded duration to the
-- group and to each of its ancestors, whatever their number, and leaves every other group as it
-- is.
pub add_duration_lem :
    (i j d : ℕ) (h : Heap)
    → IsTree h
    → add_duration i d h j ≡ (if is_under (suc i) h j i then add_time (round d) (h j) else h j)
unfolding add_duration
add_duration_lem i j d h tree =
    ap (λ (k : Heap). k j) (add_duration_from-climb (suc i) i d h)
    ∙ climb_lem (suc i) (add_time (round d)) i j h (λ r. refl) tree (omega arith)
