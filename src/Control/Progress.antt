-- ===== src/Control/Progress.antt =====
-- control/controlhooks/progress.go: the counters of the progress display. The hooks only print.
use steampipe.Prelude.Int.{ℤ, inc, dec, pos}
use steampipe.Prelude.{ℕ}

pub record ControlProgress : Type 0 where
  pub total : ℤ
  pub pending : ℤ
  pub complete : ℤ
  pub error : ℤ
  pub executing : ℤ

unfoldable pub new_control_progress : ℕ → ControlProgress
new_control_progress n = record {
  total = pos n;
  pending = pos n;
  complete = pos 0;
  error = pos 0;
  executing = pos 0;
}

unfoldable pub on_control_start : ControlProgress → ControlProgress
on_control_start p = record p { executing = inc p.executing; pending = dec p.pending }

unfoldable pub on_control_finish : ControlProgress → ControlProgress
on_control_finish p = record p { executing = dec p.executing }

unfoldable pub on_control_complete : ControlProgress → ControlProgress
on_control_complete p = record p { complete = inc p.complete }

unfoldable pub on_control_error : ControlProgress → ControlProgress
on_control_error p = record p { error = inc p.error }
