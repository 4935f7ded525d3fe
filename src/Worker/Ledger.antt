-- ===== src/Worker/Ledger.antt =====
-- What the counters and the health of `control_worker` (board/src/main.c) keep to in every run.
use hispark_soc_china.Prelude.{◌+◌, ◌%◌, ◌^◌, ◌≤◌, ◌<◌, ◌≡◌, false, Bool, ◌||◌, leb, if◌then◌else◌}
use hispark_soc_china.Floats.{FloatOps}
use hispark_soc_china.AppControl.Settings.{Settings}
use hispark_soc_china.Worker.State.{Worker}

module _ (fl : FloatOps) (infer_failed : Bool) where
  -- Outside ParamNet mode every request for a LUT ends as an update, a failure or a fatal error; the
  -- thread is degraded exactly when the failure counter is 3, or from the start, which counts one event.
  pub record InOrder (w : Worker fl) : Type 0 where
    pub requests :
        w.metrics.lut_requests
        ≡ (w.metrics.lut_updates + w.metrics.lut_failures + w.metrics.fatal_errors) % 2 ^ 64
    pub failures : w.health.consecutive_failures ≤ (if infer_failed then 0 else 3)
    pub gate : w.health.degraded ≡ (infer_failed || leb 3 w.health.consecutive_failures)
    pub events : w.metrics.degraded_events ≡ (if w.health.degraded then 1 else 0)
    pub retries : w.nn_retry ≤ 10

  -- A request is on its way.
  record Owed (w : Worker fl) : Type 0 where
    requests :
        w.metrics.lut_requests
        ≡ (w.metrics.lut_updates + w.metrics.lut_failures + w.metrics.fatal_errors + 1) % 2 ^ 64
    loaded : infer_failed ≡ false
    failures : w.health.consecutive_failures < 3
    healthy : w.health.degraded ≡ false
    events : w.metrics.degraded_events ≡ 0
    retries : w.nn_retry ≤ 10
