-- ===== src/App/Ends.antt =====
-- Every run of `main` (board/src/main.c) ends with nothing left up but what could not be taken down.
use hispark_soc_china.Prelude.{Bool}
use hispark_soc_china.App.Life.{System}
use hispark_soc_china.App.Layers.{Sound}

-- What a step leaves, whether it goes on or not.
record Kept (P : System → Type 0) (r : System × Bool) : Type 0 where
  sound : Sound r.0
  quiet : P r.0
