-- ===== src/Dispatcher/Machine.antt =====
-- The process: pumps, and what other threads do between them.
use codex_monitor.Common.{ℕ, List, [], ◌∷◌}
use codex_monitor.Dispatcher.{World, Outside, Round, Other, interfere, pump}

pub data Op : Type 0 where
  -- the batch, the clock for the expiry and for the list, the rounds
  pumps : ℕ → ℕ → ℕ → (ℕ → Round) → Op
  others : Other → Op

unfoldable pub step : Outside → World → Op → World
step o w (pumps batch expired_at listed_at rounds) = (pump o batch expired_at listed_at rounds w).0
step o w (others other) = interfere o w other

unfoldable pub run : Outside → World → List Op → World
unfolding step
run o w [] = w
run o w (op ∷ ops) = run o (step o w op) ops
