-- ===== src/App/Tests.antt =====
-- An app whose second lifecycle fails and finds the context done. The state counts the calls.
use ddd_qce.Common.{ℕ, ◌+◌, ◌==◌, ◌≡◌, refl, Option, none, some, List, [], ◌∷◌, ◌++◌}
use ddd_qce.Errors.{Err, text}
use ddd_qce.App.{App, Action, close, shutdown_all, clean_all}
use ddd_qce.App.Closing.{Runs, Shuts, Reports, close-Runs}

abbrev works : Action ℕ
works n = (n + 1, none)

abbrev breaks : Action ℕ
breaks n = (n + 10, some (text "stuck" []))

abbrev shop : App ℕ ℕ ℕ ℕ ℕ ℕ ℕ
shop = record {
  cmd_bus = none;
  query_bus = none;
  event_bus = none;
  chain = none;
  backend = none;
  config = 0;
  lifecycles = works ∷ breaks ∷ works ∷ [];
  cleanup = breaks ∷ works ∷ [];
}

-- The third lifecycle does not run, and both cleanups do.
closed : (close (λ n. n == 11) (λ e. "x") shop 0).0 ≡ 22
unfolding close shutdown_all clean_all
closed = refl

close-Runs_example :
    (t u : ℕ) × (es fs : List Err) × (r : Option Err) × Shuts (λ n. n == 11) 0 shop.lifecycles t es
    × Runs t shop.cleanup u fs
    × Reports (λ e. "x") (es ++ fs) r
    × (close (λ n. n == 11) (λ e. "x") shop 0 ≡ (u, r))
close-Runs_example = close-Runs (λ n. n == 11) (λ e. "x") shop 0
