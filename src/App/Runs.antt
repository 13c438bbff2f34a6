-- ===== src/App/Runs.antt =====
-- A run of the application from its start to its end.
use modbusgw.Base.{ℕ, Result, false, List, ◌++◌, Option, none, some, ok, ◌≡◌}
use modbusgw.App.{Call, GatewayConfig, System, Gateway}
use modbusgw.App.Laws.{takedown}
use modbusgw.App.Reloads.{startup, bundle_of}
use modbusgw.App.Sessions.{Sessions}

module _ {W : Type 0} (sys : System W) where
  abbrev Ended : Option (Result (Unit {0})) × Gateway W → Type 0
  Ended (outcome, g) =
      (outcome ≡ some (ok tt))
      × (g.runtime ≡ none)
      × (g.pid_file ≡ none)
      × (before : List Call) × (n : ℕ) × (last : GatewayConfig) × Sessions sys before
      × (g.calls ≡ (before ++ startup n last) ++ takedown (some (bundle_of n last)))
      × ((sys.exists last.service.pid_file g.world).0 ≡ false)
