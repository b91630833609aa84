-- ===== src/Tracker/Tests.antt =====
-- internal/handlers/online_tracker.go: an agent that connects, and the theorems at it.
use nexodus.Prelude.{ℕ, ◌≡◌, refl, String, true, false, none, some, [], ◌∷◌, string_eq, arith}
use nexodus.Prelude.Maps.{lookup}
use nexodus.Tracker.{AgentTracker, set_device, after_grace}
use nexodus.Tracker.Counts.{
  IsCounting, starts, ends, run_changes, count_changes, run_changes-IsCounting,
}

abbrev empty : AgentTracker
empty = record { local_agents = []; pub_sub = false }

abbrev nobody : String → ℕ
nobody k = 0

empty-IsCounting : IsCounting empty nobody
unfolding lookup
empty-IsCounting = record { counts = λ k. refl; listens = λ k p. absurd (omega arith) }

run_changes-IsCounting_example :
    (t : AgentTracker) × (run_changes (starts "a" ∷ starts "a" ∷ ends "a" ∷ []) empty ≡ some t)
    × IsCounting t (count_changes (starts "a" ∷ starts "a" ∷ ends "a" ∷ []) nobody)
run_changes-IsCounting_example =
    run_changes-IsCounting (starts "a" ∷ starts "a" ∷ ends "a" ∷ []) empty nobody empty-IsCounting
      (omega arith, tt)

went_offline : after_grace (some false) (some true) none ≡ set_device false ∷ []
unfolding after_grace
went_offline = refl
