-- ===== src/Tracker/Runs.antt =====
-- internal/handlers/online_tracker.go: how often Connected runs the request.
use nexodus.Prelude.{
  ℕ, ◌+◌, ◌≡◌, refl, ap, ◌∙◌, String, true, false, Option, none, some, List, [], ◌∷◌, ◌++◌, inl,
  inr, Bool-cases, if◌then◌else◌, arith,
}
use nexodus.Tracker.{
  AgentTracker, Effect, run_request, set_device, set_site, Row, Answers, go_online, is_found,
  connected, connected_effects, track_agent, connected_request,
}

-- The number of times that the request is run.
abbrev pub runs : List Effect → ℕ
runs [] = 0
runs (run_request ∷ es) = 1 + runs es
runs (set_device b ∷ es) = runs es
runs (set_site b ∷ es) = runs es

-- One for an update that is made and fails.
abbrev pub failed_update : Row → Option String → ℕ
failed_update (some false) (some e) = 1
failed_update _ _ = 0

-- The failed updates of a request that is tracked.
abbrev pub failures : Option String → Row → Row → Answers → Option String → ℕ
failures none device site a e = 0
failures (some agent) device site a (some e) = 0
failures (some agent) device site a none =
    if is_found device site
    then failed_update device a.device_updated + failed_update site a.site_updated
    else 0

runs-append : (es fs : List Effect) → runs (es ++ fs) ≡ runs es + runs fs
runs-append [] fs = omega arith
runs-append (run_request ∷ es) fs = omega (arith, runs-append es fs)
runs-append (set_device b ∷ es) fs = runs-append es fs
runs-append (set_site b ∷ es) fs = runs-append es fs

runs-device :
    (r : Row) (u : Option String) → runs (go_online (set_device true) r u) ≡ failed_update r u
runs-device none u = refl
runs-device (some true) u = refl
runs-device (some false) none = refl
runs-device (some false) (some e) = omega arith

runs-site : (r : Row) (u : Option String) → runs (go_online (set_site true) r u) ≡ failed_update r u
runs-site none u = refl
runs-site (some true) u = refl
runs-site (some false) none = refl
runs-site (some false) (some e) = omega arith

-- The error of the subscription, for a request of an agent.
abbrev pub error_of : Option String → Answers → AgentTracker → Option String
error_of none a t = none
error_of (some agent) a t = (connected agent a.subscribed t).1

runs-effects :
    (agent : String) (device site : Row) (a : Answers) (e : Option String)
    → is_found device site ≡ true
    → runs (connected_effects e device site a) ≡ 1 + failures (some agent) device site a e
runs-effects agent device site a (some e) f = omega arith
runs-effects agent device site a none f = rw f (
    omega (
      arith,
      runs-append (go_online (set_device true) device a.device_updated)
          (go_online (set_site true) site a.site_updated ++ run_request ∷ []),
      runs-append (go_online (set_site true) site a.site_updated) (run_request ∷ []),
      runs-device device a.device_updated,
      runs-site site a.site_updated,
    ))

failures-unknown :
    (agent : String) (device site : Row) (a : Answers) (e : Option String)
    → is_found device site ≡ false
    → failures (some agent) device site a e ≡ 0
failures-unknown agent device site a (some e) f = refl
failures-unknown agent device site a none f = rw f refl

-- Connected runs the request once, and once more for each update of the device or of the site
-- that is made and fails.
pub runs-connected_request :
    (agent : Option String) (device site : Row) (a : Answers) (t : AgentTracker)
    → runs (connected_request agent device site a t).0
      ≡ 1 + failures agent device site a (error_of agent a t)
unfolding connected_request
runs-connected_request none device site a t = omega arith
runs-connected_request (some agent) device site a t =
    let tracked = track_agent agent device site a (connected agent a.subscribed t) in
    let known = is_found device site in
    elim (Bool-cases known) [
      | inl f ↦
          ap (λ b. runs (if b then tracked else (run_request ∷ [], t)).0) f
          ∙ runs-effects agent device site a (connected agent a.subscribed t).1 f
      | inr f ↦
          ap (λ b. runs (if b then tracked else (run_request ∷ [], t)).0) f
          ∙ omega (arith, failures-unknown agent device site a (connected agent a.subscribed t).1 f)
    ]
