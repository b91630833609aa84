-- ===== src/Tracker.antt =====
-- internal/handlers/online_tracker.go: which agents are connected. What Redis and the database answer
-- is an input; `none` is the panic of a nil pointer.
pub mod Counts
pub mod Runs
mod Tests
use nexodus.Prelude.{
  ℕ, zero, suc, ◌+◌, ◌-◌, String, Bool, true, false, not, ◌&&◌, Option, none, some, List, [], ◌∷◌,
  ◌++◌, eqb, if◌then◌else◌, string_eq,
}
use nexodus.Prelude.Integers.{ℤ, pos, eqz, plus_one, minus_one}
use nexodus.Prelude.Maps.{Map, lookup, insert, delete}

-- `AgentTracker`: the connections of each agent to this process, and whether `pubSub` is set.
pub record AgentTracker : Type 0 where
  pub local_agents : Map String ℤ
  pub pub_sub : Bool

-- The tracker and the error.
abbrev pub Tracked : Type 0
Tracked = AgentTracker × Option String

abbrev pub connect_first : String → Option String → AgentTracker → Tracked
connect_first agent redis t =
    (record t { local_agents = insert agent (pos 1) t.local_agents; pub_sub = true }, redis)

abbrev pub connect_found : Option ℤ → String → Option String → AgentTracker → Tracked
connect_found (some count) agent redis t =
    (record t { local_agents = insert agent (plus_one count) t.local_agents }, none)
connect_found none agent redis t = connect_first agent redis t

-- `redis` is the answer to the subscription, if one is made.
unfoldable pub connected : String → Option String → AgentTracker → Tracked
connected agent redis t = connect_found (lookup agent t.local_agents) agent redis t

abbrev pub unsubscribe : Bool → Option String → AgentTracker → Option Tracked
unsubscribe true redis t = some (t, redis)
unsubscribe false redis t = none

abbrev pub disconnect_found : Option ℤ → String → Option String → AgentTracker → Option Tracked
disconnect_found none agent redis t = some (t, none)
disconnect_found (some count) agent redis t =
    if eqz (minus_one count) (pos 0)
    then unsubscribe t.pub_sub redis (record t { local_agents = delete agent t.local_agents })
    else some (record t { local_agents = insert agent (minus_one count) t.local_agents }, none)

unfoldable pub disconnected : String → Option String → AgentTracker → Option Tracked
disconnected agent redis t = disconnect_found (lookup agent t.local_agents) agent redis t

-- What Connected does beside the tracker: it runs the request, and writes whether the device or the
-- site is online.
pub data Effect : Type 0 where
  run_request : Effect
  set_device : Bool → Effect
  set_site : Bool → Effect

-- A row that was found, and its `Online`.
abbrev pub Row : Type 0
Row = Option Bool

-- The answers: to the subscription, to the two updates, and to the end of the subscription.
pub record Answers : Type 0 where
  pub subscribed : Option String
  pub device_updated : Option String
  pub site_updated : Option String
  pub unsubscribed : Option String

-- A failed update is logged, and the request run.
abbrev pub after_update : Option String → List Effect
after_update none = []
after_update (some e) = run_request ∷ []

abbrev pub go_online : Effect → Row → Option String → List Effect
go_online set none updated = []
go_online set (some true) updated = []
go_online set (some false) updated = set ∷ after_update updated

abbrev pub is_found : Row → Row → Bool
is_found none none = false
is_found (some b) site = true
is_found none (some b) = true

-- `Connected` up to the end of the request. Without an agent id, for an unknown agent and after an
-- error of Redis only the request is run.
abbrev pub connected_effects : Option String → Row → Row → Answers → List Effect
connected_effects (some e) device site a = run_request ∷ []
connected_effects none device site a =
    go_online (set_device true) device a.device_updated
    ++ (go_online (set_site true) site a.site_updated ++ run_request ∷ [])

abbrev pub track_agent : String → Row → Row → Answers → Tracked → List Effect × AgentTracker
track_agent agent device site a (t, e) = (connected_effects e device site a, t)

unfoldable pub connected_request :
    Option String → Row → Row → Answers → AgentTracker → List Effect × AgentTracker
connected_request none device site a t = (run_request ∷ [], t)
connected_request (some agent) device site a t =
    if is_found device site
    then track_agent agent device site a (connected agent a.subscribed t)
    else (run_request ∷ [], t)

abbrev pub set_offline : Effect → Row → List Effect
set_offline set none = []
set_offline set (some b) = set ∷ []

-- The timer after the request: `counted` is what isConnected answers, `none` an error.
unfoldable pub after_grace : Option Bool → Row → Row → List Effect
after_grace none device site = []
after_grace (some true) device site = []
after_grace (some false) device site =
    set_offline (set_device false) device ++ set_offline (set_site false) site
