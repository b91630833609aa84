-- ===== src/Watch/Tests.antt =====
-- internal/handlers/events.go: watches of a few rows, and the theorems at them.
use nexodus.Prelude.{
  ℕ, ◌≡◌, refl, String, Bool, true, false, Option, none, some, List, [], ◌∷◌, inl, string_eq,
}
use nexodus.Prelude.Maps.{lookup}
use nexodus.Fetch.{ResourceItem, Answer, failed, fetched}
use nexodus.Watch.{
  change, delete_event, tail, WatchState, Visit, new_state, visit, poll, deliver, refill, pass,
  serve,
}
use nexodus.Watch.Client.{client, taken, rows_of, client-serve}
use nexodus.Watch.Wakeup.{serve-wakeup}
use nexodus.Watch.Broken.{IsBroken, pass-IsBroken, resumed_delete}

abbrev key : Option String → String
key none = ""
key (some s) = s

abbrev row : String → ℕ → Bool → ResourceItem String
row s n gone = record { item = some s; id = s; revision = n; deleted = gone }

abbrev fetching : Answer String → Visit String
fetching a = record { canceled = false; prefers_signal = true; fetch = λ gt. a }

abbrev start : WatchState String
start = record {
  kind = "device";
  gt_revision = 0;
  at_tail = false;
  items = none;
  idx = 1;
  parked = false;
  ids_sent = some [];
  signaled = false;
}

start_is_new : new_state "device" 0 false ≡ start
unfolding new_state
start_is_new = refl

-- A row that came, a row that went before it was sent, and the tail.
abbrev visits : List (Visit String)
visits =
    fetching (fetched (row "a" 1 false ∷ row "b" 2 true ∷ []))
    ∷ fetching (fetched [])
    ∷ fetching (fetched [])
    ∷ fetching (fetched [])
    ∷ []

sent_events : (serve visits start).1 ≡ change "device" (some "a") ∷ tail "device" ∷ []
unfolding serve visit deliver refill
sent_events = refl

client-serve_example :
    lookup "b" (client key (serve visits start).1 []) ≡ rows_of "b" (taken visits start) none
unfolding lookup taken visit deliver refill
client-serve_example = client-serve key visits start [] "b" (refl, (refl, tt)) (λ k unsent. refl)

abbrev parked_state : WatchState String
parked_state = record start {
  at_tail = true;
  ids_sent = none;
  items = some [];
  parked = true;
  signaled = true;
}

serve-wakeup_example :
    (serve
      (fetching (fetched [])
        ∷ fetching (fetched (row "c" 3 true ∷ []))
        ∷ fetching (fetched [])
        ∷ [])
      parked_state).1
    ≡ delete_event "device" (some "c") ∷ []
serve-wakeup_example =
    serve-wakeup (fetching (fetched [])) (fetching (fetched (row "c" 3 true ∷ [])))
      (fetching (fetched [])) parked_state (row "c" 3 true) [] (λ e. refl, λ e. (refl, refl)) refl
      refl refl refl

abbrev empty_state : WatchState String
empty_state = record parked_state { parked = false }

empty_state_parks : (visit (fetching (fetched [])) empty_state).0.parked ≡ true
unfolding visit refill
empty_state_parks = refl

-- The third of three watches cannot fetch.
pass-IsBroken_example :
    IsBroken 2 "timeout"
      (pass (λ i. fetching (failed "timeout")) [] (parked_state ∷ parked_state ∷ start ∷ []) 0)
unfolding visit poll refill
pass-IsBroken_example =
    pass-IsBroken (λ i. fetching (failed "timeout")) (parked_state ∷ parked_state ∷ []) [] start
      "timeout" 0 (inl refl, (inl refl, tt)) refl

resumed_delete_example :
    lookup "a" (
      client key
        (serve
          (fetching (fetched (row "a" 4 true ∷ [])) ∷ fetching (fetched []) ∷ [])
          (new_state "device" 3 false)).1
        (("a", some "a") ∷ []))
    ≡ some (some "a")
unfolding lookup
resumed_delete_example =
    resumed_delete key (fetching (fetched (row "a" 4 true ∷ []))) (fetching (fetched [])) "device" 3
      (row "a" 4 true) [] (("a", some "a") ∷ []) (some "a") refl refl refl
