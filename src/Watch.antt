-- ===== src/Watch.antt =====
-- internal/handlers/events.go: sendMultiWatch, which turns the lists that the watches of a request
-- fetch into one stream of events. What the environment decides at a visit of a watch is an input.
pub mod Client
pub mod Wakeup
pub mod Broken
mod Tests
use nexodus.Prelude.{
  ℕ, zero, suc, ◌+◌, String, Bool, true, false, not, ◌&&◌, ◌||◌, Option, none, some, List, [], ◌∷◌,
  ◌++◌, length, get_elem?, set, is_empty, any, ltb, eqb, if◌then◌else◌, ◌==◌, string_eq,
}
use nexodus.Fetch.{ResourceItem, Answer, failed, fetched}

-- The `models.WatchEvent` of each case.
pub data SentEvent (A : Type 0) : Type 0 where
  change : String → Option A → SentEvent A
  delete_event : String → Option A → SentEvent A
  tail : String → SentEvent A
  error : String → SentEvent A
  close : SentEvent A

-- `watchState`: `ids_sent` is `none` for the nil map, `signaled` is whether a signal waits in the
-- channel of its subscription.
pub record WatchState (A : Type 0) : Type 0 where
  pub kind : String
  pub gt_revision : ℕ
  pub at_tail : Bool
  pub items : Option (List (ResourceItem A))
  pub idx : ℕ
  pub parked : Bool
  pub ids_sent : Option (List String)
  pub signaled : Bool

-- At a visit: whether the context is done, which case the select takes if both are ready, and what
-- the fetch answers.
pub record Visit (A : Type 0) : Type 0 where
  pub canceled : Bool
  pub prefers_signal : Bool
  pub fetch : ℕ → Answer A

-- Go on to the next watch; go on, and count the watch as parked; return an event; return the error
-- and drop the watch.
pub data Outcome (A : Type 0) : Type 0 where
  quiet : Outcome A
  idle : Outcome A
  sent : SentEvent A → Outcome A
  broken : String → Outcome A

abbrev pub is_unsent : Option (List String) → String → Bool
is_unsent none id = false
is_unsent (some ids) id = not (any (λ k. k == id) ids)

abbrev pub with_id : Option (List String) → String → Option (List String)
with_id none id = none
with_id (some ids) id = some (id ∷ ids)

module _ {A : Type 0} where
  unfoldable pub new_state : String → ℕ → Bool → WatchState A
  new_state kind gt_revision at_tail = record {
    kind = kind;
    gt_revision = gt_revision;
    at_tail = at_tail;
    items = none;
    idx = 1;
    parked = false;
    ids_sent = if at_tail then none else some [];
    signaled = false;
  }

  -- A receive of the signal channel, the end of the context, or neither.
  unfoldable pub poll : Visit A → WatchState A → WatchState A × Outcome A
  poll v st =
      if st.signaled && (not v.canceled || v.prefers_signal)
      then (record st { parked = false; signaled = false }, quiet)
      else if v.canceled
      then (st, sent close)
      else (st, idle)

  -- `state.list.Item(state.idx)`, if there is one.
  abbrev pub item_at : Option (List (ResourceItem A)) → ℕ → Option (ResourceItem A)
  item_at none i = none
  item_at (some xs) i = get_elem? xs i

  unfoldable pub deliver : ResourceItem A → WatchState A → WatchState A × Outcome A
  deliver x st =
      let st' = record st { gt_revision = x.revision; idx = st.idx + 1 } in
      if x.deleted
      then (if is_unsent st.ids_sent x.id
          then (st', quiet)
          else (st', sent (delete_event st.kind x.item)))
      else (record st' { ids_sent = with_id st.ids_sent x.id }, sent (change st.kind x.item))

  unfoldable pub refill : Answer A → WatchState A → WatchState A × Outcome A
  refill (failed e) st = (st, broken e)
  refill (fetched xs) st =
      let st' = record st { items = some xs; idx = 0 } in
      if is_empty xs
      then (if st.at_tail
          then (record st' { parked = true }, idle)
          else (record st' { at_tail = true; ids_sent = none }, sent (tail st.kind)))
      else (st', quiet)

  abbrev pub deliver_or_refill :
      Option (ResourceItem A) → Visit A → WatchState A → WatchState A × Outcome A
  deliver_or_refill (some x) v st = deliver x st
  deliver_or_refill none v st = refill (v.fetch st.gt_revision) st

  -- The body of the loop over the watches.
  unfoldable pub visit : Visit A → WatchState A → WatchState A × Outcome A
  visit v st = if st.parked then poll v st else deliver_or_refill (item_at st.items st.idx) v st

  -- slices.Delete(states, i, 1), which removes states[i:1]; `none` is its panic.
  unfoldable pub delete_from : ℕ → List (WatchState A) → Option (List (WatchState A))
  delete_from zero [] = none
  delete_from zero (st ∷ sts) = some sts
  delete_from (suc zero) sts = some sts
  delete_from (suc (suc i)) sts = none

-- The watches, the event if one is returned, and the number of parked watches.
abbrev pub Pass : Type 0 → Type 0
Pass A = Option (List (WatchState A) × Option (SentEvent A) × ℕ)

module _ {A : Type 0} where
  abbrev pub dropped : Option (List (WatchState A)) → String → ℕ → Pass A
  dropped none e n = none
  dropped (some sts) e n = some (sts, some (error e), n)

  abbrev pub on_outcome :
      Outcome A
      → List (WatchState A)
      → WatchState A
      → List (WatchState A)
      → ℕ
      → (ℕ → Pass A)
      → Pass A
  on_outcome quiet before st after n more = more n
  on_outcome idle before st after n more = more (n + 1)
  on_outcome (sent e) before st after n more = some (before ++ st ∷ after, some e, n)
  on_outcome (broken e) before st after n more =
      dropped (delete_from (length before) (before ++ st ∷ after)) e n

  -- One walk over the watches; the visit at an index is an input.
  unfoldable pub pass : (ℕ → Visit A) → List (WatchState A) → List (WatchState A) → ℕ → Pass A
  pass visits before [] n = some (before, none, n)
  pass visits before (st ∷ after) n =
      let (st', out) = visit (visits (length before)) st in
      on_outcome out before st' after n (λ k. pass visits (before ++ st' ∷ []) after k)

-- What waitForCancelTimeoutOrNotification returns.
pub data Waited : Type 0 where
  ctx_done : Waited
  timeout : Waited
  notified : ℕ → Waited

module _ {A : Type 0} where
  unfoldable pub unpark : ℕ → List (WatchState A) → List (WatchState A)
  unpark i [] = []
  unpark zero (st ∷ sts) = record st { parked = false; signaled = false } ∷ sts
  unpark (suc i) (st ∷ sts) = st ∷ unpark i sts

  abbrev pub after_wait : Waited → List (WatchState A) → List (WatchState A) × Option (SentEvent A)
  after_wait ctx_done sts = (sts, some close)
  after_wait timeout sts = (sts, none)
  after_wait (notified i) sts = (unpark i sts, none)

  -- The wait, if all watches are parked.
  unfoldable pub settle :
      Waited → List (WatchState A) → ℕ → List (WatchState A) × Option (SentEvent A)
  settle w sts n = if eqb n (length sts) then after_wait w sts else (sts, none)

  abbrev pub event_of : Outcome A → List (SentEvent A)
  event_of (sent e) = e ∷ []
  event_of _ = []

  -- The visits of one watch, in order, with the events that they return.
  unfoldable pub serve : List (Visit A) → WatchState A → WatchState A × List (SentEvent A)
  serve [] st = (st, [])
  serve (v ∷ vs) st =
      let (st', out) = visit v st in
      let (st'', events) = serve vs st' in (st'', event_of out ++ events)
