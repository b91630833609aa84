-- ===== src/Watch/Wakeup.antt =====
-- internal/handlers/events.go: a signal makes a parked watch look for new rows.
use nexodus.Prelude.{
  ℕ, ◌≡◌, refl, ap, String, Bool, true, false, not, ◌&&◌, ◌||◌, inl, inr, Option, none, some, List,
  [], ◌∷◌, ◌++◌, if◌then◌else◌, string_eq, Bool-cases, arith,
}
use nexodus.Fetch.{ResourceItem, Answer, failed, fetched}
use nexodus.Watch.{
  SentEvent, change, delete_event, WatchState, Visit, quiet, new_state, poll, item_at, is_unsent,
  deliver, refill, deliver_or_refill, visit, event_of, serve,
}

module _ {A : Type 0} where
  -- At the tail no ids are kept; a parked watch is at the tail, and has no items left.
  abbrev pub IsSteady : WatchState A → Type 0
  IsSteady st =
      (st.at_tail ≡ true → st.ids_sent ≡ none)
      × (st.parked ≡ true → (st.at_tail ≡ true) × (st.items ≡ some []))

  pub new_state-IsSteady :
      (kind : String) (gt : ℕ) (b : Bool) → IsSteady (new_state {A = A} kind gt b)
  unfolding new_state
  new_state-IsSteady kind gt true = (λ e. refl, λ e. absurd (ground arith))
  new_state-IsSteady kind gt false = (λ e. absurd (ground arith), λ e. absurd (ground arith))

  deliver-IsSteady :
      (x : ResourceItem A) (st : WatchState A)
      → st.parked ≡ false
      → IsSteady st
      → IsSteady (deliver x st).0
  unfolding deliver
  deliver-IsSteady x st p (ids, h) = elim (Bool-cases x.deleted) [
    | inr live ↦ rw live (λ t. rw (ids t) refl, λ e. absurd (ground arith))
    | inl dead ↦ rw dead (elim (Bool-cases (is_unsent st.ids_sent x.id)) [
      | inr was_sent ↦ rw was_sent (ids, λ e. absurd (ground arith))
      | inl unsent ↦ rw unsent (ids, λ e. absurd (ground arith))
    ])
  ]

  refill-IsSteady :
      (r : Answer A) (st : WatchState A)
      → st.parked ≡ false
      → IsSteady st
      → IsSteady (refill r st).0
  unfolding refill
  refill-IsSteady (failed e) st p h = h
  refill-IsSteady (fetched (x ∷ xs)) st p (ids, h) = (ids, λ e. absurd (ground arith))
  refill-IsSteady (fetched []) st p (ids, h) = elim (Bool-cases st.at_tail) [
    | inl t ↦ rw t (λ e. ids t, λ e. (refl, refl))
    | inr t ↦ rw t (λ e. refl, λ e. absurd (ground arith))
  ]

  poll-IsSteady : (v : Visit A) (st : WatchState A) → IsSteady st → IsSteady (poll v st).0
  unfolding poll
  poll-IsSteady v st (ids, h) =
      elim (Bool-cases (st.signaled && (not v.canceled || v.prefers_signal))) [
        | inl s ↦ rw s (ids, λ e. absurd (ground arith))
        | inr s ↦
            rw s (elim (Bool-cases v.canceled) [ inl c ↦ rw c (ids, h) | inr c ↦ rw c (ids, h) ])
      ]

  step-IsSteady :
      (o : Option (ResourceItem A)) (v : Visit A) (st : WatchState A)
      → st.parked ≡ false
      → IsSteady st
      → IsSteady (deliver_or_refill o v st).0
  step-IsSteady none v st p h = refill-IsSteady (v.fetch st.gt_revision) st p h
  step-IsSteady (some x) v st p h = deliver-IsSteady x st p h

  branch-IsSteady :
      (b : Bool) (v : Visit A) (st : WatchState A)
      → st.parked ≡ b
      → IsSteady st
      → IsSteady (if b then poll v st else deliver_or_refill (item_at st.items st.idx) v st).0
  branch-IsSteady true v st p h = poll-IsSteady v st h
  branch-IsSteady false v st p h = step-IsSteady (item_at st.items st.idx) v st p h

  pub visit-IsSteady : (v : Visit A) (st : WatchState A) → IsSteady st → IsSteady (visit v st).0
  unfolding visit
  visit-IsSteady v st h = branch-IsSteady st.parked v st refl h

  -- The event of a row for a watch at its tail.
  abbrev pub event_for : String → ResourceItem A → SentEvent A
  event_for kind x = if x.deleted then delete_event kind x.item else change kind x.item

  abbrev woken : WatchState A → WatchState A
  woken st = record st { parked = false; signaled = false }

  visit-woken :
      (v : Visit A) (st : WatchState A)
      → st.parked ≡ true
      → st.signaled ≡ true
      → v.canceled ≡ false
      → visit v st ≡ (woken st, quiet)
  unfolding visit poll
  visit-woken v st p s c = rw p (rw s (rw c refl))

  abbrev filled : ResourceItem A → List (ResourceItem A) → WatchState A → WatchState A
  filled x xs st = record st { items = some (x ∷ xs); idx = 0 }

  visit-filled :
      (v : Visit A) (st : WatchState A) (x : ResourceItem A) (xs : List (ResourceItem A))
      → st.items ≡ some []
      → v.fetch st.gt_revision ≡ fetched (x ∷ xs)
      → visit v (woken st) ≡ (filled x xs (woken st), quiet)
  unfolding visit refill
  visit-filled v st x xs e f = rw e (rw f refl)

  event-deliver :
      (x : ResourceItem A) (st : WatchState A)
      → st.ids_sent ≡ none
      → event_of (deliver x st).1 ≡ event_for st.kind x ∷ []
  unfolding deliver
  event-deliver x st n = elim (Bool-cases x.deleted) [
    | inl dead ↦ rw dead (rw n refl)
    | inr live ↦ rw live refl
  ]

  visit-delivers :
      (v : Visit A) (st : WatchState A) (x : ResourceItem A) (xs : List (ResourceItem A))
      → st.ids_sent ≡ none
      → event_of (visit v (filled x xs (woken st))).1 ≡ event_for st.kind x ∷ []
  unfolding visit
  visit-delivers v st x xs n = event-deliver x (filled x xs (woken st)) n

  -- A watch that is parked (at its tail, with no items left) and has a signal, if the context is
  -- not done, is unparked at the next visit and fetches at the one after; if that answers rows,
  -- the third visit returns the event of the first.
  pub serve-wakeup :
      (v v' v'' : Visit A) (st : WatchState A) (x : ResourceItem A) (xs : List (ResourceItem A))
      → IsSteady st
      → st.parked ≡ true
      → st.signaled ≡ true
      → v.canceled ≡ false
      → v'.fetch st.gt_revision ≡ fetched (x ∷ xs)
      → (serve (v ∷ v' ∷ v'' ∷ []) st).1 ≡ event_for st.kind x ∷ []
  unfolding serve
  serve-wakeup v v' v'' st x xs (ids, h) p s c f = rw (visit-woken v st p s c) (
      rw (visit-filled v' st x xs (h p).1 f)
        (ap (λ es. es ++ []) (visit-delivers v'' st x xs (ids (h p).0))))

  parked-refill :
      (r : Answer A) (st : WatchState A)
      → st.parked ≡ false
      → (refill r st).0.parked ≡ true
      → (r ≡ fetched []) × (st.at_tail ≡ true)
  unfolding refill
  parked-refill (failed e) st p q = absurd (ground arith)
  parked-refill (fetched (x ∷ xs)) st p q = absurd (ground arith)
  parked-refill (fetched []) st p q = (refl, ground arith)

  parked-step :
      (o : Option (ResourceItem A)) (v : Visit A) (st : WatchState A)
      → st.parked ≡ false
      → (deliver_or_refill o v st).0.parked ≡ true
      → (v.fetch st.gt_revision ≡ fetched []) × (st.at_tail ≡ true)
  unfolding deliver
  parked-step none v st p q = parked-refill (v.fetch st.gt_revision) st p q
  parked-step (some x) v st p q = absurd (ground arith)

  parked-branch :
      (b : Bool) (v : Visit A) (st : WatchState A)
      → st.parked ≡ b
      → b ≡ false
      → (if b then poll v st else deliver_or_refill (item_at st.items st.idx) v st).0.parked ≡ true
      → (v.fetch st.gt_revision ≡ fetched []) × (st.at_tail ≡ true)
  parked-branch true v st p e q = absurd (ground arith)
  parked-branch false v st p e q = parked-step (item_at st.items st.idx) v st p q

  -- A visit parks a watch only if the fetch from its revision answered no row and the watch was
  -- at its tail.
  pub visit-parked :
      (v : Visit A) (st : WatchState A)
      → st.parked ≡ false
      → (visit v st).0.parked ≡ true
      → (v.fetch st.gt_revision ≡ fetched []) × (st.at_tail ≡ true)
  unfolding visit
  visit-parked v st p q = parked-branch st.parked v st refl p q
