-- ===== src/Watch/Client.antt =====
-- internal/handlers/events.go: what a client has that puts the events of a watch into a map. The
-- client is part of the specification: the Informer of internal/client has guards of its own.
use nexodus.Prelude.{
  ◌≡◌, refl, sym, ap, ◌∙◌, inl, inr, String, Bool, true, false, not, ◌&&◌, ◌||◌, Option, none, some,
  List, [], ◌∷◌, ◌++◌, Every, any, if◌then◌else◌, ◌==◌, string_eq, Bool-cases, arith,
}
use nexodus.Prelude.Maps.{Map, lookup, insert, delete, lookup-insert, lookup-delete}
use nexodus.Fetch.{ResourceItem, Answer, failed, fetched}
use nexodus.Watch.{
  SentEvent, change, delete_event, WatchState, Visit, Outcome, poll, item_at, is_unsent, with_id,
  deliver, refill, deliver_or_refill, visit, event_of, serve,
}

module _ {A : Type 0} (key : Option A → String) where
  -- The client's map after an event, and after the events of a stream.
  abbrev pub client_step : SentEvent A → Map String (Option A) → Map String (Option A)
  client_step (change kind v) m = insert (key v) v m
  client_step (delete_event kind v) m = delete (key v) m
  client_step _ m = m

  abbrev pub client : List (SentEvent A) → Map String (Option A) → Map String (Option A)
  client [] m = m
  client (e ∷ es) m = client es (client_step e m)

module _ {A : Type 0} where
  -- What the rows say of a key, one after another.
  abbrev pub row_step : String → ResourceItem A → Option (Option A) → Option (Option A)
  row_step k x old = if x.id == k then (if x.deleted then none else some x.item) else old

  abbrev pub rows_of : String → List (ResourceItem A) → Option (Option A) → Option (Option A)
  rows_of k [] old = old
  rows_of k (x ∷ xs) old = rows_of k xs (row_step k x old)

  -- The row that a visit takes from the list.
  abbrev pub taken_if : Bool → Option (ResourceItem A) → List (ResourceItem A)
  taken_if true o = []
  taken_if false none = []
  taken_if false (some x) = x ∷ []

  unfoldable pub taken : List (Visit A) → WatchState A → List (ResourceItem A)
  taken [] st = []
  taken (v ∷ vs) st = taken_if st.parked (item_at st.items st.idx) ++ taken vs (visit v st).0

  -- Until the tail, the ids sent are those that the client has.
  abbrev pub IsKnown : Option (List String) → Map String (Option A) → Type 0
  IsKnown none m = Unit
  IsKnown (some ids) m = (k : String) → any (λ j. j == k) ids ≡ false → lookup k m ≡ none

module _ {A : Type 0} (key : Option A → String) where
  abbrev pub IsKeyed : ResourceItem A → Type 0
  IsKeyed x = key x.item ≡ x.id

  -- The client's map agrees with the rows taken, and the ids sent still cover it.
  abbrev Agrees : WatchState A × Outcome A → List (ResourceItem A) → Map String (Option A) → Type 0
  Agrees (st, out) rows m =
      ((k : String) → lookup k (client key (event_of out) m) ≡ rows_of k rows (lookup k m))
      × IsKnown st.ids_sent (client key (event_of out) m)

  IsKnown-insert :
      (o : Option (List String)) (id : String) (v : Option A) (m : Map String (Option A))
      → IsKnown o m
      → IsKnown (with_id o id) (insert id v m)
  IsKnown-insert none id v m h = tt
  IsKnown-insert (some ids) id v m h = λ k unsent.
      rw (lookup-insert id k v m) (elim (Bool-cases (id == k)) [
        | inl e ↦ absurd (ground arith)
        | inr e ↦ rw e (h k (ground arith))
      ])

  IsKnown-delete :
      (o : Option (List String)) (id : String) (m : Map String (Option A))
      → IsKnown o m
      → IsKnown o (delete id m)
  IsKnown-delete none id m h = tt
  IsKnown-delete (some ids) id m h = λ k unsent.
      rw (lookup-delete id k m)
        (elim (Bool-cases (id == k)) [ inl e ↦ rw e refl | inr e ↦ rw e (h k unsent) ])

  unsent-none :
      (o : Option (List String)) (id : String) (m : Map String (Option A))
      → IsKnown o m
      → is_unsent o id ≡ true
      → lookup id m ≡ none
  unsent-none none id m h u = absurd (ground arith)
  unsent-none (some ids) id m h u = h id (ground arith)

  absent_step :
      (id k : String) (m : Map String (Option A))
      → lookup id m ≡ none
      → lookup k m ≡ (if id == k then none else lookup k m)
  absent_step id k m h = elim (Bool-cases (id == k)) [
    | inl e ↦ rw e (ap (λ z. lookup z m) (sym ((string_eq.same_iff id k).0 e)) ∙ h)
    | inr e ↦ rw e refl
  ]

  deliver-Agrees :
      (x : ResourceItem A) (st : WatchState A) (m : Map String (Option A))
      → IsKeyed x
      → IsKnown st.ids_sent m
      → Agrees (deliver x st) (x ∷ []) m
  unfolding deliver
  deliver-Agrees x st m keyed known = elim (Bool-cases x.deleted) [
    | inr live ↦ rw live (
        rw keyed
          (λ k. lookup-insert x.id k x.item m, IsKnown-insert st.ids_sent x.id x.item m known))
    | inl dead ↦ rw dead (elim (Bool-cases (is_unsent st.ids_sent x.id)) [
      | inr was_sent ↦
          rw was_sent
            (rw keyed (λ k. lookup-delete x.id k m, IsKnown-delete st.ids_sent x.id m known))
      | inl unsent ↦
          rw unsent (λ k. absent_step x.id k m (unsent-none st.ids_sent x.id m known unsent), known)
    ])
  ]

  refill-Agrees :
      (r : Answer A) (st : WatchState A) (m : Map String (Option A))
      → IsKnown st.ids_sent m
      → Agrees (refill r st) [] m
  unfolding refill
  refill-Agrees (failed e) st m known = (λ k. refl, known)
  refill-Agrees (fetched (x ∷ xs)) st m known = (λ k. refl, known)
  refill-Agrees (fetched []) st m known = elim (Bool-cases st.at_tail) [
    | inl t ↦ rw t (λ k. refl, known)
    | inr t ↦ rw t (λ k. refl, tt)
  ]

  poll-Agrees :
      (v : Visit A) (st : WatchState A) (m : Map String (Option A))
      → IsKnown st.ids_sent m
      → Agrees (poll v st) [] m
  unfolding poll
  poll-Agrees v st m known =
      elim (Bool-cases (st.signaled && (not v.canceled || v.prefers_signal))) [
        | inl s ↦ rw s (λ k. refl, known)
        | inr s ↦ rw s (elim (Bool-cases v.canceled) [
          | inl c ↦ rw c (λ k. refl, known)
          | inr c ↦ rw c (λ k. refl, known)
        ])
      ]

  deliver_or_refill-Agrees :
      (o : Option (ResourceItem A)) (v : Visit A) (st : WatchState A) (m : Map String (Option A))
      → Every (taken_if false o) IsKeyed
      → IsKnown st.ids_sent m
      → Agrees (deliver_or_refill o v st) (taken_if false o) m
  deliver_or_refill-Agrees none v st m keyed known =
      refill-Agrees (v.fetch st.gt_revision) st m known
  deliver_or_refill-Agrees (some x) v st m (k, keyed) known = deliver-Agrees x st m k known

  visit-Agrees :
      (b : Bool) (v : Visit A) (st : WatchState A) (m : Map String (Option A))
      → Every (taken_if b (item_at st.items st.idx)) IsKeyed
      → IsKnown st.ids_sent m
      → Agrees
          (if b then poll v st else deliver_or_refill (item_at st.items st.idx) v st)
          (taken_if b (item_at st.items st.idx))
          m
  visit-Agrees true v st m keyed known = poll-Agrees v st m known
  visit-Agrees false v st m keyed known =
      deliver_or_refill-Agrees (item_at st.items st.idx) v st m keyed known

  visit_lem :
      (v : Visit A) (st : WatchState A) (m : Map String (Option A))
      → Every (taken_if st.parked (item_at st.items st.idx)) IsKeyed
      → IsKnown st.ids_sent m
      → Agrees (visit v st) (taken_if st.parked (item_at st.items st.idx)) m
  unfolding visit
  visit_lem v st m keyed known = visit-Agrees st.parked v st m keyed known

  client-append :
      (es fs : List (SentEvent A)) (m : Map String (Option A))
      → client key (es ++ fs) m ≡ client key fs (client key es m)
  client-append [] fs m = refl
  client-append (e ∷ es) fs m = client-append es fs (client_step key e m)

  rows_of-append :
      (k : String) (xs ys : List (ResourceItem A)) (old : Option (Option A))
      → rows_of k (xs ++ ys) old ≡ rows_of k ys (rows_of k xs old)
  rows_of-append k [] ys old = refl
  rows_of-append k (x ∷ xs) ys old = rows_of-append k xs ys (row_step k x old)

  Every-append :
      (xs ys : List (ResourceItem A))
      → Every (xs ++ ys) IsKeyed
      → Every xs IsKeyed × Every ys IsKeyed
  Every-append [] ys h = (tt, h)
  Every-append (x ∷ xs) ys (p, h) = let (q, r) = Every-append xs ys h in ((p, q), r)

  -- For a watch whose ids sent are kept until the tail and cover what the client has (a client
  -- without items, say), and rows whose value has the row's id as its key: after any visits the
  -- client that puts each change into a map and takes each deletion out has for each key what the
  -- rows taken from the lists say, one after another; that deletions of ids not sent are left out
  -- makes no difference.
  pub client-serve :
      (vs : List (Visit A)) (st : WatchState A) (m : Map String (Option A)) (k : String)
      → Every (taken vs st) IsKeyed
      → IsKnown st.ids_sent m
      → lookup k (client key (serve vs st).1 m) ≡ rows_of k (taken vs st) (lookup k m)
  unfolding serve taken
  client-serve [] st m k keyed known = refl
  client-serve (v ∷ vs) st m k keyed known =
      let rows = taken_if st.parked (item_at st.items st.idx) in
      let split = Every-append rows (taken vs (visit v st).0) keyed in
      let agree = visit_lem v st m split.0 known in
      let m' = client key (event_of (visit v st).1) m in
      ap (lookup k) (client-append (event_of (visit v st).1) (serve vs (visit v st).0).1 m)
      ∙ client-serve vs (visit v st).0 m' k split.1 agree.1
      ∙ ap (rows_of k (taken vs (visit v st).0)) (agree.0 k)
      ∙ sym (rows_of-append k rows (taken vs (visit v st).0) (lookup k m))
