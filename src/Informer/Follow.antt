-- ===== src/Informer/Follow.antt =====
-- internal/client/custom_informer.go: the items that an informer has after a stream of events.
use nexodus.Prelude.{
  ◌≡◌, refl, sym, ap, ◌∙◌, ◌⊎◌, inl, inr, String, Bool, true, false, Option, none, some, List, [],
  ◌∷◌, Every, if◌then◌else◌, ◌==◌, string_eq, Bool-cases, arith,
}
use nexodus.Prelude.Maps.{Map, lookup, insert, delete, lookup-insert, lookup-delete}
use nexodus.Prelude.Integers.{ℤ, ltz}
use nexodus.Informer.{
  Adaptor, ListInformer, WatchEvent, EventType, change, delete_event, tail, close, error, unknown,
  event_type, or_zero, notify, close_bookmark, accept, on_change, on_delete, on_event, on_call,
  handle_watch_event, handle_all,
}
use nexodus.Informer.Steps.{IsReady, IsDecoded, IsCalm, calm-IsReady, handle_all-cons}

-- The greatest revision so far, and the item of the key.
abbrev pub view : {T R : Type 0} → String → ListInformer T R → ℤ × Option T
view k i = (or_zero i.gt_revision, lookup k i.data_map)

-- What an item with its revision says of a key: nothing if it is older, or has another key.
abbrev pub newer : {T : Type 0} → ℤ → Bool → Option T → ℤ × Option T → ℤ × Option T
newer r mine now (g, before) = if ltz r g then (g, before) else (r, if mine then now else before)

module _ {J T : Type 0} (a : Adaptor J T) (k : String) where
  abbrev pub heard : EventType → J → ℤ × Option T → ℤ × Option T
  heard change v p = newer (a.revision (a.item v).0) (a.key (a.item v).0 == k) (some (a.item v).0) p
  heard delete_event v p = newer (a.revision (a.item v).0) (a.key (a.item v).0 == k) none p
  heard _ v p = p

module _ {J T R : Type 0} (a : Adaptor J T) (k : String) where
  -- One key, followed through the stream.
  abbrev pub follow : List (WatchEvent J R) → ℤ × Option T → ℤ × Option T
  follow [] p = p
  follow (w ∷ ws) p = follow ws (heard a k (event_type w.kind) w.value p)

module _ {T R : Type 0} (k : String) where
  pub view-accept :
      (r : ℤ) (edit : Map String T → Map String T) (i : ListInformer T R) (b : Bool)
      (now : Option T)
      → lookup k (edit i.data_map) ≡ (if b then now else lookup k i.data_map)
      → view k (accept r edit i) ≡ newer r b now (view k i)
  unfolding accept notify
  view-accept r edit i b now e = elim (Bool-cases (ltz r (or_zero i.gt_revision))) [
    | inl x ↦ rw x refl
    | inr x ↦ rw x (elim (Bool-cases i.at_tail) [
      | inl t ↦ rw t (ap (λ z. (r, z)) e)
      | inr t ↦ rw t (ap (λ z. (r, z)) e)
    ])
  ]

module _ {J T R : Type 0} (a : Adaptor J T) (k : String) where
  view-change :
      (x : T × Option String) (i j : ListInformer T R)
      → on_change a x i ≡ some j
      → view k j ≡ newer (a.revision x.0) (a.key x.0 == k) (some x.0) (view k i)
  unfolding on_change
  view-change (x, f) i j e =
      ap (view k) (sym (nexodus.Prelude.eq_of_some e))
      ∙ view-accept k (a.revision x) (insert (a.key x) x) (record i { err = f }) (a.key x == k)
          (some x) (lookup-insert (a.key x) k x i.data_map)

  view-delete :
      (x : T × Option String) (i j : ListInformer T R)
      → x.1 ≡ none
      → on_delete a x i ≡ some j
      → view k j ≡ newer (a.revision x.0) (a.key x.0 == k) none (view k i)
  unfolding on_delete
  view-delete (x, some f) i j d e = absurd (ground arith)
  view-delete (x, none) i j d e =
      ap (view k) (sym (nexodus.Prelude.eq_of_some e))
      ∙ view-accept k (a.revision x) (delete (a.key x)) i (a.key x == k) none
          (lookup-delete (a.key x) k i.data_map)

  -- The bookmark's close leaves the items.
  view-close :
      (i i' j : ListInformer T R)
      → view k i' ≡ view k i
      → (if i.at_tail then some i else close_bookmark i') ≡ some j
      → view k j ≡ view k i
  unfolding close_bookmark
  view-close i i' j same e = elim (Bool-cases i.at_tail) [
    | inl t ↦ ap (view k) {y = i} (nexodus.Prelude.eq_of_some (sym e ∙ rw t refl))
    | inr t ↦ elim (Bool-cases i'.closed) [
      | inl c ↦ absurd (ground arith)
      | inr c ↦
          ap (view k) {y = record i' { closed = true }}
            (nexodus.Prelude.eq_of_some (sym e ∙ rw t (rw c refl)))
          ∙ same
    ]
  ]

  view-event :
      (e : EventType) (s : String) (v : J) (i j : ListInformer T R)
      → IsDecoded a e v
      → on_event a e s v i ≡ some j
      → view k j ≡ heard a k e v (view k i)
  unfolding on_event notify
  view-event change s v i j d e = view-change (a.item v) i j e
  view-event delete_event s v i j d e = view-delete (a.item v) i j d e
  view-event tail s v i j d e = view-close i (record (notify i) { at_tail = true }) j refl e
  view-event close s v i j d e = view-close i (record i { at_tail = true }) j refl e
  view-event error s v i j d e = elim d [ ]
  view-event unknown s v i j d e = ap (view k) (sym (nexodus.Prelude.eq_of_some e))

  view-call :
      (f : Option String) (s : String) (v : J) (i j : ListInformer T R)
      → f ≡ none
      → IsDecoded a (event_type s) v
      → on_call a f s v i ≡ some j
      → view k j ≡ heard a k (event_type s) v (view k i)
  view-call none s v i j c d e = view-event (event_type s) s v i j d e
  view-call (some f) s v i j c d e = absurd (ground arith)

  view-step :
      (w : WatchEvent J R) (i j : ListInformer T R)
      → IsCalm a w
      → handle_watch_event a w i ≡ some j
      → view k j ≡ heard a k (event_type w.kind) w.value (view k i)
  unfolding handle_watch_event
  view-step w i j (c, d) e =
      view-call w.failure w.kind w.value (record i { response = some w.reply }) j c d e

  -- For a ready informer and a stream of events without errors (the stream brings none, no event
  -- is of the type "error", and each deletion decodes), the handler never panics, and the
  -- greatest revision and the item of each key are what one gets by following that key alone: an
  -- event with a smaller revision than the greatest so far changes nothing, any other sets the
  -- revision, and sets or removes the item if it is of that key.
  pub handle_all-follow :
      (ws : List (WatchEvent J R)) (i : ListInformer T R)
      → IsReady i
      → Every ws (IsCalm a)
      → (j : ListInformer T R) × (handle_all a ws i ≡ some j)
        × (view k j ≡ follow a k ws (view k i))
  unfolding handle_all
  handle_all-follow [] i h calm = (i, refl, refl)
  handle_all-follow (w ∷ ws) i h (c, calm) =
      let (j, done, ready) = calm-IsReady a w i c h in
      let (m, end, seen) = handle_all-follow ws j ready calm in
      (m, handle_all-cons a w ws i j done ∙ end, seen ∙ ap (follow a k ws) (view-step w i j c done))
