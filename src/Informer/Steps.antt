-- ===== src/Informer/Steps.antt =====
-- internal/client/custom_informer.go: which calls of the handler keep the informer ready.
use nexodus.Prelude.{
  ◌≡◌, ◌≢◌, refl, sym, ap, ◌∙◌, ◌⊎◌, inl, inr, String, Bool, true, false, not, ◌||◌, Option, none,
  some, List, [], ◌∷◌, ◌++◌, Every, if◌then◌else◌, Bool-cases, arith,
}
use nexodus.Prelude.Maps.{Map}
use nexodus.Prelude.Integers.{ℤ}
use nexodus.Informer.{
  Adaptor, ListInformer, WatchEvent, EventType, change, delete_event, tail, close, error, unknown,
  event_type, notify, close_bookmark, set_error, accept, on_change, on_delete, on_error, on_event,
  on_call, handle_watch_event, handle_all, prepare,
}

-- The bookmark is open until the tail was seen.
abbrev pub IsReady : {T R : Type 0} → ListInformer T R → Type 0
IsReady i = (i.at_tail || not i.closed) ≡ true

abbrev pub IsDecoded : {J T : Type 0} → Adaptor J T → EventType → J → Type 0
IsDecoded a change value = Unit
IsDecoded a delete_event value = (a.item value).1 ≡ none
IsDecoded a tail value = Unit
IsDecoded a close value = Unit
IsDecoded a error value = ⊥
IsDecoded a unknown value = Unit

-- The call brings no error: neither the stream's, nor the server's, nor a deletion that does not
-- decode.
abbrev pub IsCalm : {J T R : Type 0} → Adaptor J T → WatchEvent J R → Type 0
IsCalm a w = (w.failure ≡ none) × IsDecoded a (event_type w.kind) w.value

module _ {T R : Type 0} where
  accept-IsReady :
      (r : ℤ) (edit : Map String T → Map String T) (i : ListInformer T R)
      → IsReady i
      → IsReady (accept r edit i)
  unfolding accept notify
  accept-IsReady r edit i h = ground (arith, h)

  pub IsReady-close : (i : ListInformer T R) → IsReady i → i.at_tail ≡ false → i.closed ≡ false
  IsReady-close i h t = ground arith

  -- The error is there after `set_error`.
  set_error_err :
      (e : String) (i : ListInformer T R)
      → IsReady i
      → (j : ListInformer T R) × (set_error e i ≡ some j) × (j.err ≡ some e)
  unfolding set_error close_bookmark notify
  set_error_err e i h = elim (Bool-cases i.at_tail) [
    | inl t ↦ rw t (_, refl, refl)
    | inr t ↦ rw t (rw (IsReady-close i h t) (_, refl, refl))
  ]

  IsReady-of_err : (j : ListInformer T R) (e : String) → j.err ≡ some e → IsReady (prepare j)
  unfolding prepare
  IsReady-of_err j e h = rw h (ground arith)

  prepare-IsReady : (j : ListInformer T R) → IsReady j → IsReady (prepare j)
  unfolding prepare
  prepare-IsReady j h = elim (nexodus.Prelude.Option-cases j.err) [
    | inl e ↦ rw e h
    | inr (x, e) ↦ rw e (ground arith)
  ]

module _ {J T R : Type 0} (a : Adaptor J T) where
  calm_event-IsReady :
      (k : EventType) (s : String) (v : J) (i : ListInformer T R)
      → IsDecoded a k v
      → IsReady i
      → (j : ListInformer T R) × (on_event a k s v i ≡ some j) × IsReady j
  unfolding on_event on_change on_delete close_bookmark notify
  calm_event-IsReady change s v i d h = (_, refl, accept-IsReady _ _ _ h)
  calm_event-IsReady delete_event s v i d h = rw d (_, refl, accept-IsReady _ _ _ h)
  calm_event-IsReady tail s v i d h = elim (Bool-cases i.at_tail) [
    | inl t ↦ rw t (_, refl, refl)
    | inr t ↦ rw t (rw (IsReady-close i h t) (_, refl, refl))
  ]
  calm_event-IsReady close s v i d h = elim (Bool-cases i.at_tail) [
    | inl t ↦ rw t (_, refl, refl)
    | inr t ↦ rw t (rw (IsReady-close i h t) (_, refl, refl))
  ]
  calm_event-IsReady error s v i d h = elim d [ ]
  calm_event-IsReady unknown s v i d h = (_, refl, h)

  abbrev IsRecovered : Option (ListInformer T R) → Type 0
  IsRecovered o = (j : ListInformer T R) × (o ≡ some j) × IsReady (prepare j)

  IsRecovered-set_error :
      (e : String) (i : ListInformer T R) → IsReady i → IsRecovered (set_error e i)
  IsRecovered-set_error e i h =
      let (j, done, kept) = set_error_err e i h in (j, done, IsReady-of_err j e kept)

  IsRecovered-ready :
      (o : Option (ListInformer T R))
      → ((j : ListInformer T R) × (o ≡ some j) × IsReady j)
      → IsRecovered o
  IsRecovered-ready o (j, done, h) = (j, done, prepare-IsReady j h)

  IsRecovered-delete :
      (x : T × Option String) (i : ListInformer T R) → IsReady i → IsRecovered (on_delete a x i)
  unfolding on_delete
  IsRecovered-delete (x, none) i h = IsRecovered-ready _ (_, refl, accept-IsReady _ _ _ h)
  IsRecovered-delete (x, some e) i h = IsRecovered-set_error e i h

  IsRecovered-error :
      (x : Option String × String) (i : ListInformer T R) → IsReady i → IsRecovered (on_error a x i)
  unfolding on_error
  IsRecovered-error (some e, x) i h = IsRecovered-set_error e i h
  IsRecovered-error (none, x) i h = IsRecovered-set_error x i h

  IsRecovered-event :
      (k : EventType) (s : String) (v : J) (i : ListInformer T R)
      → IsReady i
      → IsRecovered (on_event a k s v i)
  unfolding on_event
  IsRecovered-event change s v i h = IsRecovered-ready _ (calm_event-IsReady change s v i tt h)
  IsRecovered-event delete_event s v i h = IsRecovered-delete (a.item v) i h
  IsRecovered-event tail s v i h = IsRecovered-ready _ (calm_event-IsReady tail s v i tt h)
  IsRecovered-event close s v i h = IsRecovered-ready _ (calm_event-IsReady close s v i tt h)
  IsRecovered-event error s v i h = IsRecovered-error (a.base_error v) i h
  IsRecovered-event unknown s v i h = IsRecovered-ready _ (calm_event-IsReady unknown s v i tt h)

  IsRecovered-call :
      (f : Option String) (s : String) (v : J) (i : ListInformer T R)
      → IsReady i
      → IsRecovered (on_call a f s v i)
  IsRecovered-call (some e) s v i h = IsRecovered-set_error e i h
  IsRecovered-call none s v i h = IsRecovered-event (event_type s) s v i h

  calm_call-IsReady :
      (f : Option String) (s : String) (v : J) (i : ListInformer T R)
      → f ≡ none
      → IsDecoded a (event_type s) v
      → IsReady i
      → (j : ListInformer T R) × (on_call a f s v i ≡ some j) × IsReady j
  calm_call-IsReady none s v i e d h = calm_event-IsReady (event_type s) s v i d h
  calm_call-IsReady (some x) s v i e d h = absurd (ground arith)

  pub calm-IsReady :
      (w : WatchEvent J R) (i : ListInformer T R)
      → IsCalm a w
      → IsReady i
      → (j : ListInformer T R) × (handle_watch_event a w i ≡ some j) × IsReady j
  unfolding handle_watch_event
  calm-IsReady w i (e, d) h = calm_call-IsReady w.failure w.kind w.value _ e d h

  last-IsReady :
      (w : WatchEvent J R) (i : ListInformer T R)
      → IsReady i
      → IsRecovered (handle_all a (w ∷ []) i)
  unfolding handle_all handle_watch_event
  last-IsReady w i h =
      let (j, done, kept) =
        IsRecovered-call w.failure w.kind w.value (record i { response = some w.reply }) h in
      rw done (j, refl, kept)

  pub handle_all-cons :
      (w : WatchEvent J R) (ws : List (WatchEvent J R)) (i j : ListInformer T R)
      → handle_watch_event a w i ≡ some j
      → handle_all a (w ∷ ws) i ≡ handle_all a ws j
  unfolding handle_all
  handle_all-cons w ws i j e = rw e refl

  -- For a ready informer (its bookmark is open unless the tail was seen), any stream of events
  -- without errors and then one last event of any kind, error or not, the handler never panics,
  -- and after the reset at the start of the next Execute the informer is ready again.
  pub session-IsReady :
      (ws : List (WatchEvent J R)) (last : WatchEvent J R) (i : ListInformer T R)
      → IsReady i
      → Every ws (IsCalm a)
      → (j : ListInformer T R) × (handle_all a (ws ++ last ∷ []) i ≡ some j) × IsReady (prepare j)
  session-IsReady [] last i h calm = last-IsReady last i h
  session-IsReady (w ∷ ws) last i h (c, calm) =
      let (j, done, kept) = calm-IsReady w i c h in
      let (k, end, ready) = session-IsReady ws last j kept calm in
      (k, handle_all-cons w (ws ++ last ∷ []) i j done ∙ end, ready)
