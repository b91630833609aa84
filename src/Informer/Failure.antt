-- ===== src/Informer/Failure.antt =====
-- internal/client/custom_informer.go: how an error of the stream reaches the caller of Execute.
use nexodus.Prelude.{
  ◌≡◌, refl, inl, inr, String, true, false, Option, none, some, Bool-cases, arith,
}
use nexodus.Informer.{
  Adaptor, ListInformer, WatchEvent, notify, close_bookmark, set_error, on_call, handle_watch_event,
  is_released, returned,
}
use nexodus.Informer.Steps.{IsReady, IsReady-close}

-- The caller goes on, with the error, the response and the items there were.
abbrev IsTold : {T R : Type 0} → String → ListInformer T R → Option (ListInformer T R) → Type 0
IsTold {T} {R} e i o =
    (j : ListInformer T R) × (o ≡ some j)
    × (is_released j ≡ true)
    × (j.changed ≡ true)
    × (returned false j ≡ (i.data_map, i.response, some e))

module _ {T R : Type 0} where
  set_error-IsTold : (e : String) (i : ListInformer T R) → IsReady i → IsTold e i (set_error e i)
  unfolding set_error close_bookmark notify is_released returned
  set_error-IsTold e i h = elim (Bool-cases i.at_tail) [
    | inl t ↦ rw t (_, refl, refl, refl, refl)
    | inr t ↦ rw t (rw (IsReady-close i h t) (_, refl, ground arith, refl, refl))
  ]

module _ {J T R : Type 0} (a : Adaptor J T) where
  on_call-IsTold :
      (f : Option String) (s : String) (v : J) (e : String) (i : ListInformer T R)
      → f ≡ some e
      → IsReady i
      → IsTold e i (on_call a f s v i)
  unfolding set_error is_released returned
  on_call-IsTold (some x) s v e i h ready = rw h (set_error-IsTold e i ready)
  on_call-IsTold none s v e i h ready = absurd (ground arith)

  -- If the stream fails, a ready informer does not panic, a call of Execute that waits goes on, a
  -- signal is pending, and Execute returns the items there were, the response and that error.
  pub failure-is_released :
      (w : WatchEvent J R) (e : String) (i : ListInformer T R)
      → w.failure ≡ some e
      → IsReady i
      → (j : ListInformer T R) × (handle_watch_event a w i ≡ some j)
        × (is_released j ≡ true)
        × (j.changed ≡ true)
        × (returned false j ≡ (i.data_map, some w.reply, some e))
  unfolding handle_watch_event
  failure-is_released w e i h ready =
      on_call-IsTold w.failure w.kind w.value e (record i { response = some w.reply }) h ready
