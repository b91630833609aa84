-- ===== src/Informer/Undecoded.antt =====
-- internal/client/custom_informer.go: what the informer does with a value that does not decode.
use nexodus.Prelude.{
  ◌≡◌, refl, ap, ◌∙◌, String, true, false, Option, none, some, [], ◌∷◌, ◌==◌, string_eq, arith,
}
use nexodus.Prelude.Maps.{Map, lookup, insert, lookup-insert, eq_self}
use nexodus.Prelude.Integers.{ℤ, ltz}
use nexodus.Informer.{
  Adaptor, ListInformer, WatchEvent, event_type, or_zero, notify, close_bookmark, set_error, accept,
  on_change, on_delete, on_event, handle_watch_event, handle_all, returned,
}
use nexodus.Informer.Follow.{view, newer, view-accept}

-- An event that the stream delivered.
abbrev pub delivered : {J R : Type 0} → String → J → R → WatchEvent J R
delivered kind value reply = record { kind = kind; value = value; reply = reply; failure = none }

accept_err :
    {T R : Type 0} (r : ℤ) (edit : Map String T → Map String T) (i : ListInformer T R)
    → (accept r edit i).err ≡ i.err
unfolding accept notify
accept_err r edit i = ground arith

-- An item that is put before one with another key is still there.
stored_twice :
    {J T R : Type 0} (a : Adaptor J T) (bad good : T) (e : Option String) (i : ListInformer T R)
    (r : Option R)
    → ltz (a.revision bad) (or_zero i.gt_revision) ≡ false
    → ltz (a.revision good) (a.revision bad) ≡ false
    → (a.key good == a.key bad) ≡ false
    → lookup
        (a.key bad)
        (accept
          (a.revision good)
          (insert (a.key good) good)
          (record (accept (a.revision bad) (insert (a.key bad) bad) i) {
            err = e;
            response = r;
          })).data_map
      ≡ some bad
stored_twice a bad good e i r x y k =
    let i' = record (accept (a.revision bad) (insert (a.key bad) bad) i) {
      err = e;
      response = r;
    } in
    let kept : view (a.key bad) i' ≡ (a.revision bad, some bad) =
      (view-accept (a.key bad) (a.revision bad) (insert (a.key bad) bad) i true (some bad)
          (lookup-insert (a.key bad) (a.key bad) bad i.data_map ∙ rw (eq_self (a.key bad)) refl)
        ∙ rw x refl) in
    ap (λ z. z.1) {y = (a.revision good, some bad)}
      (view-accept (a.key bad) (a.revision good) (insert (a.key good) good) i' false none
          (lookup-insert (a.key good) (a.key bad) good i'.data_map ∙ rw k refl)
        ∙ ap (newer (a.revision good) false none) kept
        ∙ rw y refl)

module _ {J T R : Type 0} (a : Adaptor J T) where
  -- If the tail was not seen and the bookmark is open, a deletion that does not decode followed
  -- by the tail makes the handler panic.
  pub delete_then_tail :
      (v u : J) (item : T) (e : String) (r : R) (i : ListInformer T R)
      → i.at_tail ≡ false
      → i.closed ≡ false
      → a.item v ≡ (item, some e)
      → handle_all a (delivered "delete" v r ∷ delivered "tail" u r ∷ []) i ≡ none
  unfolding handle_all handle_watch_event on_event event_type on_delete set_error close_bookmark
      notify
  delete_then_tail v u item e r i t c d = rw d (rw t (rw c (ground (arith, t, c))))

  -- After a change that does not decode and one that does, neither older than the last revision
  -- and with another key, Execute returns no error and the item that the failed decoding left is
  -- among its items.
  pub change_then_change :
      (v u : J) (bad good : T) (e : String) (r : R) (i : ListInformer T R)
      → a.item v ≡ (bad, some e)
      → a.item u ≡ (good, none)
      → ltz (a.revision bad) (or_zero i.gt_revision) ≡ false
      → ltz (a.revision good) (a.revision bad) ≡ false
      → (a.key good == a.key bad) ≡ false
      → (j : ListInformer T R) × (handle_all a
            (delivered "change" v r ∷ delivered "change" u r ∷ [])
            i
          ≡ some j)
        × ((returned false j).2 ≡ none)
        × (lookup (a.key bad) (returned false j).0 ≡ some bad)
  unfolding handle_all handle_watch_event on_event event_type on_change returned
  change_then_change v u bad good e r i d d' x y k = rw d (
      rw d' (
        _,
        refl,
        accept_err (a.revision good) _ _,
        stored_twice a bad good none (record i { err = some e; response = some r }) (some r) x y k,
      ))
