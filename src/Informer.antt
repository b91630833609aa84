-- ===== src/Informer.antt =====
-- internal/client/custom_informer.go: the informer, which keeps the items that a stream of watch
-- events tells of. Its mutex makes the handler of an event one step; `none` is the panic of Go on the
-- close of a closed channel.
pub mod Steps
pub mod Follow
pub mod Failure
pub mod Undecoded
mod Tests
use nexodus.Prelude.{
  ◌≡◌, refl, String, Bool, true, false, not, ◌||◌, Option, none, some, List, [], ◌∷◌, if◌then◌else◌,
  ◌==◌, string_eq,
}
use nexodus.Prelude.Maps.{Map, insert, delete}
use nexodus.Prelude.Text.{concat}
use nexodus.Prelude.Integers.{ℤ, pos, ltz}

-- `InformerAdaptor`, which decodes items, an error beside the item, and reads them; with it how
-- `JsonUnmarshal` decodes a `ModelsBaseError`, and what `GetError` then returns.
pub record Adaptor (J T : Type 0) : Type 0 where
  pub item : J → T × Option String
  pub revision : T → ℤ
  pub key : T → String
  pub base_error : J → Option String × String

-- `ListInformer`: with the fields `GtRevision` and `AtTail` of its watch; `closed` is whether its
-- `bookmarkChan` is closed, and `changed` whether a signal is in the channel of that name.
pub record ListInformer (T R : Type 0) : Type 0 where
  pub gt_revision : Option ℤ
  pub at_tail : Bool
  pub closed : Bool
  pub changed : Bool
  pub data_map : Map String T
  pub err : Option String
  pub response : Option R

-- A call of the handler: the event's type ("" if it has none) and value, the response, the error.
pub record WatchEvent (J R : Type 0) : Type 0 where
  pub kind : String
  pub value : J
  pub reply : R
  pub failure : Option String

pub data EventType : Type 0 where
  change : EventType
  delete_event : EventType
  tail : EventType
  close : EventType
  error : EventType
  unknown : EventType

-- The cases of the switch.
unfoldable pub event_type : String → EventType
event_type s =
    if s == "change"
    then change
    else if s == "delete"
    then delete_event
    else if s == "tail"
    then tail
    else if s == "close"
    then close
    else if s == "error"
    then error
    else unknown

abbrev pub or_zero : Option ℤ → ℤ
or_zero none = pos 0
or_zero (some n) = n

module _ {T R : Type 0} where
  -- `NewInformer`.
  unfoldable pub new_informer : Option ℤ → ListInformer T R
  new_informer gt_revision = record {
    gt_revision = gt_revision;
    at_tail = false;
    closed = false;
    changed = false;
    data_map = [];
    err = none;
    response = none;
  }

  -- A signal that is pending is enough.
  unfoldable pub notify : ListInformer T R → ListInformer T R
  notify i = record i { changed = true }

  -- close(informer.bookmarkChan)
  unfoldable pub close_bookmark : ListInformer T R → Option (ListInformer T R)
  close_bookmark i = if i.closed then none else some (record i { closed = true })

  abbrev pub then_notify : Option (ListInformer T R) → Option (ListInformer T R)
  then_notify none = none
  then_notify (some i) = some (notify i)

  unfoldable pub set_error : String → ListInformer T R → Option (ListInformer T R)
  set_error e i =
      let i' = record i { err = some e } in
      if i.at_tail then some (notify i') else then_notify (close_bookmark i')

  -- What "change" and "delete" do with a decoded item.
  unfoldable pub accept : ℤ → (Map String T → Map String T) → ListInformer T R → ListInformer T R
  accept revision edit i =
      if ltz revision (or_zero i.gt_revision)
      then i
      else (let i' = record i { gt_revision = some revision; data_map = edit i.data_map } in
          if i.at_tail then notify i' else i')

module _ {J T R : Type 0} (a : Adaptor J T) where
  -- "change": the error of the item goes to the informer, and the test reads the argument's.
  unfoldable pub on_change : T × Option String → ListInformer T R → Option (ListInformer T R)
  on_change (item, e) i =
      some (accept (a.revision item) (insert (a.key item) item) (record i { err = e }))

  unfoldable pub on_delete : T × Option String → ListInformer T R → Option (ListInformer T R)
  on_delete (item, some e) i = set_error e i
  on_delete (item, none) i = some (accept (a.revision item) (delete (a.key item)) i)

  unfoldable pub on_error : Option String × String → ListInformer T R → Option (ListInformer T R)
  on_error (some e, text) i = set_error e i
  on_error (none, text) i = set_error text i

  -- The switch; the error that came with the event is nil here.
  unfoldable pub on_event : EventType → String → J → ListInformer T R → Option (ListInformer T R)
  on_event change kind value i = on_change (a.item value) i
  on_event delete_event kind value i = on_delete (a.item value) i
  on_event tail kind value i =
      if i.at_tail then some i else close_bookmark (record (notify i) { at_tail = true })
  on_event close kind value i =
      if i.at_tail then some i else close_bookmark (record i { at_tail = true })
  on_event error kind value i = on_error (a.base_error value) i
  on_event unknown kind value i =
      some (notify (record i { err = some (concat ("unknown event type: " ∷ kind ∷ [])) }))

  abbrev pub on_call : Option String → String → J → ListInformer T R → Option (ListInformer T R)
  on_call (some e) kind value i = set_error e i
  on_call none kind value i = on_event (event_type kind) kind value i

  unfoldable pub handle_watch_event : WatchEvent J R → ListInformer T R → Option (ListInformer T R)
  handle_watch_event w i = on_call w.failure w.kind w.value (record i { response = some w.reply })

  abbrev pub run_on :
      (ListInformer T R → Option (ListInformer T R))
      → Option (ListInformer T R)
      → Option (ListInformer T R)
  run_on f none = none
  run_on f (some i) = f i

  -- The calls of the handler, one after another.
  unfoldable pub handle_all : List (WatchEvent J R) → ListInformer T R → Option (ListInformer T R)
  handle_all [] i = some i
  handle_all (w ∷ ws) i = run_on (handle_all ws) (handle_watch_event w i)

module _ {T R : Type 0} where
  -- `Execute` up to the start of the loader, and what it returns after the wait.
  abbrev reset_on : Option String → ListInformer T R → ListInformer T R
  reset_on none i = i
  reset_on (some e) i = record i { err = none; closed = false }

  unfoldable pub prepare : ListInformer T R → ListInformer T R
  prepare i = reset_on i.err i

  -- Whether it goes on without a wait for the bookmark.
  unfoldable pub is_released : ListInformer T R → Bool
  is_released i = i.at_tail || i.closed

  unfoldable pub returned : Bool → ListInformer T R → Map String T × Option R × Option String
  returned canceled i =
      (i.data_map, i.response, if canceled then some "context canceled" else i.err)
