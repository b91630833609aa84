-- ===== src/Informer/Tests.antt =====
-- internal/client/custom_informer.go: streams of events of a small adaptor, and the theorems at them.
use nexodus.Prelude.{
  ℕ, ◌≡◌, refl, String, Bool, true, false, Option, some, none, List, [], ◌∷◌, ◌++◌, string_eq,
}
use nexodus.Prelude.Maps.{lookup}
use nexodus.Prelude.Integers.{pos}
use nexodus.Informer.{
  Adaptor, ListInformer, WatchEvent, new_informer, handle_all, handle_watch_event, returned,
  is_released, event_type,
}
use nexodus.Informer.Failure.{failure-is_released}
use nexodus.Informer.Follow.{view, handle_all-follow}
use nexodus.Informer.Undecoded.{delivered}

-- An item is a key and a revision; the text "?" does not decode.
abbrev decode_key : String × ℕ → (String × ℕ) × Option String
decode_key (s, n) =
    nexodus.Prelude.if◌then◌else◌ (nexodus.Prelude.◌==◌ s "?") (("", 0), some "bad") ((s, n), none)

abbrev pairs : Adaptor (String × ℕ) (String × ℕ)
pairs = record {
  item = decode_key;
  revision = λ t. pos t.1;
  key = λ t. t.0;
  base_error = λ v. (none, v.0);
}

abbrev start : ListInformer (String × ℕ) ℕ
start = record {
  gt_revision = none;
  at_tail = false;
  closed = false;
  changed = false;
  data_map = [];
  err = none;
  response = none;
}

abbrev event : String → String → ℕ → WatchEvent (String × ℕ) ℕ
event kind key n = delivered kind (key, n) 200

start_is_new : new_informer none ≡ start
unfolding new_informer
start_is_new = refl

abbrev stream : List (WatchEvent (String × ℕ) ℕ)
stream =
    event "change" "a" 1
    ∷ event "change" "b" 2
    ∷ event "tail" "" 0
    ∷ event "delete" "a" 3
    ∷ event "change" "b" 1
    ∷ []

handle_all-follow_example :
    (j : ListInformer (String × ℕ) ℕ) × (handle_all pairs stream start ≡ some j)
    × (view "b" j ≡ (pos 3, some ("b", 2)))
unfolding event_type lookup
handle_all-follow_example =
    handle_all-follow pairs "b" stream start refl
      ((refl, tt), ((refl, tt), ((refl, tt), ((refl, refl), ((refl, tt), tt)))))

failure-is_released_example :
    (j : ListInformer (String × ℕ) ℕ) × (handle_watch_event pairs
        (record (event "" "" 0) { failure = some "EOF" })
        start
      ≡ some j)
    × (is_released j ≡ true)
    × (j.changed ≡ true)
    × (returned false j ≡ ([], some 200, some "EOF"))
failure-is_released_example =
    failure-is_released pairs (record (event "" "" 0) { failure = some "EOF" }) "EOF" start refl
      refl
