-- ===== src/Caches/Tests.antt =====
-- internal/util/cache: runs on a small cache, and the theorems at them.
use nexodus.Prelude.{
  ℕ, ◌≡◌, refl, String, Bool, true, false, Option, some, none, List, [], ◌∷◌, string_eq, arith,
}
use nexodus.Prelude.Maps.{Map, lookup}
use nexodus.Caches.{Entry, MemoizeResult, ttl_get, put_with_ttl, ttl_delete}
use nexodus.Caches.Memoized.{Request, memoize, AllRecent, memoize-AllRecent}

abbrev first : Request String ℕ
first = record {
  key = "a";
  now = 10;
  called = 11;
  later = 11;
  ttl = 5;
  error_ttl = 1;
  f = record { result = 7; err = none };
}

-- Within the time of the first request, and after it.
abbrev second : Request String ℕ
second = record first { now = 16; called = 16; f = record { result = 8; err = none } }

abbrev third : Request String ℕ
third = record first { now = 17; called = 17; f = record { result = 9; err = none } }

second_is_first : (memoize second (memoize first []).1).0 ≡ record { result = 7; err = none }
unfolding lookup nexodus.Caches.memoize_can_err_with_ttl ttl_get nexodus.Caches.rw_get put_with_ttl
    nexodus.Caches.rw_put nexodus.Prelude.Maps.insert
second_is_first = refl

third_is_new : (memoize third (memoize first []).1).0 ≡ record { result = 9; err = none }
unfolding lookup nexodus.Caches.memoize_can_err_with_ttl ttl_get nexodus.Caches.rw_get put_with_ttl
    nexodus.Caches.rw_put nexodus.Prelude.Maps.insert
third_is_new = refl

memoize-AllRecent_example : AllRecent [] (first ∷ second ∷ third ∷ []) []
unfolding lookup
memoize-AllRecent_example =
    memoize-AllRecent (first ∷ second ∷ third ∷ []) [] [] (λ k e h. absurd (ground arith))
