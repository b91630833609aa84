-- ===== src/SignalBus.antt =====
-- internal/signalbus/signalbus.go: the subscriptions of a signal are a slice, and Notify walks over
-- the slice that it has read while others close and subscribe, so the arrays are part of the state.
pub mod Closing
pub mod Notifying
pub mod Lost
mod Tests
use nexodus.Prelude.{
  ℕ, zero, suc, ◌+◌, ◌-◌, String, Bool, true, false, Option, none, some, List, [], ◌∷◌, ltb, eqb,
  if◌then◌else◌, ◌==◌, string_eq,
}
use nexodus.Prelude.Maps.{Map, lookup, insert, delete}

-- The elements of the arrays are subscriptions, which have numbers.
abbrev pub Array : Type 0
Array = ℕ → ℕ

pub record Slice : Type 0 where
  pub array : ℕ
  pub len : ℕ

-- `signalBus` with the arrays: each array's elements and capacity, and the number of the next one;
-- `pending` is whether the channel of a subscription holds a signal, `closed` whether its
-- `closeOnce` is done.
pub record Bus : Type 0 where
  pub signals : Map String Slice
  pub cells : ℕ → Array
  pub capacity : ℕ → ℕ
  pub next : ℕ
  pub pending : ℕ → Bool
  pub closed : ℕ → Bool

abbrev pub update {ℓ} : {A : Type ℓ} → (ℕ → A) → ℕ → A → ℕ → A
update f i v j = if eqb j i then v else f j

-- append(subs, sub); `spare` is how much room a new array has beyond its elements.
unfoldable pub append : (ℕ → ℕ) → Option Slice → ℕ → Bus → Slice × Bus
append spare none sub b = (
  record { array = b.next; len = 1 },
  record b {
    cells = update b.cells b.next (update (λ i. 0) 0 sub);
    capacity = update b.capacity b.next (1 + spare 1);
    next = b.next + 1;
  },
)
append spare (some s) sub b =
    if ltb s.len (b.capacity s.array)
    then (
      record s { len = s.len + 1 },
      record b { cells = update b.cells s.array (update (b.cells s.array) s.len sub) },
    )
    else (
      record { array = b.next; len = s.len + 1 },
      record b {
        cells = update b.cells b.next (update (b.cells s.array) s.len sub);
        capacity = update b.capacity b.next (s.len + 1 + spare (s.len + 1));
        next = b.next + 1;
      },
    )

-- `sub` is the number of the new subscription, whose channel is empty.
unfoldable pub subscribe : (ℕ → ℕ) → String → ℕ → Bus → Bus
subscribe spare name sub b =
    let (s, b') = append spare (lookup name b.signals) sub b in
    record b' { signals = insert name s b'.signals; pending = update b'.pending sub false }

-- The loop of close: the array, the length of `subs`, and the length that the map has for the name
-- (`none` if it was deleted).
pub record Removal : Type 0 where
  pub array : Array
  pub len : ℕ
  pub entry : Option ℕ

abbrev pub close_at : ℕ → ℕ → Removal → Removal
close_at sub i c =
    if eqb (c.array i) sub
    then (if eqb (c.len - 1) 0 then record c { entry = none } else record {
      array = update c.array i (c.array (c.len - 1));
      len = c.len - 1;
      entry = some (c.len - 1);
    })
    else c

-- The rounds left, and the index.
unfoldable pub close_loop : ℕ → ℕ → ℕ → Removal → Removal
close_loop zero sub i c = c
close_loop (suc r) sub i c = close_loop r sub (suc i) (close_at sub i c)

abbrev pub put_entry : String → ℕ → Option ℕ → Map String Slice → Map String Slice
put_entry name a none m = delete name m
put_entry name a (some n) m = insert name (record { array = a; len = n }) m

abbrev pub close_in : String → ℕ → Option Slice → Bus → Bus
close_in name sub none b = b
close_in name sub (some s) b =
    let c =
      close_loop s.len sub 0
        (record { array = b.cells s.array; len = s.len; entry = some s.len }) in
    record b {
      signals = put_entry name s.array c.entry b.signals;
      cells = update b.cells s.array c.array;
    }

-- `Subscription.Close`, the first time.
unfoldable pub close : String → ℕ → Bus → Bus
close name sub b =
    if b.closed sub
    then b
    else (let b' = close_in name sub (lookup name b.signals) b in
        record b' { closed = update b'.closed sub true })

-- A send that does not block, and a receive that does not.
abbrev pub send : ℕ → Bus → Bus
send sub b = record b { pending = update b.pending sub true }

unfoldable pub is_signaled : ℕ → Bus → Bool × Bus
is_signaled sub b =
    if b.pending sub then (true, record b { pending = update b.pending sub false }) else (false, b)

-- What another goroutine does.
pub data Op : Type 0 where
  subscribing : String → ℕ → Op
  closing : String → ℕ → Op

abbrev pub run_op : (ℕ → ℕ) → Op → Bus → Bus
run_op spare (subscribing name sub) b = subscribe spare name sub b
run_op spare (closing name sub) b = close name sub b

abbrev pub run_ops : (ℕ → ℕ) → List Op → Bus → Bus
run_ops spare [] b = b
run_ops spare (o ∷ os) b = run_ops spare os (run_op spare o b)

-- The loop of Notify over the slice that it read: the rounds left and the index, and what others do
-- before each send.
unfoldable pub notify_loop : (ℕ → ℕ) → ℕ → ℕ → ℕ → (ℕ → List Op) → Bus → Bus
notify_loop spare array zero i others b = b
notify_loop spare array (suc r) i others b =
    let b' = run_ops spare (others i) b in
    notify_loop spare array r (suc i) others (send (b'.cells array i) b')

abbrev pub notify_slice : (ℕ → ℕ) → Option Slice → (ℕ → List Op) → Bus → Bus
notify_slice spare none others b = b
notify_slice spare (some s) others b = notify_loop spare s.array s.len 0 others b

unfoldable pub notify : (ℕ → ℕ) → String → (ℕ → List Op) → Bus → Bus
notify spare name others b = notify_slice spare (lookup name b.signals) others b
