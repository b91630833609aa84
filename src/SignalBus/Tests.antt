-- ===== src/SignalBus/Tests.antt =====
-- internal/signalbus/signalbus.go: a bus with three subscriptions, and the theorems at it.
use nexodus.Prelude.{ℕ, ◌+◌, ◌≡◌, refl, true, false, some, [], ◌∷◌, string_eq, arith}
use nexodus.Prelude.Maps.{lookup, insert}
use nexodus.SignalBus.{
  Bus, closing, append, subscribe, close_loop, is_signaled, notify_loop, notify,
}
use nexodus.SignalBus.Closing.{IsDistinct, IsClosed, close_loop-IsClosed}
use nexodus.SignalBus.Notifying.{IsTold, notify-IsTold}
use nexodus.SignalBus.Lost.{meanwhile, notify-lost}

-- Subscription n is number n + 1.
abbrev three : Bus
three = record {
  signals = ("devices", record { array = 1; len = 3 }) ∷ [];
  cells = λ a i. i + 1;
  capacity = λ a. 4;
  next = 2;
  pending = λ x. false;
  closed = λ x. false;
}

abbrev twice : ℕ → ℕ
twice n = n

three-IsDistinct : IsDistinct (three.cells 1) 3
three-IsDistinct p q b b' e = omega arith

close_loop-IsClosed_example :
    IsClosed
      (λ i. i + 1)
      3
      1
      2
      (omega arith)
      refl
      three-IsDistinct
      (close_loop 3 2 0 (record { array = λ i. i + 1; len = 3; entry = some 3 }))
close_loop-IsClosed_example =
    close_loop-IsClosed (λ i. i + 1) 3 1 2 (omega arith) refl three-IsDistinct

-- The first is closed while the second round waits; the third is signaled all the same.
notify-IsTold_example :
    IsTold twice 3 (notify twice "devices" (λ k. closing "devices" 1 ∷ []) three)
unfolding lookup
notify-IsTold_example =
    notify-IsTold twice "devices" (record { array = 1; len = 3 }) 2 (λ k. closing "devices" 1 ∷ [])
      three (λ k. (tt, tt)) refl (omega arith)

notify-lost_example :
    (notify twice "devices" (meanwhile twice "devices" 1 9) three).pending 3 ≡ false
unfolding lookup
notify-lost_example =
    notify-lost twice "devices" (record { array = 1; len = 3 }) three 9 refl (omega arith)
      three-IsDistinct refl (omega arith) (λ e. absurd (omega arith))

-- Without others all are signaled, and a signal is taken once.
all_signaled : (is_signaled 3 (notify twice "devices" (λ k. []) three)).0 ≡ true
unfolding lookup notify notify_loop is_signaled
all_signaled = refl

subscribed :
    lookup "devices" (subscribe twice "devices" 9 three).signals
    ≡ some (record { array = 1; len = 4 })
unfolding lookup subscribe append insert
subscribed = refl
