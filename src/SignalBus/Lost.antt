-- ===== src/SignalBus/Lost.antt =====
-- internal/signalbus/signalbus.go: a subscription that takes the place of one that is closed, while
-- Notify walks over the slice.
use mathlib.Core.Path.{subst}
use native.Mathlib.Decide.{ℕ_discrete}
use nexodus.Prelude.{
  ℕ, zero, suc, ◌+◌, ◌-◌, ◌<◌, ◌≤◌, ◌≡◌, ◌≢◌, refl, sym, ap, ◌∙◌, String, true, false, some, List,
  [], ◌∷◌, ltb, eqb, if◌then◌else◌, string_eq, arith,
}
use nexodus.Prelude.Maps.{lookup, insert, lookup-insert, eq_self}
use nexodus.SignalBus.{
  Array, Slice, Bus, Op, subscribing, closing, update, append, subscribe, close_loop, close, send,
  run_ops, notify_loop, notify,
}
use nexodus.SignalBus.Closing.{IsDistinct, close_loop-at, close_at-more}
use nexodus.SignalBus.Notifying.{update_self, update_other}

module _ (spare : ℕ → ℕ) where
  -- Nobody comes between: only the elements of the slice are signaled.
  notify_loop-untouched :
      (r a i x : ℕ) (others : ℕ → List Op) (b : Bus)
      → ((k : ℕ) → i ≤ k → others k ≡ [])
      → ((p : ℕ) → i ≤ p → p < i + r → b.cells a p ≢ x)
      → (notify_loop spare a r i others b).pending x ≡ b.pending x
  unfolding notify_loop
  notify_loop-untouched zero a i x others b h d = refl
  notify_loop-untouched (suc r) a i x others b h d =
      subst
        (λ os.
          (notify_loop spare a r (suc i) others
              (send ((run_ops spare os b).cells a i) (run_ops spare os b))).pending
            x
          ≡ b.pending x)
        (sym (h i (omega arith)))
        (notify_loop-untouched r a (suc i) x others (send (b.cells a i) b)
            (λ k lo. h k (omega arith)) (λ p lo hi. d p (omega arith) (omega arith))
          ∙ update_other b.pending (b.cells a i) x true
              (λ e. d i (omega arith) (omega arith) (sym e)))

  module _ (name : String) (s : Slice) (b : Bus) (found : lookup name b.signals ≡ some s)
      (long : 1 < s.len) (distinct : IsDistinct (b.cells s.array) s.len)
      (not_closed : b.closed (b.cells s.array 0) ≡ false) (room : s.len ≤ b.capacity s.array) where
    abbrev first : ℕ
    first = b.cells s.array 0

    abbrev moved : Array
    moved = update (b.cells s.array) 0 (b.cells s.array (s.len - 1))

    -- The bus after the first subscription was closed.
    abbrev closed_bus : Bus
    closed_bus = record b {
      signals = insert name (record { array = s.array; len = s.len - 1 }) b.signals;
      cells = update b.cells s.array moved;
      closed = update b.closed first true;
    }

    close-first : close name first b ≡ closed_bus
    unfolding close
    close-first =
        let removed : close_loop s.len first 0
              (record { array = b.cells s.array; len = s.len; entry = some s.len })
            ≡ record { array = moved; len = s.len - 1; entry = some (s.len - 1) } =
          close_loop-at (b.cells s.array) s.len 0 first (omega arith) refl distinct
          ∙ close_at-more (b.cells s.array) s.len 0 first (omega arith) refl distinct
              (omega arith) in
        simp (not_closed, found, removed) refl

    -- The bus after the new one took the last place.
    abbrev taken_bus : ℕ → Bus
    taken_bus sub = record closed_bus {
      signals = insert name (record { array = s.array; len = s.len - 1 + 1 }) closed_bus.signals;
      cells = update closed_bus.cells s.array (update (closed_bus.cells s.array) (s.len - 1) sub);
      pending = update b.pending sub false;
    }

    subscribe-taken : (sub : ℕ) → subscribe spare name sub closed_bus ≡ taken_bus sub
    unfolding subscribe append
    subscribe-taken sub =
        let there : lookup name closed_bus.signals
            ≡ some (record { array = s.array; len = s.len - 1 }) =
          lookup-insert name name (record { array = s.array; len = s.len - 1 }) b.signals
          ∙ rw (eq_self name) refl in
        let fits : ltb (s.len - 1) (b.capacity s.array) ≡ true = ground arith in
        simp (there, fits) refl

    taken-ne :
        (sub p x : ℕ)
        → b.cells s.array (s.len - 1) ≡ x
        → sub ≢ x
        → 0 < p
        → p < s.len
        → (taken_bus sub).cells s.array p ≢ x
    taken-ne sub p x last ne pos inside e =
        let row =
          update_self closed_bus.cells s.array
            (update (closed_bus.cells s.array) (s.len - 1) sub) in
        let here : update (closed_bus.cells s.array) (s.len - 1) sub p ≡ x =
          sym (ap (λ g. g p) row) ∙ e in
        elim (ℕ_discrete p (s.len - 1)) [
          | yes q ↦ ne (
              sym (update_self (closed_bus.cells s.array) (s.len - 1) sub)
              ∙ ap (update (closed_bus.cells s.array) (s.len - 1) sub) (sym q)
              ∙ here)
          | no q ↦
              (let below : b.cells s.array p ≡ x =
                  sym
                    (update_other (b.cells s.array) 0 p (b.cells s.array (s.len - 1)) (omega arith))
                  ∙ sym (ap (λ g. g p) (update_self b.cells s.array moved))
                  ∙ sym (update_other (closed_bus.cells s.array) (s.len - 1) p sub q)
                  ∙ here in
                q (distinct p (s.len - 1) inside (omega arith) (below ∙ sym last)))
        ]

    taken-pending : (sub x : ℕ) → sub ≢ x → (taken_bus sub).pending x ≡ b.pending x
    taken-pending sub x ne = update_other b.pending sub x false (λ e. ne (sym e))

  -- At its second round Notify meets a close of a subscription and a new subscription.
  abbrev pub meanwhile : String → ℕ → ℕ → ℕ → List Op
  meanwhile name gone sub k = if eqb k 1 then closing name gone ∷ subscribing name sub ∷ [] else []

  meanwhile-later : (name : String) (gone sub k : ℕ) → 2 ≤ k → meanwhile name gone sub k ≡ []
  meanwhile-later name gone sub k lo = let no_op : eqb k 1 ≡ false = ground arith in rw no_op refl

  module _ (name : String) (s : Slice) (b : Bus) (m sub : ℕ)
      (found : lookup name b.signals ≡ some s) (size : s.len ≡ suc (suc m))
      (distinct : IsDistinct (b.cells s.array) s.len)
      (not_closed : b.closed (b.cells s.array 0) ≡ false) (room : s.len ≤ b.capacity s.array) where
    abbrev others : ℕ → List Op
    others = meanwhile name (b.cells s.array 0) sub

    abbrev after : Bus
    after = taken_bus name s b found (omega arith) distinct not_closed room sub

    ops-after : run_ops spare (others 1) b ≡ after
    ops-after =
        ap (subscribe spare name sub)
          (close-first name s b found (omega arith) distinct not_closed room)
        ∙ subscribe-taken name s b found (omega arith) distinct not_closed room sub

    rest-lost :
        (x : ℕ)
        → b.cells s.array (s.len - 1) ≡ x
        → sub ≢ x
        → (notify_loop spare s.array (suc m) 1 others b).pending x ≡ b.pending x
    unfolding notify_loop
    rest-lost x last ne =
        let absent = λ (p : ℕ) (lo : 0 < p) (hi : p < s.len).
          taken-ne name s b found (omega arith) distinct not_closed room sub p x last ne lo hi in
        subst
          (λ z.
            (notify_loop spare s.array m 2 others (send (z.cells s.array 1) z)).pending x
            ≡ b.pending x)
          (sym ops-after)
          (notify_loop-untouched m s.array 2 x others (send (after.cells s.array 1) after)
              (λ k lo. meanwhile-later name (b.cells s.array 0) sub k lo)
              (λ p lo hi. absent p (omega arith) (omega arith))
            ∙ update_other after.pending (after.cells s.array 1) x true
                (λ e. absent 1 (omega arith) (omega arith) (sym e))
            ∙ taken-pending name s b found (omega arith) distinct not_closed room sub x ne)

  -- If a slice without duplicates has two elements or more and its array room for them, its first
  -- subscription is not closed yet, and, after Notify has sent to it, it is closed and another
  -- subscribes, then that Notify leaves the channel of the last subscription as it was.
  pub notify-lost :
      (name : String) (s : Slice) (b : Bus) (sub : ℕ)
      → lookup name b.signals ≡ some s
      → 1 < s.len
      → IsDistinct (b.cells s.array) s.len
      → b.closed (b.cells s.array 0) ≡ false
      → s.len ≤ b.capacity s.array
      → sub ≢ b.cells s.array (s.len - 1)
      → (notify spare name (meanwhile name (b.cells s.array 0) sub) b).pending
          (b.cells s.array (s.len - 1))
        ≡ b.pending (b.cells s.array (s.len - 1))
  unfolding notify notify_loop
  notify-lost name s b sub found long distinct not_closed room ne =
      let x = b.cells s.array (s.len - 1) in
      let b1 = send (b.cells s.array 0) b in
      let size : s.len ≡ suc (suc (s.len - 2)) = omega arith in
      rw found (
        subst
          (λ n.
            (notify_loop spare s.array n 0 (meanwhile name (b.cells s.array 0) sub) b).pending x
            ≡ b.pending x)
          (sym size)
          (rest-lost name s b1 (s.len - 2) sub found size distinct not_closed room x refl ne
            ∙ update_other b.pending (b.cells s.array 0) x true (λ e.
              absurd (omega (arith, distinct (s.len - 1) 0 (omega arith) (omega arith) e)))))
