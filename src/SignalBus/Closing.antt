-- ===== src/SignalBus/Closing.antt =====
-- internal/signalbus/signalbus.go: close takes one subscription out of the slice.
use mathlib.Core.Path.{subst}
use native.Mathlib.Decide.{ℕ_discrete}
use nexodus.Prelude.{
  ℕ, zero, suc, ◌+◌, ◌-◌, ◌<◌, ◌≤◌, ◌≡◌, ◌≢◌, refl, sym, ap, ◌∙◌, ◌↔◌, ◌⊎◌, inl, inr, true, false,
  none, some, eqb, eqb_iff, Bool-cases, arith,
}
use nexodus.SignalBus.{Array, Removal, update, close_at, close_loop}

-- A subscription of the slice.
abbrev pub Holds : Array → ℕ → ℕ → Type 0
Holds f n sub = (p : ℕ) × (p < n) × (f p ≡ sub)

abbrev pub IsDistinct : Array → ℕ → Type 0
IsDistinct f n = (p q : ℕ) → p < n → q < n → f p ≡ f q → p ≡ q

close_loop-skip :
    (r i sub : ℕ) (c : Removal)
    → ((p : ℕ) → i ≤ p → p < i + r → c.array p ≢ sub)
    → close_loop r sub i c ≡ c
unfolding close_loop
close_loop-skip zero i sub c h = refl
close_loop-skip (suc r) i sub c h =
    let no : eqb (c.array i) sub ≡ false = ground (arith, h i) in
    simp no (close_loop-skip r (suc i) sub c (λ p lo hi. h p (omega arith) (omega arith)))

close_at-array : (sub i p : ℕ) (c : Removal) → p ≢ i → (close_at sub i c).array p ≡ c.array p
close_at-array sub i p c h =
    let other : eqb p i ≡ false = ground arith in
    elim (Bool-cases (eqb (c.array i) sub)) [
      | inr no_match ↦ simp no_match refl
      | inl hit ↦ elim (Bool-cases (eqb (c.len - 1) 0)) [
        | inl last ↦ simp (hit, last) refl
        | inr more ↦ simp (hit, more, other) refl
      ]
    ]

-- The loop stops at the subscription, and finds no other.
close_loop-found :
    (r i j sub : ℕ) (c : Removal)
    → i ≤ j
    → j < i + r
    → c.array j ≡ sub
    → ((p : ℕ) → p < i + r → c.array p ≡ sub → p ≡ j)
    → close_loop r sub i c ≡ close_at sub j c
unfolding close_loop
close_loop-found zero i j sub c lo hi e only = absurd (omega arith)
close_loop-found (suc r) i j sub c lo hi e only = elim (ℕ_discrete i j) [
  | yes same ↦
      subst (λ z. close_loop r sub (suc i) (close_at sub i c) ≡ close_at sub z c) same
        (close_loop-skip r (suc i) sub (close_at sub i c) (λ p b b' q.
          absurd (
            omega
              (arith, only p (omega arith) (sym (close_at-array sub i p c (omega arith)) ∙ q)))))
  | no other ↦
      (let no' : eqb (c.array i) sub ≡ false = ground (arith, only i) in
        simp no' (
          close_loop-found r (suc i) j sub c (omega arith) (omega arith) e
            (λ p b. only p (omega arith))))
]

module _ (f : Array) (n j sub : ℕ) (inside : j < n) (here : f j ≡ sub)
    (distinct : IsDistinct f n) where
  abbrev pub start : Removal
  start = record { array = f; len = n; entry = some n }

  pub close_loop-at : close_loop n sub 0 start ≡ close_at sub j start
  close_loop-at =
      close_loop-found n 0 j sub start (omega arith) (omega arith) here
        (λ p b q. distinct p j (omega arith) inside (q ∙ sym here))

  -- The array with the last element in the place of the subscription.
  abbrev pub moved : Array
  moved = update f j (f (n - 1))

  close_at-last : n ≡ 1 → close_at sub j start ≡ record start { entry = none }
  close_at-last e =
      let hit : eqb (f j) sub ≡ true = (eqb_iff (f j) sub).1 here in
      let last : eqb (n - 1) 0 ≡ true = ground arith in rw hit (rw last refl)

  pub close_at-more :
      n ≢ 1 → close_at sub j start ≡ record { array = moved; len = n - 1; entry = some (n - 1) }
  close_at-more e =
      let hit : eqb (f j) sub ≡ true = (eqb_iff (f j) sub).1 here in
      let more : eqb (n - 1) 0 ≡ false = ground arith in rw hit (rw more refl)

  pub moved-at : (p : ℕ) → p ≢ j → moved p ≡ f p
  moved-at p h = let other : eqb p j ≡ false = ground arith in rw other refl

  pub moved-here : moved j ≡ f (n - 1)
  moved-here = let same : eqb j j ≡ true = ground arith in rw same refl

  moved-Holds : (x : ℕ) → Holds moved (n - 1) x ↔ (Holds f n x × (x ≢ sub))
  moved-Holds x = (to, from)
    where
      to : Holds moved (n - 1) x → Holds f n x × (x ≢ sub)
      to (p, b, e) = elim (ℕ_discrete p j) [
        | yes same ↦
            (let at : f (n - 1) ≡ x = sym moved-here ∙ ap moved (sym same) ∙ e in
              (
                (n - 1, omega arith, at),
                λ q.
                    absurd
                      (omega (arith, distinct (n - 1) j (omega arith) inside (at ∙ q ∙ sym here))),
              ))
        | no other ↦
            (let at : f p ≡ x = sym (moved-at p other) ∙ e in
              (
                (p, omega arith, at),
                λ q. absurd (other (distinct p j (omega arith) inside (at ∙ q ∙ sym here))),
              ))
      ]

      from : Holds f n x × (x ≢ sub) → Holds moved (n - 1) x
      from ((p, b, e), h) =
          let ne : p ≢ j = λ q. h (sym e ∙ ap f q ∙ here) in
          elim (ℕ_discrete p (n - 1)) [
            | yes last ↦ (j, omega arith, moved-here ∙ ap f (sym last) ∙ e)
            | no other ↦ (p, omega arith, moved-at p ne ∙ e)
          ]

  moved-IsDistinct : IsDistinct moved (n - 1)
  moved-IsDistinct p q b b' e = elim (ℕ_discrete p j) [
    | yes here_p ↦ elim (ℕ_discrete q j) [
      | yes here_q ↦ here_p ∙ sym here_q
      | no other ↦ absurd (
          omega (
            arith,
            distinct (n - 1) q (omega arith) (omega arith)
                (sym moved-here ∙ ap moved (sym here_p) ∙ e ∙ moved-at q other),
          ))
    ]
    | no other_p ↦ elim (ℕ_discrete q j) [
      | yes here_q ↦ absurd (
          omega (
            arith,
            distinct p (n - 1) (omega arith) (omega arith)
                (sym (moved-at p other_p) ∙ e ∙ ap moved here_q ∙ moved-here),
          ))
      | no other_q ↦
          distinct p q (omega arith) (omega arith)
            (sym (moved-at p other_p) ∙ e ∙ moved-at q other_q)
    ]
  ]

  -- The slice after close: none, if the subscription was alone, or one that is shorter and distinct.
  abbrev pub IsClosed : Removal → Type 0
  IsClosed c =
      ((n ≡ 1) × (c.entry ≡ none))
      ⊎ ((c.entry ≡ some (n - 1))
          × (n ≢ 1)
          × IsDistinct c.array (n - 1)
          × ((x : ℕ) → Holds c.array (n - 1) x ↔ (Holds f n x × (x ≢ sub))))

  -- For a slice without duplicates that holds the subscription, the loop of close drops the entry
  -- if the slice has one element; otherwise it leaves a slice that is shorter by one, without
  -- duplicates, which holds exactly the other subscriptions.
  pub close_loop-IsClosed : IsClosed (close_loop n sub 0 start)
  close_loop-IsClosed = elim (ℕ_discrete n 1) [
    | yes one ↦ subst IsClosed (sym (close_loop-at ∙ close_at-last one)) (inl (one, refl))
    | no more ↦
        subst IsClosed (sym (close_loop-at ∙ close_at-more more))
          (inr (refl, more, moved-IsDistinct, moved-Holds))
  ]
