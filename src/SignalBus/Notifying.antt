-- ===== src/SignalBus/Notifying.antt =====
-- internal/signalbus/signalbus.go: whom Notify signals while others close and subscribe.
use mathlib.Core.Path.{subst}
use native.Mathlib.Decide.{ℕ_discrete}
use nexodus.Prelude.{
  ℕ, zero, suc, ◌+◌, ◌<◌, ◌≤◌, ◌≡◌, ◌≢◌, refl, sym, ap, ◌∙◌, ◌⊎◌, inl, inr, String, true, false,
  Option, none, some, List, [], ◌∷◌, Every, eqb, eqb_iff, string_eq, Bool-cases, arith,
}
use nexodus.Prelude.Maps.{lookup}
use nexodus.SignalBus.{
  Slice, Bus, Removal, Op, subscribing, closing, update, close_at, close_loop, close_in, close,
  send, run_ops, notify_loop, notify,
}

close_at-kept :
    (sub i p : ℕ) (c : Removal) → ((close_at sub i c).array p ≡ c.array p) ⊎ (c.array p ≡ sub)
close_at-kept sub i p c = elim (Bool-cases (eqb (c.array i) sub)) [
  | inr no_match ↦ inl (simp no_match refl)
  | inl hit ↦ elim (ℕ_discrete p i) [
    | yes same ↦ inr (ap c.array same ∙ (eqb_iff (c.array i) sub).0 hit)
    | no other ↦ inl (ground arith)
  ]
]

-- An element is overwritten only if it was the subscription.
close_loop-kept :
    (r sub i p : ℕ) (c : Removal) → ((close_loop r sub i c).array p ≡ c.array p) ⊎ (c.array p ≡ sub)
unfolding close_loop
close_loop-kept zero sub i p c = inl refl
close_loop-kept (suc r) sub i p c = elim (close_at-kept sub i p c) [
  | inr e ↦ inr e
  | inl e ↦ elim (close_loop-kept r sub (suc i) p (close_at sub i c)) [
    | inl q ↦ inl (q ∙ e)
    | inr q ↦ inr (sym e ∙ q)
  ]
]

pub update_self {ℓ} : {A : Type ℓ} (f : ℕ → A) (i : ℕ) (v : A) → update f i v i ≡ v
update_self f i v = let same : eqb i i ≡ true = ground arith in rw same refl

pub update_other {ℓ} : {A : Type ℓ} (f : ℕ → A) (i j : ℕ) (v : A) → j ≢ i → update f i v j ≡ f j
update_other f i j v h = let other : eqb j i ≡ false = ground arith in rw other refl

-- What a close leaves of an element.
abbrev Keeps : ℕ → ℕ → ℕ → Bus → Bus → Type 0
Keeps sub a p b b' = (b'.cells a p ≡ b.cells a p) ⊎ (b.cells a p ≡ sub)

close_in-Keeps :
    (name : String) (sub a p : ℕ) (o : Option Slice) (b : Bus)
    → Keeps sub a p b (close_in name sub o b)
close_in-Keeps name sub a p none b = inl refl
close_in-Keeps name sub a p (some s) b =
    let c : Removal = record { array = b.cells s.array; len = s.len; entry = some s.len } in
    elim (ℕ_discrete a s.array) [
      | no other ↦ inl (ap (λ g. g p) (update_other b.cells s.array a _ other))
      | yes same ↦
          subst (λ z. Keeps sub z p b (close_in name sub (some s) b)) (sym same)
            (elim (close_loop-kept s.len sub 0 p c) [
              | inl q ↦ inl (ap (λ g. g p) (update_self b.cells s.array _) ∙ q)
              | inr q ↦ inr q
            ])
    ]

-- The element at a place is the subscription it was, or that one is closed; a closed one stays so,
-- and no signal is lost.
abbrev Stays : ℕ → Bus → Bus → Type 0
Stays a b b' =
    ((p : ℕ) → (b'.cells a p ≡ b.cells a p) ⊎ (b'.closed (b.cells a p) ≡ true))
    × ((x : ℕ) → b.closed x ≡ true → b'.closed x ≡ true)
    × ((x : ℕ) → b.pending x ≡ true → b'.pending x ≡ true)

close_in-flags :
    (name : String) (sub : ℕ) (o : Option Slice) (b : Bus)
    → ((close_in name sub o b).closed ≡ b.closed) × ((close_in name sub o b).pending ≡ b.pending)
close_in-flags name sub none b = (refl, refl)
close_in-flags name sub (some s) b = (refl, refl)

close-Stays : (name : String) (sub a : ℕ) (b : Bus) → Stays a b (close name sub b)
unfolding close
close-Stays name sub a b = elim (Bool-cases (b.closed sub)) [
  | inl done ↦ simp done (λ p. inl refl, λ x h. h, λ x h. h)
  | inr not_yet ↦ simp not_yet (
    λ p. elim (close_in-Keeps name sub a p (lookup name b.signals) b) [
      | inl same ↦ inl same
      | inr e ↦
          inr (rw e (update_self (close_in name sub (lookup name b.signals) b).closed sub true))
    ],
    λ x h. elim (ℕ_discrete x sub) [
      | yes e ↦ rw e (update_self (close_in name sub (lookup name b.signals) b).closed sub true)
      | no e ↦
          update_other (close_in name sub (lookup name b.signals) b).closed sub x true e
          ∙ ap (λ g. g x) (close_in-flags name sub (lookup name b.signals) b).0
          ∙ h
    ],
    λ x h. ap (λ g. g x) (close_in-flags name sub (lookup name b.signals) b).1 ∙ h,
  )
]

module _ (spare : ℕ → ℕ) where
  abbrev pub IsClosing : Op → Type 0
  IsClosing (subscribing name sub) = ⊥
  IsClosing (closing name sub) = Unit

  Stays-trans : (a : ℕ) (b c d : Bus) → Stays a b c → Stays a c d → Stays a b d
  Stays-trans a b c d (at, cl, pe) (at', cl', pe') = (
    λ p. elim (at p) [
      | inr e ↦ inr (cl' (b.cells a p) e)
      | inl e ↦ elim (at' p) [ inl q ↦ inl (q ∙ e) | inr q ↦ inr (ap d.closed (sym e) ∙ q) ]
    ],
    λ x h. cl' x (cl x h),
    λ x h. pe' x (pe x h),
  )

  run_ops-Stays :
      (os : List Op) (a : ℕ) (b : Bus) → Every os IsClosing → Stays a b (run_ops spare os b)
  run_ops-Stays [] a b h = (λ p. inl refl, λ x h. h, λ x h. h)
  run_ops-Stays (subscribing name sub ∷ os) a b (h, hs) = absurd h
  run_ops-Stays (closing name sub ∷ os) a b (h, hs) =
      Stays-trans a b (close name sub b) (run_ops spare os (close name sub b))
        (close-Stays name sub a b) (run_ops-Stays os a (close name sub b) hs)

  send-Stays : (x a : ℕ) (b : Bus) → Stays a b (send x b)
  send-Stays x a b = (
    λ p. inl refl,
    λ y h. h,
    λ y h. elim (ℕ_discrete y x) [
      | yes e ↦ rw e (update_self b.pending x true)
      | no e ↦ update_other b.pending x y true e ∙ h
    ],
  )

  -- Signaled, or closed meanwhile.
  abbrev pub IsTold : ℕ → Bus → Type 0
  IsTold x b = (b.pending x ≡ true) ⊎ (b.closed x ≡ true)

  IsTold-later : (x a : ℕ) (b c : Bus) → Stays a b c → IsTold x b → IsTold x c
  IsTold-later x a b c (at, cl, pe) (inl h) = inl (pe x h)
  IsTold-later x a b c (at, cl, pe) (inr h) = inr (cl x h)

  step-Stays :
      (os : List Op) (a i : ℕ) (b : Bus)
      → Every os IsClosing
      → Stays a b (send ((run_ops spare os b).cells a i) (run_ops spare os b))
  step-Stays os a i b h =
      let b' = run_ops spare os b in
      Stays-trans a b b' (send (b'.cells a i) b') (run_ops-Stays os a b h)
        (send-Stays (b'.cells a i) a b')

  notify_loop-Stays :
      (a r i : ℕ) (others : ℕ → List Op) (b : Bus)
      → ((k : ℕ) → Every (others k) IsClosing)
      → Stays a b (notify_loop spare a r i others b)
  unfolding notify_loop
  notify_loop-Stays a zero i others b h = (λ p. inl refl, λ x h. h, λ x h. h)
  notify_loop-Stays a (suc r) i others b h =
      let b' = run_ops spare (others i) b in
      Stays-trans a b (send (b'.cells a i) b')
        (notify_loop spare a r (suc i) others (send (b'.cells a i) b'))
        (step-Stays (others i) a i b (h i))
        (notify_loop-Stays a r (suc i) others (send (b'.cells a i) b') h)

  step-IsTold :
      (os : List Op) (a i : ℕ) (b : Bus)
      → Every os IsClosing
      → IsTold (b.cells a i) (send ((run_ops spare os b).cells a i) (run_ops spare os b))
  step-IsTold os a i b h =
      let b' = run_ops spare os b in
      elim ((run_ops-Stays os a b h).0 i) [
        | inl e ↦ inl (rw (sym e) (update_self b'.pending (b'.cells a i) true))
        | inr e ↦ inr e
      ]

  notify_loop-IsTold :
      (a r i p : ℕ) (others : ℕ → List Op) (b : Bus)
      → ((k : ℕ) → Every (others k) IsClosing)
      → i ≤ p
      → p < i + r
      → IsTold (b.cells a p) (notify_loop spare a r i others b)
  unfolding notify_loop
  notify_loop-IsTold a zero i p others b h lo hi = absurd (omega arith)
  notify_loop-IsTold a (suc r) i p others b h lo hi =
      let b' = run_ops spare (others i) b in
      let c = send (b'.cells a i) b' in
      let step = step-Stays (others i) a i b (h i) in
      let rest = notify_loop-Stays a r (suc i) others c h in
      elim (ℕ_discrete i p) [
        | yes e ↦
            subst (λ z. IsTold (b.cells a z) (notify_loop spare a r (suc i) others c)) e
              (IsTold-later (b.cells a i) a c (notify_loop spare a r (suc i) others c) rest
                (step-IsTold (others i) a i b (h i)))
        | no e ↦ elim (step.0 p) [
          | inl same ↦
              subst (λ z. IsTold z (notify_loop spare a r (suc i) others c)) same
                (notify_loop-IsTold a r (suc i) p others c h (omega arith) (omega arith))
          | inr gone ↦
              IsTold-later (b.cells a p) a c (notify_loop spare a r (suc i) others c) rest
                (inr gone)
        ]
      ]

  -- Whatever subscriptions other goroutines close between the sends of a Notify, if none
  -- subscribes, each subscription that the slice held at the start has a signal at the end or was
  -- closed.
  pub notify-IsTold :
      (name : String) (s : Slice) (p : ℕ) (others : ℕ → List Op) (b : Bus)
      → ((k : ℕ) → Every (others k) IsClosing)
      → lookup name b.signals ≡ some s
      → p < s.len
      → IsTold (b.cells s.array p) (notify spare name others b)
  unfolding notify
  notify-IsTold name s p others b h found inside =
      rw found (notify_loop-IsTold s.array s.len 0 p others b h (omega arith) (omega arith))
