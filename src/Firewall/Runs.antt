-- ===== src/Firewall/Runs.antt =====
-- What it means to carry out a list of commands of `nft`, for internal/nexodus/policy_linux.go.
use nexodus.Prelude.{
  ◌≡◌, refl, sym, ap, ◌∙◌, ◌⊎◌, inl, inr, String, Bool, true, false, Option, none, some, List, [],
  ◌∷◌, ◌++◌, map, string_eq, if◌then◌else◌, arith, Option-cases,
}
use std.Path.{fun_ext}
use mathlib.Core.List.{append_assoc, append-nil}
use nexodus.Firewall.{Command, Nft, Action, ◌>>◌, done, policy_cmd, try_cmd, when, and_then}
use nexodus.Firewall.Permit.{for_each}

-- The result of an action, and the commands carried out by then.
abbrev pub Outcome : Type 0
Outcome = Option Unit × List Command

after_done : (r : Option Unit × List Command) → and_then r (λ _. done tt) ≡ r
after_done (none, log) = refl
after_done (some tt, log) = refl

then_assoc_at :
    {A : Type 0} (y : Action Unit) (z : Action A) (r : Option Unit × List Command)
    → and_then (and_then r (λ _. y)) (λ _. z) ≡ and_then r (λ _. y >> z)
then_assoc_at y z (none, log) = refl
then_assoc_at y z (some tt, log) = refl

cases_at :
    (y : Action Unit) (o : Outcome)
    → ((o.0 ≡ none) × (and_then o (λ _. y) ≡ (none, o.1)))
      ⊎ ((o.0 ≡ some tt) × (and_then o (λ _. y) ≡ y o.1))
cases_at y (none, log) = inl (refl, refl)
cases_at y (some tt, log) = inr (refl, refl)

-- An error of the first action is the error of both; else the second starts where the first ended.
pub then-cases :
    (x y : Action Unit) (log : List Command)
    → (((x log).0 ≡ none) × ((x >> y) log ≡ (none, (x log).1)))
      ⊎ (((x log).0 ≡ some tt) × ((x >> y) log ≡ y (x log).1))
then-cases x y log = cases_at y (x log)

module _ (nft : Nft) where
  -- The commands in order, up to the first failure.
  abbrev pub run_all : List Command → Action Unit
  run_all [] = done tt
  run_all (c ∷ cs) = try_cmd nft c >> run_all cs

  -- All of the list is carried out without an error, or there is an error, and the commands before
  -- one that failed have been carried out and no others.
  pub IsRunOf : List Command → List Command → Outcome → Type 0
  IsRunOf plan log o =
      ((o.0 ≡ some tt) × (o.1 ≡ log ++ plan))
      ⊎ ((before : List Command) × (c : Command) × (after : List Command) × (plan
            ≡ before ++ c ∷ after)
          × (o.0 ≡ none)
          × (o.1 ≡ log ++ before)
          × (nft (log ++ before) c ≡ none))

  pub then_done : (x : Action Unit) → x >> done tt ≡ x
  then_done x = fun_ext (λ log. after_done (x log))

  pub when-run :
      (b : Bool) (cs : List Command) → when b (run_all cs) ≡ run_all (if b then cs else [])
  when-run true cs = refl
  when-run false cs = refl

  pub then_assoc : {A : Type 0} (x y : Action Unit) (z : Action A) → (x >> y) >> z ≡ x >> y >> z
  then_assoc x y z = fun_ext (λ log. then_assoc_at y z (x log))

  pub run_all-append : (cs ds : List Command) → run_all (cs ++ ds) ≡ run_all cs >> run_all ds
  run_all-append [] ds = refl
  run_all-append (c ∷ cs) ds =
      rw (run_all-append cs ds) (sym (then_assoc (try_cmd nft c) (run_all cs) (run_all ds)))

  pub for_each-run :
      (f : String → Command) (rs : List String) → for_each nft f rs ≡ run_all (map f rs)
  for_each-run f [] = refl
  for_each-run f (r ∷ rs) = cc (for_each-run f rs)

  try_fails :
      {A : Type 0} (c : Command) (x : Action A) (log : List Command)
      → nft log c ≡ none
      → (try_cmd nft c >> x) log ≡ (none, log)
  unfolding try_cmd policy_cmd
  try_fails c x log e = ground arith

  try_runs :
      {A : Type 0} (c : Command) (x : Action A) (log : List Command) (out : String)
      → nft log c ≡ some out
      → (try_cmd nft c >> x) log ≡ x (log ++ c ∷ [])
  unfolding try_cmd policy_cmd
  try_runs c x log out e = ground arith

  IsRunOf-cons :
      (c : Command) (cs : List Command) (x : Action Unit) (log : List Command) (out : String)
      → nft log c ≡ some out
      → IsRunOf cs (log ++ c ∷ []) (x (log ++ c ∷ []))
      → IsRunOf (c ∷ cs) log ((try_cmd nft c >> x) log)
  unfolding IsRunOf
  IsRunOf-cons c cs x log out e (inl (ok, all)) = inl (
    rw (try_runs c x log out e) ok,
    rw (try_runs c x log out e) (all ∙ append_assoc log (c ∷ []) cs),
  )
  IsRunOf-cons c cs x log out e (inr (before, d, after, split, bad, some_of, fails)) = inr (
    c ∷ before,
    d,
    after,
    ap (λ l. c ∷ l) split,
    rw (try_runs c x log out e) bad,
    rw (try_runs c x log out e) (some_of ∙ append_assoc log (c ∷ []) before),
    rw (sym (append_assoc log (c ∷ []) before)) fails,
  )

  -- Every list of commands has one of the two outcomes.
  pub run_all-IsRunOf : (plan log : List Command) → IsRunOf plan log (run_all plan log)
  unfolding IsRunOf
  run_all-IsRunOf [] log = inl (refl, sym (append-nil log))
  run_all-IsRunOf (c ∷ cs) log = elim (Option-cases (nft log c)) [
    | inl e ↦ inr (
      [],
      c,
      cs,
      refl,
      rw (try_fails c (run_all cs) log e) refl,
      rw (try_fails c (run_all cs) log e) (sym (append-nil log)),
      rw (append-nil log) e,
    )
    | inr (out, e) ↦ IsRunOf-cons c cs (run_all cs) log out e (run_all-IsRunOf cs (log ++ c ∷ []))
  ]
