-- ===== src/Tracker/Counts.antt =====
-- internal/handlers/online_tracker.go: the counts of connections.
use nexodus.Prelude.{
  ℕ, zero, suc, ◌+◌, ◌-◌, ◌<◌, ◌≡◌, refl, sym, ap, ◌∙◌, ◌⊎◌, inl, inr, String, true, false, Option,
  none, some, List, [], ◌∷◌, eqb, if◌then◌else◌, ◌==◌, string_eq, Bool-cases, arith,
}
use nexodus.Prelude.Integers.{ℤ, pos, minus_one}
use nexodus.Prelude.Maps.{lookup, insert, delete, lookup-insert, lookup-delete, eq_self}
use nexodus.Tracker.{AgentTracker, connected, disconnected}

-- An agent with no connection is not in the map.
abbrev pub entry : ℕ → Option ℤ
entry zero = none
entry (suc n) = some (pos (suc n))

-- The map counts the connections, and the subscription is there once there is one.
pub record IsCounting (t : AgentTracker) (open_count : String → ℕ) : Type 0 where
  pub counts : (agent : String) → lookup agent t.local_agents ≡ entry (open_count agent)
  pub listens : (agent : String) → 0 < open_count agent → t.pub_sub ≡ true

abbrev pub one_more : String → (String → ℕ) → String → ℕ
one_more agent c k = if agent == k then c k + 1 else c k

abbrev pub one_less : String → (String → ℕ) → String → ℕ
one_less agent c k = if agent == k then c k - 1 else c k

entry_inv :
    (o : Option ℤ) (n : ℕ) → o ≡ entry n → ((o ≡ none) × (n ≡ 0)) ⊎ ((o ≡ some (pos n)) × (0 < n))
entry_inv o zero h = inl (h, refl)
entry_inv o (suc n) h = inr (h, omega arith)

entry-of_pos : (n : ℕ) → 0 < n → some (pos n) ≡ entry n
entry-of_pos zero h = absurd (omega arith)
entry-of_pos (suc n) h = refl

minus_one-pos : (n : ℕ) → 0 < n → minus_one (pos n) ≡ pos (n - 1)
minus_one-pos zero h = absurd (omega arith)
minus_one-pos (suc n) h = ap pos (omega arith)

module _ (agent : String) (t : AgentTracker) (c : String → ℕ) (h : IsCounting t c) where
  -- The map with a count that is not zero for the agent.
  put-counts :
      (v : ℕ) (c' : String → ℕ)
      → 0 < v
      → c' agent ≡ v
      → ((k : String) → (agent == k) ≡ false → c' k ≡ c k)
      → (k : String) → lookup k (insert agent (pos v) t.local_agents) ≡ entry (c' k)
  put-counts v c' positive same others k =
      rw (lookup-insert agent k (pos v) t.local_agents) (elim (Bool-cases (agent == k)) [
        | inl e ↦ rw e (
            entry-of_pos v positive
            ∙ ap entry (sym same)
            ∙ ap (λ z. entry (c' z)) ((string_eq.same_iff agent k).0 e))
        | inr e ↦ rw e (h.counts k ∙ ap entry (sym (others k e)))
      ])

  gone-counts :
      (c' : String → ℕ)
      → c' agent ≡ 0
      → ((k : String) → (agent == k) ≡ false → c' k ≡ c k)
      → (k : String) → lookup k (delete agent t.local_agents) ≡ entry (c' k)
  gone-counts c' same others k =
      rw (lookup-delete agent k t.local_agents) (elim (Bool-cases (agent == k)) [
        | inl e ↦
            rw e (ap entry (sym same) ∙ ap (λ z. entry (c' z)) ((string_eq.same_iff agent k).0 e))
        | inr e ↦ rw e (h.counts k ∙ ap entry (sym (others k e)))
      ])

  one_more_self : one_more agent c agent ≡ c agent + 1
  one_more_self = rw (eq_self agent) refl

  one_more_other : (k : String) → (agent == k) ≡ false → one_more agent c k ≡ c k
  one_more_other k e = rw e refl

  one_less_self : one_less agent c agent ≡ c agent - 1
  one_less_self = rw (eq_self agent) refl

  one_less_other : (k : String) → (agent == k) ≡ false → one_less agent c k ≡ c k
  one_less_other k e = rw e refl

  pub connected-IsCounting :
      IsCounting (connected agent none t).0 (one_more agent c) × ((connected agent none t).1 ≡ none)
  unfolding connected
  connected-IsCounting = elim (entry_inv (lookup agent t.local_agents) (c agent) (h.counts agent)) [
    | inl (e, z) ↦ rw e (
      record {
        counts =
            put-counts 1 (one_more agent c) (omega arith) (one_more_self ∙ omega arith)
              one_more_other;
        listens = λ k p. refl;
      },
      refl,
    )
    | inr (e, positive) ↦ rw e (
      record {
        counts =
            put-counts (c agent + 1) (one_more agent c) (omega arith) one_more_self one_more_other;
        listens = λ k p. h.listens agent positive;
      },
      refl,
    )
  ]

  less-listens : (k : String) → 0 < one_less agent c k → t.pub_sub ≡ true
  less-listens k p = h.listens k (ground (arith, p))

  pub disconnected-IsCounting :
      0 < c agent
      → (t' : AgentTracker) × (disconnected agent none t ≡ some (t', none))
        × IsCounting t' (one_less agent c)
  unfolding disconnected
  disconnected-IsCounting open_one =
      elim (entry_inv (lookup agent t.local_agents) (c agent) (h.counts agent)) [
        | inl (e, z) ↦ absurd (omega arith)
        | inr (e, positive) ↦ elim (Bool-cases (eqb (c agent - 1) 0)) [
          | inl last ↦ (
            record t { local_agents = delete agent t.local_agents },
            rw (e, minus_one-pos (c agent) positive) (rw last (rw (h.listens agent positive) refl)),
            record {
              counts = gone-counts (one_less agent c) (one_less_self ∙ ground arith) one_less_other;
              listens = less-listens;
            },
          )
          | inr more ↦ (
            record t { local_agents = insert agent (pos (c agent - 1)) t.local_agents },
            rw (e, minus_one-pos (c agent) positive) (rw more refl),
            record {
              counts =
                  put-counts (c agent - 1) (one_less agent c) (ground arith) one_less_self
                    one_less_other;
              listens = less-listens;
            },
          )
        ]
      ]

-- A connection starts, or one ends.
pub data Change : Type 0 where
  starts : String → Change
  ends : String → Change

abbrev pub then_track :
    {A : Type 0}
    → Option (AgentTracker × A)
    → (AgentTracker → Option AgentTracker)
    → Option AgentTracker
then_track none k = none
then_track (some (t, e)) k = k t

abbrev pub run_changes : List Change → AgentTracker → Option AgentTracker
run_changes [] t = some t
run_changes (starts a ∷ cs) t = run_changes cs (connected a none t).0
run_changes (ends a ∷ cs) t = then_track (disconnected a none t) (run_changes cs)

abbrev pub count_changes : List Change → (String → ℕ) → String → ℕ
count_changes [] c = c
count_changes (starts a ∷ cs) c = count_changes cs (one_more a c)
count_changes (ends a ∷ cs) c = count_changes cs (one_less a c)

-- Only a connection that is open ends.
abbrev pub IsPaired : List Change → (String → ℕ) → Type 0
IsPaired [] c = Unit
IsPaired (starts a ∷ cs) c = IsPaired cs (one_more a c)
IsPaired (ends a ∷ cs) c = (0 < c a) × IsPaired cs (one_less a c)

-- If the tracker counts the open connections of each agent (with no entry for none) and listens
-- once there is one, then after any starts and ends of connections, of which only open ones end,
-- without errors of Redis, it does so again, and it never meets the nil subscription.
pub run_changes-IsCounting :
    (cs : List Change) (t : AgentTracker) (c : String → ℕ)
    → IsCounting t c
    → IsPaired cs c
    → (t' : AgentTracker) × (run_changes cs t ≡ some t') × IsCounting t' (count_changes cs c)
run_changes-IsCounting [] t c h p = (t, refl, h)
run_changes-IsCounting (starts a ∷ cs) t c h p =
    run_changes-IsCounting cs (connected a none t).0 (one_more a c) (connected-IsCounting a t c h).0
      p
run_changes-IsCounting (ends a ∷ cs) t c h (positive, p) =
    let (t', done, kept) = disconnected-IsCounting a t c h positive in
    let (t'', end, last) = run_changes-IsCounting cs t' (one_less a c) kept p in
    (t'', ap (λ o. then_track o (run_changes cs)) done ∙ end, last)

-- After an error of the subscription the count stays, and no connection has it.
pub failed_connect_counts :
    (agent e : String) (t : AgentTracker) (c : String → ℕ)
    → IsCounting t c
    → c agent ≡ 0
    → ((connected agent (some e) t).1 ≡ some e)
      × IsCounting (connected agent (some e) t).0 (one_more agent c)
unfolding connected
failed_connect_counts agent e t c h z =
    elim (entry_inv (lookup agent t.local_agents) (c agent) (h.counts agent)) [
      | inr (q, positive) ↦ absurd (omega arith)
      | inl (q, z') ↦ rw q (
        refl,
        record {
          counts =
              put-counts agent t c h 1 (one_more agent c) (omega arith)
                (one_more_self agent t c h ∙ omega arith) (one_more_other agent t c h);
          listens = λ k p. refl;
        },
      )
    ]
