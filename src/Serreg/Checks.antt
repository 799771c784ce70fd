-- ===== src/Serreg/Checks.antt =====
-- modules/serreg/serreg.c: what `check_registrations` finds, as a statement on all accounts of the
-- current priority in place of its counters.
use baresip.Prelude.{
  ltb, ℕ, ◌≡◌, ◌≤◌, ◌<◌, ◌⊎◌, inl, inr, refl, Bool, true, false, ◌&&◌, ◌||◌, not, List, [], ◌∷◌,
  ◌==◌, arith, Bool-cases,
}
use baresip.Ua.{ua_isregistered, ua_regfailed}
use baresip.Serreg.{Agent, Sreg, is_registering, max_prio, count_at, check_registrations}

-- Each agent of the priority that registers passes a test.
abbrev pub AllHave : ℕ → (Agent → Bool) → List Agent → Type 0
AllHave prio test [] = Unit
AllHave prio test (agent ∷ agents) =
    ((is_registering agent && (agent.prio == prio) && not (test agent)) ≡ false)
    × AllHave prio test agents

-- No agent that registers has a priority above `m`.
abbrev pub NoneAbove : List Agent → ℕ → Type 0
NoneAbove [] m = Unit
NoneAbove (agent ∷ agents) m =
    ((is_registering agent ≡ false) ⊎ (agent.prio ≤ m)) × NoneAbove agents m

all_or_less :
    (prio : ℕ) (test : Agent → Bool) (agents : List Agent)
    → let n = count_at prio (λ a. true) agents in
      let k = count_at prio test agents in
      ((k ≡ n) × AllHave prio test agents) ⊎ ((k < n) × ¬ AllHave prio test agents)
unfolding count_at
all_or_less prio test [] = inl (refl, tt)
all_or_less prio test (agent ∷ agents) =
    elim (Bool-cases (is_registering agent && (agent.prio == prio) && not (test agent))) [
      | inl misses ↦ inr (
        elim (all_or_less prio test agents) [
          | inl (same, _) ↦ ground (arith, misses, same)
          | inr (less, _) ↦ ground (arith, misses, less)
        ],
        λ (has, _). ground (arith, misses, has),
      )
      | inr passes ↦ elim (all_or_less prio test agents) [
        | inl (same, all) ↦ inl (ground (arith, passes, same), (passes, all))
        | inr (less, some_miss) ↦ inr (ground (arith, passes, less), λ (_, all). some_miss all)
      ]
    ]

max_prio-above :
    (agents : List Agent) (m : ℕ) → (m ≤ max_prio agents m) × NoneAbove agents (max_prio agents m)
unfolding max_prio
max_prio-above [] m = (omega arith, tt)
max_prio-above (agent ∷ agents) m = elim (Bool-cases (is_registering agent && ltb m agent.prio)) [
  | inl above ↦
      let (le, none_above) = max_prio-above agents agent.prio in
      rw above (ground (arith, above, le), (inr le, none_above))
  | inr within ↦
      let (le, none_above) = max_prio-above agents m in
      let here : (is_registering agent ≡ false) ⊎ (agent.prio ≤ max_prio agents m) =
        elim (Bool-cases (is_registering agent)) [
          | inl on ↦ inr (ground (arith, within, on, le))
          | inr off ↦ inl off
        ] in
      rw within (le, (here, none_above))
]

module _ (registered : ℕ → Bool) (failed : ℕ → Bool) where
  abbrev pub has_failed : Agent → Bool
  has_failed agent = ua_regfailed registered failed agent.ua

  abbrev pub is_registered : Agent → Bool
  is_registered agent = ua_isregistered registered failed agent.ua

  -- What the check reports and changes: it is true exactly if each account of the current priority
  -- that registers has failed; the current priority stays; no account that registers has a priority
  -- above the largest one that is known then; and where the flag of readiness changes, it is set,
  -- and each account of the current priority is registered.
  pub check_registrations-AllHave :
      (sreg : Sreg) (agents : List Agent)
      → let (sreg', all_failed) = check_registrations registered failed sreg agents in
        (((all_failed ≡ true) × AllHave sreg.prio has_failed agents)
          ⊎ ((all_failed ≡ false) × ¬ AllHave sreg.prio has_failed agents))
        × (sreg'.prio ≡ sreg.prio)
        × NoneAbove agents sreg'.maxprio
        × ((sreg'.ready ≡ sreg.ready)
            ⊎ ((sreg'.ready ≡ true) × AllHave sreg.prio is_registered agents))
  unfolding check_registrations
  check_registrations-AllHave sreg agents =
      let n = count_at sreg.prio (λ a. true) agents in
      let f = count_at sreg.prio has_failed agents in
      let r = count_at sreg.prio is_registered agents in
      let (_, none_above) = max_prio-above agents sreg.maxprio in
      elim (all_or_less sreg.prio has_failed agents) [
        | inl (same, all) ↦
            let all_fail : (n == f) ≡ true = ground (arith, same) in
            rw all_fail (inl (refl, all), refl, none_above, inl refl)
        | inr (less, some_fine) ↦
            let fine : (n == f) ≡ false = ground (arith, less) in
            elim (Bool-cases (not (f == 0) || ltb r n || sreg.ready)) [
              | inl waits ↦ rw (fine, waits) (inr (refl, some_fine), refl, none_above, inl refl)
              | inr ready ↦
                  let all : AllHave sreg.prio is_registered agents =
                    elim (all_or_less sreg.prio is_registered agents) [
                      | inl (_, all) ↦ all
                      | inr (fewer, _) ↦ absurd (ground (arith, ready, fewer))
                    ] in
                  rw (fine, ready) (inr (refl, some_fine), refl, none_above, inr (refl, all))
            ]
      ]
