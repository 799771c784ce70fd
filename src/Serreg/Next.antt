-- ===== src/Serreg/Next.antt =====
-- modules/serreg/serreg.c: which priority is tried next.
use baresip.Prelude.{
  ℕ, ◌≡◌, ◌≤◌, ◌<◌, ◌+◌, ◌⊎◌, inl, inr, refl, sym, List, [], ◌∷◌, leb, ltb, arith, ◌^◌, ◌-◌,
  Bool-cases,
}
use baresip.Serreg.{Agent, Sreg, no_prio, least_above, inc_account_prio}

-- An agent of the list has the priority.
abbrev pub HasPrio : List Agent → ℕ → Type 0
HasPrio [] p = ⊥
HasPrio (agent ∷ agents) p = (agent.prio ≡ p) ⊎ HasPrio agents p

-- No agent of the list has a priority above `prio` and below `p`.
abbrev pub NoneBetween : List Agent → ℕ → ℕ → Type 0
NoneBetween [] prio p = Unit
NoneBetween (agent ∷ agents) prio p =
    ((agent.prio ≤ prio) ⊎ (p ≤ agent.prio)) × NoneBetween agents prio p

between_less :
    (agents : List Agent) (prio p q : ℕ)
    → q ≤ p
    → NoneBetween agents prio p
    → NoneBetween agents prio q
between_less [] prio p q h b = tt
between_less (agent ∷ agents) prio p q h (inl below, b) =
    (inl below, between_less agents prio p q h b)
between_less (agent ∷ agents) prio p q h (inr above, b) =
    (inr (omega (arith, h, above)), between_less agents prio p q h b)

least_above_result :
    (agents : List Agent) (prio p : ℕ)
    → let r = least_above prio agents p in
      (r ≤ p) × NoneBetween agents prio r × ((r ≡ p) ⊎ (HasPrio agents r × (prio < r)))
unfolding least_above
least_above_result [] prio p = (omega arith, tt, inl refl)
least_above_result (agent ∷ agents) prio p = elim (Bool-cases (leb agent.prio prio)) [
  | inl below ↦
      let (le, none_left, from) = least_above_result agents prio p in
      rw below (
        le,
        (inl (ground (arith, below)), none_left),
        elim from [ inl e ↦ inl e | inr (has, above) ↦ inr (inr has, above) ],
      )
  | inr above ↦ elim (Bool-cases (ltb agent.prio p)) [
    | inl less ↦
        let (le, none_left, from) = least_above_result agents prio agent.prio in
        rw (above, less)
          (
            ground (arith, le, less),
            (inr le, none_left),
            elim from [
              | inl e ↦ inr (inl (sym e), ground (arith, above, e))
              | inr (has, high) ↦ inr (inr has, high)
            ],
          )
    | inr more ↦
        let (le, none_left, from) = least_above_result agents prio p in
        rw (above, more)
          (
            le,
            (inr (ground (arith, le, more)), none_left),
            elim from [ inl e ↦ inl e | inr (has, high) ↦ inr (inr has, high) ],
          )
  ]
]

-- The next priority is the least one above the current one, if that is not above the largest that
-- is known, and 0 otherwise; priorities are below 2^32 - 1.
pub inc_account_prio_least :
    (sreg : Sreg) (agents : List Agent)
    → sreg.maxprio < 2 ^ 32 - 1
    → let next = (inc_account_prio sreg agents).prio in
      ((sreg.prio < next)
        × HasPrio agents next
        × NoneBetween agents sreg.prio next
        × (next ≤ sreg.maxprio))
      ⊎ ((next ≡ 0) × NoneBetween agents sreg.prio (sreg.maxprio + 1))
unfolding inc_account_prio
inc_account_prio_least sreg agents known =
    let p = least_above sreg.prio agents no_prio in
    let (le, none_left, from) = least_above_result agents sreg.prio no_prio in
    elim (Bool-cases (ltb sreg.maxprio p)) [
      | inl over ↦ rw over (
          inr (
            refl,
            between_less agents sreg.prio p (sreg.maxprio + 1) (ground (arith, over)) none_left,
          ))
      | inr within ↦ rw within elim from [
        | inl e ↦ absurd (ground (arith, e, within, known))
        | inr (has, above) ↦ inl (above, has, none_left, ground (arith, within))
      ]
    ]
