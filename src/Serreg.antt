-- ===== src/Serreg.antt =====
-- modules/serreg/serreg.c: serial registration. The accounts have priorities; those of the current
-- one are registered, and when they fail the next priority is tried. What calls `ua_register` is
-- not modelled, `register_curprio`, `next_account`, `fallback_ok` and `restart`: where that fails
-- at once, it raises the event of the failure at once, and the event handler of this module runs in
-- the middle of these loops and changes the current priority.
use baresip.Prelude.{
  ◌≡◌, ℕ, zero, suc, ◌+◌, ◌-◌, ◌*◌, ◌^◌, min, Bool, true, false, ◌&&◌, ◌||◌, not, Option, none,
  some, List, [], ◌∷◌, ◌==◌, ltb, leb, if◌then◌else◌,
}
use baresip.Reg.{Outside}
use baresip.Ua.{Ua, ua_register, ua_fallback, ua_stop_register, ua_isregistered, ua_regfailed}
pub mod Next
pub mod Checks
mod Tests

-- The static state of the module; no priority is -1 as `uint32_t`. The timer is the time after
-- which it restarts, if it runs.
pub record Sreg : Type 0 where
  pub prio : ℕ
  pub maxprio : ℕ
  pub ready : Bool
  pub sprio : ℕ
  pub tmr : Option ℕ
  pub failc : ℕ

abbrev pub no_prio : ℕ
no_prio = 2 ^ 32 - 1

abbrev min_restart_delay : ℕ
min_restart_delay = 31

-- An agent of the group, with the priority of its account, and what libre answers to its clients.
pub record Agent : Type 0 where
  pub ua : Ua
  pub prio : ℕ
  pub has_uuid : Bool
  pub outs : ℕ → Outside

abbrev set_ua : Agent → Ua → Agent
set_ua agent ua = record agent { ua = ua }

abbrev is_registering : Agent → Bool
is_registering agent = not (agent.ua.acc.regint == 0)

abbrev has_fallback : Agent → Bool
has_fallback agent = not (agent.ua.acc.client.fbregint == 0)

-- `failwait`, with the drawn number below 501.
unfoldable failwait : ℕ → ℕ → ℕ
failwait failc random = min 1800 (30 * 2 ^ min failc 6) * (500 + random)

unfoldable pub max_prio : List Agent → ℕ → ℕ
max_prio [] m = m
max_prio (agent ∷ agents) m =
    let more = max_prio agents agent.prio in
    let same = max_prio agents m in if is_registering agent && ltb m agent.prio then more else same

-- How many agents of a priority register and pass a test.
unfoldable pub count_at : ℕ → (Agent → Bool) → List Agent → ℕ
count_at prio test [] = 0
count_at prio test (agent ∷ agents) =
    let n = count_at prio test agents in
    if is_registering agent && (agent.prio == prio) && test agent then suc n else n

-- `fallback_update`: the agents of the other priorities.
unfoldable pub fallback_update : ℕ → List Agent → List Agent
fallback_update prio [] = []
fallback_update prio (agent ∷ agents) =
    let rest = fallback_update prio agents in
    let ua = (ua_fallback agent.ua agent.has_uuid agent.outs).0 in
    (if is_registering agent && not (agent.prio == prio) then set_ua agent ua else agent) ∷ rest

-- The loop of `inc_account_prio`: the least priority above the current one, or `p`.
unfoldable pub least_above : ℕ → List Agent → ℕ → ℕ
least_above prio [] p = p
least_above prio (agent ∷ agents) p =
    let same = least_above prio agents p in
    let less = least_above prio agents agent.prio in
    if leb agent.prio prio then same else if ltb agent.prio p then less else same

unfoldable pub inc_account_prio : Sreg → List Agent → Sreg
inc_account_prio sreg agents =
    let p = least_above sreg.prio agents no_prio in
    record sreg { prio = if ltb sreg.maxprio p then 0 else p; ready = false }

-- `min_regint`.
unfoldable min_from : List Agent → ℕ → ℕ
min_from [] m = m
min_from (agent ∷ agents) m =
    let regint = agent.ua.acc.regint in
    let same = min_from agents m in
    let less = min_from agents regint in
    if not (is_registering agent) || not (agent.prio == 0) || has_fallback agent
    then same
    else if m == 0 || ltb regint m
    then less
    else same

unfoldable min_regint : List Agent → ℕ
min_regint agents =
    let m = min_from agents 0 in if ltb m min_restart_delay then min_restart_delay else m

module _ (registered : ℕ → Bool) (failed : ℕ → Bool) where
  -- `check_registrations`: true if all agents of the current priority have failed.
  unfoldable pub check_registrations : Sreg → List Agent → Sreg × Bool
  check_registrations sreg agents =
      let known : Sreg = record sreg { maxprio = max_prio agents sreg.maxprio } in
      let n = count_at sreg.prio (λ a. true) agents in
      let f = count_at sreg.prio (λ a. ua_regfailed registered failed a.ua) agents in
      let r = count_at sreg.prio (λ a. ua_isregistered registered failed a.ua) agents in
      if n == f
      then (known, true)
      else if not (f == 0) || ltb r n || sreg.ready
      then (known, false)
      else (record known { ready = true }, false)

  -- `event_handler` of `BEVENT_REGISTER_OK`, for an account of the given priority.
  unfoldable pub register_ok : Sreg → List Agent → ℕ → Sreg
  register_ok sreg agents prio =
      let checked = (check_registrations (record sreg { prio = prio }) agents).0 in
      record checked { sprio = checked.prio }
