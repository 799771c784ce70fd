-- ===== src/Uag/Active.antt =====
-- src/uag.c: hold and resume among the calls of all user agents, and how many calls are active.
use baresip.Prelude.{
  ℕ, zero, suc, ◌+◌, ◌-◌, ◌≤◌, ◌≡◌, refl, Bool, true, false, ◌&&◌, not, Option, none, some, List,
  [], ◌∷◌, arith, if◌then◌else◌, Bool-cases, Option-cases, inl, inr,
}
use baresip.Call.{Call, Outside}
use baresip.Call.Control.{call_hold}
use baresip.Call.Holding.{hold_flags}
use baresip.Ua.{Ua}
use baresip.Ua.Calls.{first_at, is_active, ua_find_active_call}
use baresip.Uag.{
  Place, next_ua, first_in, hold_at, hold_call, hold_found, swap_calls, to_resume, hold_active,
  uag_hold_resume,
}

-- How many calls are established and not on hold.
unfoldable pub count_active : List Call → ℕ
count_active [] = 0
count_active (call ∷ calls) = let n = count_active calls in if is_active call then suc n else n

unfoldable pub active : List Ua → ℕ
active [] = 0
active (ua ∷ ual) = count_active ua.calls + active ual

-- Each active call has a session.
abbrev pub HaveSess : List Call → Type 0
HaveSess [] = Unit
HaveSess (call ∷ calls) = ((is_active call && not call.sess) ≡ false) × HaveSess calls

abbrev pub AllHaveSess : List Ua → Type 0
AllHaveSess [] = Unit
AllHaveSess (ua ∷ ual) = HaveSess ua.calls × AllHaveSess ual

pub first_at-none : (calls : List Call) → first_at is_active calls ≡ none → count_active calls ≡ 0
unfolding first_at count_active
first_at-none [] e = refl
first_at-none (call ∷ calls) e = ground (arith, e, first_at-none calls)

-- Holding an active call with a session makes it inactive, whatever libre answers.
pub hold_inactive :
    (c : Call) (out : Outside)
    → is_active c ≡ true
    → c.sess ≡ true
    → is_active (call_hold c out true).0 ≡ false
hold_inactive c out on sess =
    let held = (hold_flags c out true sess (ground (arith, on))).0 in ground (arith, held)

pub hold_call_first :
    (calls : List Call) (j : ℕ) (out : Outside)
    → HaveSess calls
    → first_at is_active calls ≡ some j
    → suc (count_active (hold_call calls j out true).0) ≡ count_active calls
unfolding first_at count_active hold_call
hold_call_first [] j out h e = absurd (cc (e))
hold_call_first (call ∷ calls) zero out (here, h) e = elim (Bool-cases (is_active call)) [
  | inl on ↦
      let off = hold_inactive call out on (ground (arith, here, on)) in ground (arith, on, off)
  | inr off ↦ absurd (ground (arith, e, off))
]
hold_call_first (call ∷ calls) (suc j) out (here, h) e = elim (Bool-cases (is_active call)) [
  | inl on ↦ absurd (ground (arith, e, on))
  | inr off ↦
      let rest = hold_call_first calls j out h (ground (arith, e, off)) in ground (arith, off, rest)
]

hold_call_le :
    (calls : List Call) (j : ℕ) (out : Outside) (hold : Bool)
    → count_active (hold_call calls j out hold).0 ≤ suc (count_active calls)
unfolding count_active hold_call
hold_call_le [] j out hold = ground arith
hold_call_le (call ∷ calls) zero out hold = let call' = (call_hold call out hold).0 in ground arith
hold_call_le (call ∷ calls) (suc j) out hold = ground (arith, hold_call_le calls j out hold)

hold_at_le :
    (ual : List Ua) (place : Place) (out : Outside) (hold : Bool)
    → active (hold_at ual place out hold).0 ≤ suc (active ual)
unfolding hold_at active
hold_at_le [] place out hold = ground arith
hold_at_le (ua ∷ ual) (zero, j) out hold = omega (arith, hold_call_le ua.calls j out hold)
hold_at_le (ua ∷ ual) (suc i, j) out hold = omega (arith, hold_at_le ual (i, j) out hold)

hold_found_next :
    (ua : Ua) (ual : List Ua) (found : Option Place) (out : Outside)
    → active (hold_found (ua ∷ ual) (next_ua found) out true).0
      ≡ count_active ua.calls + active (hold_found ual found out true).0
unfolding hold_found hold_at active
hold_found_next ua ual none out = refl
hold_found_next ua ual (some (i, j)) out = refl

-- Holding the first active call of all agents makes one less of them, if there is one.
pub hold_active_less :
    (ual : List Ua) (out : Outside)
    → AllHaveSess ual
    → active (hold_active ual out).0 ≡ active ual - 1
unfolding hold_active hold_found first_in ua_find_active_call active hold_at
hold_active_less [] out h = refl
hold_active_less (ua ∷ ual) out (here, h) = elim (Option-cases (first_at is_active ua.calls)) [
  | inr (j, found) ↦ rw found omega (arith, hold_call_first ua.calls j out here found)
  | inl gone ↦
      let quiet = first_at-none ua.calls gone in
      let rest = hold_active_less ual out h in
      let behind = first_in ua_find_active_call ual in
      rw gone omega (arith, hold_found_next ua ual behind out, quiet, rest)
]

-- With at most one active call in all agents, each with a session, `uag_hold_resume` keeps it that
-- way, whichever call is to be resumed and whatever libre answers.
pub active-uag_hold_resume :
    (ual : List Ua) (call : Option Place) (hold_out resume_out : Outside)
    → AllHaveSess ual
    → active ual ≤ 1
    → active (uag_hold_resume ual call hold_out resume_out).0 ≤ 1
unfolding uag_hold_resume swap_calls
active-uag_hold_resume ual call hold_out resume_out sess one =
    elim (Option-cases (to_resume ual call)) [
      | inl none_held ↦ rw none_held one
      | inr (place, e) ↦
          let held = (hold_active ual hold_out).0 in
          rw e omega
            (arith, one, hold_at_le held place resume_out false, hold_active_less ual hold_out sess)
    ]
