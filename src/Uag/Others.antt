-- ===== src/Uag/Others.antt =====
-- src/uag.c: how many calls but the given one are active before and after `uag_hold_others`.
use baresip.Prelude.{
  ℕ, zero, suc, ◌+◌, ◌-◌, ◌≡◌, refl, Bool, true, false, Option, none, some, List, [], ◌∷◌, arith,
  if◌then◌else◌, Bool-cases, Option-cases, inl, inr,
}
use baresip.Call.{Call, Outside}
use baresip.Ua.{Ua}
use baresip.Ua.Calls.{first_at, is_active, ua_find_active_call}
use baresip.Uag.{
  Place, next_ua, first_in, hold_at, hold_call, hold_found, hold_active, first_but, first_other,
  uag_hold_others,
}
use baresip.Uag.Active.{
  count_active, active, HaveSess, AllHaveSess, first_at-none, hold_inactive, hold_call_first,
  hold_active_less,
}

-- How many calls but the one at a place are established and not on hold.
unfoldable pub count_but : List Call → Option ℕ → ℕ
count_but [] but = 0
count_but (call ∷ calls) none = count_active (call ∷ calls)
count_but (call ∷ calls) (some zero) = count_active calls
count_but (call ∷ calls) (some (suc j)) =
    let n = count_but calls (some j) in if is_active call then suc n else n

unfoldable pub active_but : List Ua → Option Place → ℕ
active_but [] but = 0
active_but (ua ∷ ual) none = active (ua ∷ ual)
active_but (ua ∷ ual) (some (zero, j)) = count_but ua.calls (some j) + active ual
active_but (ua ∷ ual) (some (suc i, j)) = count_active ua.calls + active_but ual (some (i, j))

first_but-none :
    (calls : List Call) (j : ℕ) → first_but calls (some j) ≡ none → count_but calls (some j) ≡ 0
unfolding first_but count_but
first_but-none [] j e = refl
first_but-none (call ∷ calls) zero e = ground (arith, e, first_at-none calls)
first_but-none (call ∷ calls) (suc j) e = ground (arith, e, first_but-none calls j)

hold_call_but :
    (calls : List Call) (j k : ℕ) (out : Outside)
    → HaveSess calls
    → first_but calls (some j) ≡ some k
    → suc (count_but (hold_call calls k out true).0 (some j)) ≡ count_but calls (some j)
unfolding first_but count_but hold_call
hold_call_but [] j k out h e = absurd (cc (e))
hold_call_but (call ∷ calls) zero zero out (here, h) e = absurd (ground (arith, e))
hold_call_but (call ∷ calls) zero (suc k) out (here, h) e =
    hold_call_first calls k out h (ground (arith, e))
hold_call_but (call ∷ calls) (suc j) zero out (here, h) e = elim (Bool-cases (is_active call)) [
  | inl on ↦
      let off = hold_inactive call out on (ground (arith, here, on)) in ground (arith, on, off)
  | inr off ↦ absurd (ground (arith, e, off))
]
hold_call_but (call ∷ calls) (suc j) (suc k) out (here, h) e = elim (Bool-cases (is_active call)) [
  | inl on ↦ absurd (ground (arith, e, on))
  | inr off ↦
      let rest = hold_call_but calls j k out h (ground (arith, e, off)) in ground (arith, off, rest)
]

hold_found_but :
    (ua : Ua) (ual : List Ua) (i j : ℕ) (found : Option Place) (out : Outside)
    → active_but (hold_found (ua ∷ ual) (next_ua found) out true).0 (some (suc i, j))
      ≡ count_active ua.calls + active_but (hold_found ual found out true).0 (some (i, j))
unfolding hold_found hold_at active_but
hold_found_but ua ual i j none out = refl
hold_found_but ua ual i j (some (i', j')) out = refl

hold_found_behind :
    (ua : Ua) (ual : List Ua) (j : ℕ) (found : Option Place) (out : Outside)
    → active_but (hold_found (ua ∷ ual) (next_ua found) out true).0 (some (zero, j))
      ≡ count_but ua.calls (some j) + active (hold_found ual found out true).0
unfolding hold_found hold_at active_but
hold_found_behind ua ual j none out = refl
hold_found_behind ua ual j (some (i', j')) out = refl

-- Holding the first active call but one makes one less of them, if there is one.
hold_other_less :
    (ual : List Ua) (i j : ℕ) (out : Outside)
    → AllHaveSess ual
    → active_but (hold_found ual (first_other ual (some (i, j))) out true).0 (some (i, j))
      ≡ active_but ual (some (i, j)) - 1
unfolding hold_found hold_active first_other active_but hold_at ua_find_active_call
hold_other_less [] i j out h = refl
hold_other_less (ua ∷ ual) zero j out (here, h) =
    elim (Option-cases (first_but ua.calls (some j))) [
      | inr (k, found) ↦ rw found omega (arith, hold_call_but ua.calls j k out here found)
      | inl gone ↦
          let quiet = first_but-none ua.calls j gone in
          let rest = hold_active_less ual out h in
          let behind = first_in ua_find_active_call ual in
          rw gone omega (arith, hold_found_behind ua ual j behind out, quiet, rest)
    ]
hold_other_less (ua ∷ ual) (suc i) j out (here, h) =
    elim (Option-cases (first_at is_active ua.calls)) [
      | inr (k, found) ↦ rw found omega (arith, hold_call_first ua.calls k out here found)
      | inl gone ↦
          let quiet = first_at-none ua.calls gone in
          let rest = hold_other_less ual i j out h in
          let behind = first_other ual (some (i, j)) in
          rw gone omega (arith, hold_found_but ua ual i j behind out, quiet, rest)
    ]

active_but-none : (ual : List Ua) → active_but ual none ≡ active ual
unfolding active_but active
active_but-none [] = refl
active_but-none (ua ∷ ual) = refl

hold_others_first :
    (ual : List Ua) (but : Option Place) (out : Outside)
    → AllHaveSess ual
    → active_but (hold_found ual (first_other ual but) out true).0 but ≡ active_but ual but - 1
unfolding first_other active_but hold_active hold_found
hold_others_first [] none out h = refl
hold_others_first (ua ∷ ual) none out h =
    let held = (hold_active (ua ∷ ual) out).0 in
    rw (active_but-none held) (hold_active_less (ua ∷ ual) out h)
hold_others_first ual (some (i, j)) out h = hold_other_less ual i j out h

-- With a session for each active call, `uag_hold_others` makes the number of active calls but the
-- given one less by exactly one, where there is one, if the configuration asks for it, whatever
-- libre answers; otherwise it changes nothing in that number.
pub active_but-uag_hold_others :
    (ual : List Ua) (hold_other_calls : Bool) (call : Option Place) (out : Outside)
    → AllHaveSess ual
    → active_but (uag_hold_others ual hold_other_calls call out).0 call
      ≡ active_but ual call - (if hold_other_calls then 1 else 0)
unfolding uag_hold_others
active_but-uag_hold_others ual true call out sess = hold_others_first ual call out sess
active_but-uag_hold_others ual false call out sess = ground arith
