-- ===== src/Uag.antt =====
-- src/uag.c: the group of user agents, and hold and resume among the calls of all of them. A user
-- agent is known by its place in the list, a call by that and its own place.
use baresip.Prelude.{
  ℕ, zero, suc, ◌+◌, Bool, true, false, ◌&&◌, ◌||◌, not, Option, none, some, List, [], ◌∷◌, ◌++◌,
  ◌==◌, length, if◌then◌else◌, get_elem?,
}
use baresip.Call.{Call, Outside, is_established}
use baresip.Call.Control.{call_hold}
use baresip.Call.Lines.{find_call, call_find_id, same_text}
use baresip.Ua.{Ua, UaAccount, is_empty}
use baresip.Ua.Calls.{
  first_at, next_call, is_active, on_call, ua_find_call_onhold, ua_find_active_call,
}
use Prim.Native.Nat.{bit_or}
pub mod Find
pub mod Choice
pub mod Active
pub mod Others
mod Tests

abbrev pub Place : Type 0
Place = ℕ × ℕ

-- The loops over the agents that end at the first one in which something is found.
abbrev pub next_ua : Option Place → Option Place
next_ua none = none
next_ua (some (i, j)) = some (suc i, j)

abbrev here_or : Option ℕ → Option Place → Option Place
here_or none later = later
here_or (some j) later = some (0, j)

unfoldable pub first_in : (Ua → Option ℕ) → List Ua → Option Place
first_in find [] = none
first_in find (ua ∷ ual) = here_or (find ua) (next_ua (first_in find ual))

-- `call_hold` of the call at a place.
unfoldable pub hold_call : List Call → ℕ → Outside → Bool → List Call × ℕ
hold_call [] j out hold = ([], 0)
hold_call (call ∷ calls) zero out hold =
    let (call', err) = call_hold call out hold in (call' ∷ calls, err)
hold_call (call ∷ calls) (suc j) out hold =
    let (calls', err) = hold_call calls j out hold in (call ∷ calls', err)

unfoldable pub hold_at : List Ua → Place → Outside → Bool → List Ua × ℕ
hold_at [] place out hold = ([], 0)
hold_at (ua ∷ ual) (zero, j) out hold =
    let (calls', err) = hold_call ua.calls j out hold in (record ua { calls = calls' } ∷ ual, err)
hold_at (ua ∷ ual) (suc i, j) out hold =
    let (ual', err) = hold_at ual (i, j) out hold in (ua ∷ ual', err)

-- `call_hold` of the call that was found, if one was.
unfoldable pub hold_found : List Ua → Option Place → Outside → Bool → List Ua × ℕ
hold_found ual none out hold = (ual, 0)
hold_found ual (some place) out hold = hold_at ual place out hold

-- `call_is_onhold` of the call at a place.
unfoldable pub is_onhold_at : List Ua → Place → Bool
is_onhold_at [] place = false
is_onhold_at (ua ∷ ual) (zero, j) = elim (get_elem? ua.calls j) [
  | none ↦ false
  | some call ↦ call.on_hold
]
is_onhold_at (ua ∷ ual) (suc i, j) = is_onhold_at ual (i, j)

-- `uag_hold_resume`.
unfoldable pub to_resume : List Ua → Option Place → Option Place
to_resume ual none = first_in ua_find_call_onhold ual
to_resume ual (some place) =
    if is_onhold_at ual place then some place else first_in ua_find_call_onhold ual

unfoldable pub hold_active : List Ua → Outside → List Ua × ℕ
hold_active ual out = hold_found ual (first_in ua_find_active_call ual) out true

unfoldable pub swap_calls : List Ua → Option Place → Outside → Outside → List Ua × ℕ
swap_calls ual none hold_out resume_out = (ual, 0)
swap_calls ual (some place) hold_out resume_out =
    let (held, err) = hold_active ual hold_out in
    let (resumed, err') = hold_at held place resume_out false in (resumed, bit_or err err')

unfoldable pub uag_hold_resume : List Ua → Option Place → Outside → Outside → List Ua × ℕ
uag_hold_resume ual call hold_out resume_out =
    swap_calls ual (to_resume ual call) hold_out resume_out

-- `uag_hold_others`: the first active call but the given one.
unfoldable pub first_but : List Call → Option ℕ → Option ℕ
first_but [] but = none
first_but (call ∷ calls) none = first_at is_active (call ∷ calls)
first_but (call ∷ calls) (some zero) = next_call (first_at is_active calls)
first_but (call ∷ calls) (some (suc j)) =
    let later = next_call (first_but calls (some j)) in if is_active call then some 0 else later

unfoldable pub first_other : List Ua → Option Place → Option Place
first_other [] but = none
first_other (ua ∷ ual) none = first_in ua_find_active_call (ua ∷ ual)
first_other (ua ∷ ual) (some (zero, j)) =
    here_or (first_but ua.calls (some j)) (next_ua (first_in ua_find_active_call ual))
first_other (ua ∷ ual) (some (suc i, j)) =
    here_or (ua_find_active_call ua) (next_ua (first_other ual (some (i, j))))

unfoldable pub uag_hold_others : List Ua → Bool → Option Place → Outside → List Ua × ℕ
uag_hold_others ual hold_other_calls call out =
    if hold_other_calls then hold_found ual (first_other ual call) out true else (ual, 0)

-- `uag_call_find`: nothing for no id.
unfoldable call_in : List Ua → List ℕ → Option Call
call_in [] id = none
call_in (ua ∷ ual) id =
    let later = call_in ual id in
    elim (call_find_id ua.calls id) [ none ↦ later | some call ↦ some call ]

unfoldable uag_call_find : List Ua → List ℕ → Option Call
uag_call_find ual id = if is_empty id then none else call_in ual id

-- `uag_filter_calls`: the calls in the order in which the list handler gets them, from the tail of
-- each agent's list.
unfoldable filter_tail : (Call → Bool) → List Call → List Call
filter_tail matches [] = []
filter_tail matches (call ∷ calls) =
    filter_tail matches calls ++ (if matches call then call ∷ [] else [])

unfoldable uag_filter_calls : (Call → Bool) → List Ua → List Call
uag_filter_calls matches [] = []
uag_filter_calls matches (ua ∷ ual) = filter_tail matches ua.calls ++ uag_filter_calls matches ual

-- `uag_call_count`; the sum fits.
unfoldable uag_call_count : List Ua → ℕ
uag_call_count [] = 0
uag_call_count (ua ∷ ual) = length ua.calls + uag_call_count ual
