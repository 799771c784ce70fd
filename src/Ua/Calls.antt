-- ===== src/Ua/Calls.antt =====
-- src/ua.c: the calls of a user agent: which one an operation is for, answer, hold and hang-up.
use baresip.Prelude.{
  ℕ, zero, suc, Bool, true, ◌&&◌, not, Option, none, some, List, [], ◌∷◌, ◌==◌, if◌then◌else◌,
  get_elem?, set,
}
use baresip.Call.{Call, Outside as CallOutside, VidMode, is_established, is_incoming}
use baresip.Call.Control.{call_answer, call_hold, call_hangup}
use baresip.Ua.{Ua, call_closed}

-- The place of the first and of the last call that matches.
abbrev pub next_call : Option ℕ → Option ℕ
next_call none = none
next_call (some i) = some (suc i)

unfoldable pub first_at : (Call → Bool) → List Call → Option ℕ
first_at matches [] = none
first_at matches (call ∷ calls) =
    let later = next_call (first_at matches calls) in if matches call then some 0 else later

unfoldable pub last_at : (Call → Bool) → List Call → Option ℕ
last_at matches [] = none
last_at matches (call ∷ calls) = elim (last_at matches calls) [
  | some i ↦ some (suc i)
  | none ↦ if matches call then some 0 else none
]

abbrev pub is_active : Call → Bool
is_active call = is_established call.state && not call.on_hold

-- `ua_find_call_onhold` and `ua_find_call_state` search from the tail, `ua_find_active_call` from
-- the head.
unfoldable pub ua_find_call_onhold : Ua → Option ℕ
ua_find_call_onhold ua = last_at (λ call. call.on_hold) ua.calls

unfoldable ua_find_incoming : Ua → Option ℕ
ua_find_incoming ua = last_at (λ call. is_incoming call.state) ua.calls

unfoldable ua_find_established : Ua → Option ℕ
ua_find_established ua = last_at (λ call. is_established call.state) ua.calls

unfoldable pub ua_find_active_call : Ua → Option ℕ
ua_find_active_call ua = first_at is_active ua.calls

-- An operation on the call at a place.
unfoldable pub on_call {ℓ} : {B : Type ℓ} → Ua → ℕ → (Call → Call × B) → B → Ua × B
on_call ua i f missing = elim (get_elem? ua.calls i) [
  | none ↦ (ua, missing)
  | some call ↦ (record ua { calls = set ua.calls i ((f call).0) }, (f call).1)
]

abbrev pub enoent : ℕ
enoent = 2

-- `ua_answer`: the given call, or the last incoming one.
unfoldable ua_answer : Ua → Option ℕ → CallOutside → VidMode → Ua × ℕ
ua_answer ua call out vmode =
    let answer : ℕ → Ua × ℕ = λ i. on_call ua i (λ c. call_answer c out 200 vmode) enoent in
    elim call [
      | some i ↦ answer i
      | none ↦ elim (ua_find_incoming ua) [ none ↦ (ua, enoent) | some i ↦ answer i ]
    ]

-- `ua_hold_answer`: first the last established call is held.
unfoldable ua_hold_answer : Ua → Option ℕ → CallOutside → CallOutside → VidMode → Ua × ℕ
ua_hold_answer ua call hold_out out vmode =
    let chosen : Option ℕ = elim call [ none ↦ ua_find_incoming ua | some i ↦ some i ] in
    let held : Ua × ℕ = elim (ua_find_established ua) [
      | none ↦ (ua, 0)
      | some i ↦ on_call ua i (λ c. call_hold c hold_out true) 0
    ] in
    elim chosen [
      | none ↦ (ua, enoent)
      | some i ↦ if held.1 == 0 then ua_answer held.0 (some i) out vmode else held
    ]

-- The list without the element at a place.
abbrev remove_at {ℓ} : {A : Type ℓ} → List A → ℕ → List A
remove_at [] i = []
remove_at (x ∷ xs) zero = xs
remove_at (x ∷ xs) (suc i) = x ∷ remove_at xs i

-- `ua_call`: the current call is the last one.
unfoldable ua_call : Ua → Option ℕ
ua_call ua = last_at (λ call. true) ua.calls

-- `ua_hangupf`: the given call, or the current one; its object goes. The answer is what it became.
unfoldable ua_hangup : Ua → Option ℕ → CallOutside → ℕ → Ua × Option Call
ua_hangup ua call out scode =
    let chosen : Option ℕ = elim call [ none ↦ ua_call ua | some i ↦ some i ] in
    elim chosen [
      | none ↦ (ua, none)
      | some i ↦ elim (get_elem? ua.calls i) [
        | none ↦ (ua, none)
        | some c ↦ (
          record ua { calls = remove_at ua.calls i; log = call_closed ∷ ua.log },
          some (call_hangup c out scode),
        )
      ]
    ]
