-- ===== src/Call/Lines.antt =====
-- src/call.c: the list of calls of a user agent: line numbers, lookups and the current call.
use baresip.Prelude.{
  ℕ, zero, suc, ◌+◌, Bool, true, false, ◌&&◌, Option, none, some, List, [], ◌∷◌, ◌++◌, ◌==◌,
  if◌then◌else◌,
}
use baresip.Call.{Call}

-- `CALL_LINENUM_MIN`, `CALL_LINENUM_MAX`.
abbrev linenum_min : ℕ
linenum_min = 1

abbrev linenum_max : ℕ
linenum_max = 256

-- The loop that `call_find_linenum`, `call_find_id` and `call_find_replaces` share.
unfoldable pub find_call : List Call → (Call → Bool) → Option Call
find_call [] matches = none
find_call (call ∷ calls) matches = if matches call then some call else find_call calls matches

-- `call_find_linenum`.
unfoldable pub call_find_linenum : List Call → ℕ → Option Call
call_find_linenum calls linenum = find_call calls (λ call. linenum == call.linenum)

abbrev pub same_text : List ℕ → List ℕ → Bool
same_text [] [] = true
same_text [] (y ∷ ys) = false
same_text (x ∷ xs) [] = false
same_text (x ∷ xs) (y ∷ ys) = (x == y) && same_text xs ys

abbrev has_id : List ℕ → Call → Bool
has_id id call = elim call.id [ none ↦ false | some text ↦ same_text id text ]

-- `call_find_id`, `call_find_id_pl`.
unfoldable pub call_find_id : List Call → List ℕ → Option Call
call_find_id calls id = find_call calls (has_id id)

-- `call_find_replaces`, from the parsed header on: the call-id, and which of the tags are set.
-- `dialog_cmp` and `dialog_cmp_half` are libre's comparisons of a call's dialog with the header.
pub record Replaces : Type 0 where
  pub callid : List ℕ
  pub has_from_tag : Bool
  pub has_to_tag : Bool
  pub dialog_cmp : Call → Bool
  pub dialog_cmp_half : Call → Bool

abbrev pub is_replaced : Replaces → Call → Bool
is_replaced hdr call =
    if hdr.has_from_tag && hdr.has_to_tag && hdr.dialog_cmp call
    then true
    else if hdr.has_to_tag && hdr.dialog_cmp_half call
    then true
    else has_id hdr.callid call

unfoldable call_find_replaces : List Call → Replaces → Option Call
call_find_replaces calls hdr = elim hdr.callid [
  | [] ↦ none
  | _ ∷ _ ↦ find_call calls (is_replaced hdr)
]

-- `assign_linenum`: the loop from `num` on, with `n` numbers left.
unfoldable pub assign_from : List Call → ℕ → ℕ → Option ℕ
assign_from calls num zero = none
assign_from calls num (suc n) =
    let rest = assign_from calls (num + 1) n in
    elim (call_find_linenum calls num) [ none ↦ some num | some _ ↦ rest ]

-- The result is none where the code returns ENOENT.
unfoldable pub assign_linenum : List Call → Option ℕ
assign_linenum calls = assign_from calls linenum_min 255

-- `call_set_current`: the call moves to the end. A call is known by its line number.
unfoldable pub unlink : List Call → ℕ → List Call
unlink [] linenum = []
unlink (call ∷ calls) linenum =
    let rest = unlink calls linenum in if call.linenum == linenum then calls else call ∷ rest

unfoldable pub call_set_current : List Call → Call → List Call
call_set_current calls call = unlink calls call.linenum ++ (call ∷ [])
