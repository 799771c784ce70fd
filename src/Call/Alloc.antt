-- ===== src/Call/Alloc.antt =====
-- src/call.c: a new call, which gets a line number and joins the list of its user agent.
use baresip.Prelude.{
  ℕ, ◌*◌, ◌≡◌, ◌⊎◌, inl, inr, sym, subst, Bool, true, false, ◌&&◌, ◌||◌, not, Option, none, some,
  List, [], ◌∷◌, ◌++◌, arith, Option-cases, ◌==◌, if◌then◌else◌, Bool-cases, ==_iff,
}
use baresip.Stream.{sendrecv, inactive}
use baresip.Call.{Call, CallState, AnswerMode, DtmfMode, VidMode}
use baresip.Call.Lines.{assign_linenum, unlink, call_set_current}
use baresip.Call.Numbers.{Taken, DistinctLines, assign_linenum-free}

-- What `call_alloc` is given: the account, the parameters, the INVITE (whether it has an SDP and
-- supports Replaces) and the call that this one comes from.
pub record Alloc : Type 0 where
  pub acc_mnat : Bool
  pub answermode : AnswerMode
  pub dtmfmode : DtmfMode
  pub vidmode : VidMode
  pub has_vidcodec : Bool
  pub has_vidsrc : Bool
  pub has_vidisp : Bool
  pub msg : Option (Bool × Bool)
  pub xcall : Option Call
  pub local_timeout : ℕ
  pub rtp_timeout : ℕ

-- The results of the strings, of the session description, of the media NAT and of the encryption.
pub record AllocResults : Type 0 where
  pub strdup : ℕ
  pub sdp : ℕ
  pub mnat : ℕ
  pub menc : ℕ

abbrev is_vid_on : VidMode → Bool
is_vid_on VidMode.vid_off = false
is_vid_on VidMode.vid_on = true

-- The call before it has a line number.
unfoldable pub fresh_call : Alloc → Call
fresh_call prm =
    let use_video =
      is_vid_on prm.vidmode && prm.has_vidcodec && (prm.has_vidsrc || prm.has_vidisp) in
    record {
      state = CallState.idle;
      sess = false;
      sub = false;
      not_ = elim prm.xcall [ none ↦ false | some x ↦ x.not_ ];
      xcall = elim prm.xcall [ none ↦ none | some x ↦ some x.linenum ];
      audio = none;
      video = none;
      id = none;
      tmr_inv = false;
      tmr_answ = false;
      tmr_reinv = false;
      tmr_dtmf = false;
      remote_hold = false;
      time_start = 0;
      time_conn = 0;
      time_stop = 0;
      outgoing = false;
      answered = false;
      got_offer = elim prm.msg [ none ↦ false | some (body, replaces) ↦ body ];
      on_hold = false;
      ans_queued = false;
      progr_queued = false;
      mnat_wait = true;
      scode = 0;
      supports_replaces = elim prm.msg [ none ↦ false | some (body, replaces) ↦ replaces ];
      local_timeout = prm.local_timeout;
      rtp_timeout_ms = prm.rtp_timeout * 1000;
      linenum = 0;
      estadir = sendrecv;
      estvdir = if use_video then sendrecv else inactive;
      use_video = use_video;
      acc_mnat = prm.acc_mnat;
      answermode = prm.answermode;
      dtmfmode = prm.dtmfmode;
      dtmfh = false;
      log = [];
    }

-- The calls after the original one refers to the new one.
unfoldable pub set_xcall : List Call → Option ℕ → ℕ → List Call
set_xcall [] from linenum = []
set_xcall (call ∷ calls) none linenum = call ∷ calls
set_xcall (call ∷ calls) (some from) linenum =
    let rest = set_xcall calls (some from) linenum in
    record call { xcall = if call.linenum == from then some linenum else call.xcall } ∷ rest

-- `call_alloc`: the list with the new call at its tail, or as it was.
unfoldable pub call_alloc : List Call → Alloc → AllocResults → List Call × ℕ
call_alloc calls prm results =
    let call = fresh_call prm in
    let add : Option ℕ → List Call × ℕ = λ line. elim line [
      | none ↦ (calls, 2)
      | some n ↦ (set_xcall (calls ++ (record call { linenum = n } ∷ [])) call.xcall n, 0)
    ] in
    if not (results.strdup == 0)
    then (calls, results.strdup)
    else if not (results.sdp == 0)
    then (calls, results.sdp)
    else if prm.acc_mnat && not (results.mnat == 0)
    then (calls, results.mnat)
    else if not (results.menc == 0)
    then (calls, results.menc)
    else add (assign_linenum calls)

-- The list changes: a call is allocated, ends, or becomes the current one.
pub data ListStep : Type 0 where
  allocates : Alloc → AllocResults → ListStep
  ends : ℕ → ListStep
  sets_current : Call → ListStep

unfoldable pub run_list : List Call → List ListStep → List Call
run_list calls [] = calls
run_list calls (allocates prm results ∷ steps) = run_list ((call_alloc calls prm results).0) steps
run_list calls (ends n ∷ steps) = run_list (unlink calls n) steps
run_list calls (sets_current call ∷ steps) = run_list (call_set_current calls call) steps

append-Taken : (xs ys : List Call) (n : ℕ) → Taken (xs ++ ys) n → Taken xs n ⊎ Taken ys n
append-Taken [] ys n t = inr t
append-Taken (x ∷ xs) ys n (inl e) = inl (inl e)
append-Taken (x ∷ xs) ys n (inr t) = elim (append-Taken xs ys n t) [
  | inl t' ↦ inl (inr t')
  | inr t' ↦ inr t'
]

append-DistinctLines :
    (calls : List Call) (call : Call)
    → DistinctLines calls
    → (Taken calls call.linenum → ⊥)
    → DistinctLines (calls ++ (call ∷ []))
append-DistinctLines [] call d free = (λ t. t, tt)
append-DistinctLines (x ∷ xs) call (new, d) free = (
  λ t. elim (append-Taken xs (call ∷ []) x.linenum t) [
    | inl t' ↦ new t'
    | inr (inl e) ↦ free (inl (sym e))
    | inr (inr none_left) ↦ none_left
  ],
  append-DistinctLines xs call d (λ t. free (inr t)),
)

set_xcall-Taken :
    (calls : List Call) (from : Option ℕ) (line n : ℕ)
    → Taken (set_xcall calls from line) n
    → Taken calls n
unfolding set_xcall
set_xcall-Taken [] from line n t = t
set_xcall-Taken (x ∷ xs) none line n t = t
set_xcall-Taken (x ∷ xs) (some f) line n (inl e) = inl e
set_xcall-Taken (x ∷ xs) (some f) line n (inr t) = inr (set_xcall-Taken xs (some f) line n t)

set_xcall-DistinctLines :
    (calls : List Call) (from : Option ℕ) (line : ℕ)
    → DistinctLines calls
    → DistinctLines (set_xcall calls from line)
unfolding set_xcall
set_xcall-DistinctLines [] from line d = d
set_xcall-DistinctLines (x ∷ xs) none line d = d
set_xcall-DistinctLines (x ∷ xs) (some f) line (new, d) = (
  λ t. new (set_xcall-Taken xs (some f) line x.linenum t),
  set_xcall-DistinctLines xs (some f) line d,
)

unlink_here : (x : Call) (xs : List Call) (k : ℕ) → x.linenum == k ≡ true → unlink (x ∷ xs) k ≡ xs
unfolding unlink
unlink_here x xs k e = rw e

unlink_next :
    (x : Call) (xs : List Call) (k : ℕ)
    → x.linenum == k ≡ false
    → unlink (x ∷ xs) k ≡ x ∷ unlink xs k
unfolding unlink
unlink_next x xs k e = rw e

unlink_sub : (calls : List Call) (k n : ℕ) → Taken (unlink calls k) n → Taken calls n
unfolding unlink
unlink_sub [] k n t = t
unlink_sub (x ∷ xs) k n t = elim (Bool-cases (x.linenum == k)) [
  | inl same ↦ inr (subst (λ l. Taken l n) (unlink_here x xs k same) t)
  | inr other ↦ elim (subst (λ l. Taken l n) (unlink_next x xs k other) t) [
    | inl e ↦ inl e
    | inr t' ↦ inr (unlink_sub xs k n t')
  ]
]

unlink-DistinctLines :
    (calls : List Call) (k : ℕ)
    → DistinctLines calls
    → DistinctLines (unlink calls k) × (Taken (unlink calls k) k → ⊥)
unfolding unlink
unlink-DistinctLines [] k d = (d, λ t. t)
unlink-DistinctLines (x ∷ xs) k (new, d) = elim (Bool-cases (x.linenum == k)) [
  | inl same ↦ rw same (d, λ t. new (subst (Taken xs) (sym ((==_iff x.linenum k).0 same)) t))
  | inr other ↦
      let (d', gone) = unlink-DistinctLines xs k d in
      rw other (
        (λ t. new (unlink_sub xs k x.linenum t), d'),
        λ t. elim t [ inl e ↦ absurd (ground (arith, e, other)) | inr t' ↦ gone t' ],
      )
]

alloc-DistinctLines :
    (calls : List Call) (prm : Alloc) (results : AllocResults)
    → DistinctLines calls
    → DistinctLines (call_alloc calls prm results).0
unfolding call_alloc
alloc-DistinctLines calls prm results d = elim (Option-cases (assign_linenum calls)) [
  | inl full ↦ ground (arith, full, d)
  | inr (n, e) ↦
      let call : Call = record (fresh_call prm) { linenum = n } in
      let added = append-DistinctLines calls call d (assign_linenum-free calls n e) in
      let linked = set_xcall-DistinctLines (calls ++ (call ∷ [])) (fresh_call prm).xcall n added in
      rw e ground (arith, d, linked)
]

-- However calls are allocated, ended and made the current one, no two calls in the list have the
-- same line number, if the list was such before.
pub run_list-DistinctLines :
    (calls : List Call) (steps : List ListStep)
    → DistinctLines calls
    → DistinctLines (run_list calls steps)
unfolding run_list call_set_current
run_list-DistinctLines calls [] d = d
run_list-DistinctLines calls (ListStep.allocates prm results ∷ steps) d =
    run_list-DistinctLines (call_alloc calls prm results).0 steps
      (alloc-DistinctLines calls prm results d)
run_list-DistinctLines calls (ListStep.ends n ∷ steps) d =
    run_list-DistinctLines (unlink calls n) steps (unlink-DistinctLines calls n d).0
run_list-DistinctLines calls (ListStep.sets_current call ∷ steps) d =
    let (d', gone) = unlink-DistinctLines calls call.linenum d in
    run_list-DistinctLines (unlink calls call.linenum ++ (call ∷ [])) steps
      (append-DistinctLines (unlink calls call.linenum) call d' gone)
