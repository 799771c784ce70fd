-- ===== src/Call/Tests.antt =====
-- src/call.c: runs on concrete calls.
use baresip.Prelude.{
  ℕ, suc, ◌≤◌, ◌<◌, ◌≡◌, ◌⊎◌, refl, true, false, none, some, List, [], ◌∷◌, arith, if◌then◌else◌,
}
use baresip.Stream.{recvonly, sendrecv, dir_and, Media, Stream}
use baresip.Call.{
  Call, CallState, CallEvent, Output, AnswerMode, DtmfMode, VidMode, Outside, is_transfer,
}
use baresip.Call.Control.{call_hold, call_hangup, delayed_answer_handler}
use baresip.Call.Session.{prack_handler}
use baresip.Call.Transfer.{sipsess_close_handler}
use baresip.Call.Lines.{assign_linenum}
use baresip.Call.Alloc.{Alloc, AllocResults, ListStep, fresh_call, run_list, run_list-DistinctLines}
use baresip.Call.Steps.{Step, run, last_hold}
use baresip.Call.Machine.{phase, trace, phase-run}
use baresip.Call.Notices.{run-remote_hold}
use baresip.Call.Holding.{wanted, offered, IsHeld, call_hold-resume}
use baresip.Call.Ending.{endings, closes, events, call_hangup-ends, close_handler-closes}
use baresip.Call.Queue.{answers, delayed_answer-prack}
use baresip.Call.Numbers.{Taken, DistinctLines, assign_linenum-smallest}

abbrev line : Media
line = record {
  ldir = sendrecv;
  rdir = sendrecv;
  disabled = false;
  has_media = true;
  rformat = some (8, true);
}

abbrev strm : Stream
strm = record {
  ldir = sendrecv;
  sdp = line;
  hold = false;
  terminated = false;
  mnat_wait = false;
  mnat_connected = false;
  menc_wait = false;
  menc_secure = false;
  raddr_isset = true;
  pt_enc = none;
  tx_enabled = false;
  rx_enabled = false;
  rtp_timeout = 0;
  tmr_rtp = false;
  ts_last = 0;
  errorh = true;
}

-- libre agrees to everything, and the peer offers what `decoded` says.
abbrev decoding : (Media → Media) → Outside
decoding decoded = record {
  sdp_media_dir = λ m. dir_and m.ldir m.rdir;
  refresh_allowed = true;
  awaiting_prack = false;
  sdp_decode = 0;
  decoded_audio = decoded;
  decoded_video = λ m. m;
  sdp_encode = 0;
  raddr_isset = true;
  start_menc = none;
  mnat_update = none;
  bevent = 0;
  sipsess = 0;
  set_redirect = 0;
  set_prack = 0;
  sipevent = 0;
  audio_update = 0;
  video_update = 0;
  audio_send_digit = 0;
  alloc_streams = 0;
  new_audio = strm;
  new_video = none;
  has_display = false;
  strdup = 0;
  time = 1000;
  jiffies = 5000;
}

abbrev agreed : Outside
agreed = decoding (λ m. m)

abbrev waiting : Outside
waiting = record agreed { awaiting_prack = true }

-- The peer holds the call.
abbrev holding : Outside
holding = decoding (λ m. record m { rdir = recvonly })

abbrev prm : Alloc
prm = record {
  acc_mnat = false;
  answermode = AnswerMode.auto;
  dtmfmode = DtmfMode.dtmf_auto;
  vidmode = VidMode.vid_off;
  has_vidcodec = false;
  has_vidsrc = false;
  has_vidisp = false;
  msg = some (true, false);
  xcall = none;
  local_timeout = 120;
  rtp_timeout = 0;
}

abbrev results : AllocResults
results = record { strdup = 0; sdp = 0; mnat = 0; menc = 0 }

abbrev new_call : Call
new_call = fresh_call prm

abbrev incoming_call : Call
incoming_call = record new_call {
  state = CallState.incoming;
  sess = true;
  audio = some strm;
  tmr_inv = true;
  linenum = 1;
}

-- An outgoing call that the peer holds, resumes and transfers, and that is then hung up.
abbrev steps : List Step
steps =
    Step.connects agreed (7 ∷ [])
    ∷ Step.wants_desc agreed
    ∷ Step.gets_estab agreed
    ∷ Step.gets_offer holding true
    ∷ Step.gets_refer agreed true
    ∷ Step.hangs_up agreed 0
    ∷ []

phase-run_example : phase (run new_call steps) ≡ trace (phase new_call) steps
phase-run_example = phase-run new_call steps

run-remote_hold_example : (run new_call steps).remote_hold ≡ last_hold (run new_call steps).log
unfolding fresh_call
run-remote_hold_example = run-remote_hold new_call steps refl refl

call_hold-resume_example :
    let held = (call_hold incoming_call agreed true).0 in
    let resumed = (call_hold held agreed false).0 in
    (held.on_hold ≡ true)
    × IsHeld (wanted incoming_call.audio) (offered held.audio)
    × IsHeld (wanted incoming_call.video) (offered held.video)
    × (resumed.on_hold ≡ false)
    × (offered resumed.audio ≡ wanted incoming_call.audio)
    × (offered resumed.video ≡ wanted incoming_call.video)
unfolding fresh_call
call_hold-resume_example = call_hold-resume incoming_call agreed agreed refl refl

call_hangup-ends_example :
    let call' = call_hangup incoming_call agreed 0 in
    (call'.state ≡ CallState.terminated)
    × (endings call'.log ≡ suc (endings incoming_call.log))
    × (events call'.log ≡ events incoming_call.log)
    × (call'.tmr_inv ≡ false)
    × ((incoming_call.state ≡ CallState.incoming) ⊎ ((call'.sess ≡ false) × (call'.not_ ≡ false)))
call_hangup-ends_example = call_hangup-ends incoming_call agreed 0

abbrev asking_call : Call
asking_call = record new_call { state = CallState.transfer; sess = true; linenum = 2 }

abbrev asked_call : Call
asked_call = record new_call {
  state = CallState.outgoing;
  sess = true;
  linenum = 3;
  xcall = some 2;
}

close_handler-closes_example :
    let (call', xcall') = sipsess_close_handler asked_call asking_call agreed 0 (some 486) in
    (closes call'.log ≡ suc (closes asked_call.log))
    × (call'.tmr_inv ≡ false)
    × (xcall'.xcall ≡ none)
    × (xcall'.state
        ≡ (if is_transfer asking_call.state then CallState.established else asking_call.state))
    × (xcall'.log ≡ (
        if is_transfer asking_call.state
        then Output.event CallEvent.ev_transfer_failed ∷ asking_call.log
        else asking_call.log))
close_handler-closes_example =
    close_handler-closes asked_call asking_call agreed 0 (some 486) 2 refl

delayed_answer-prack_example :
    let later = delayed_answer_handler incoming_call waiting in
    let answered = prack_handler later agreed in
    (answers later.log ≡ answers incoming_call.log)
    × (later.ans_queued ≡ true)
    × (answered.answered ≡ true)
    × (answers answered.log ≡ suc (answers incoming_call.log))
    × (prack_handler answered waiting ≡ answered)
unfolding fresh_call
delayed_answer-prack_example =
    delayed_answer-prack incoming_call waiting agreed waiting refl refl refl refl
      (refl, refl, refl, refl)

assign_linenum-smallest_example :
    (r : ℕ) × (assign_linenum (incoming_call ∷ asked_call ∷ []) ≡ some r)
    × (1 ≤ r)
    × (r < 256)
    × (Taken (incoming_call ∷ asked_call ∷ []) r → ⊥)
    × ((m : ℕ) → 1 ≤ m → m < r → Taken (incoming_call ∷ asked_call ∷ []) m)
assign_linenum-smallest_example =
    assign_linenum-smallest (incoming_call ∷ asked_call ∷ []) (omega arith)

run_list-DistinctLines_example : DistinctLines (
    run_list [] (
      ListStep.allocates prm results
      ∷ ListStep.allocates prm results
      ∷ ListStep.ends 1
      ∷ ListStep.allocates prm results
      ∷ []))
run_list-DistinctLines_example =
    run_list-DistinctLines []
      (ListStep.allocates prm results
        ∷ ListStep.allocates prm results
        ∷ ListStep.ends 1
        ∷ ListStep.allocates prm results
        ∷ [])
      tt
