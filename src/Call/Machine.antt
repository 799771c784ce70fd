-- ===== src/Call/Machine.antt =====
-- src/call.c: the state machine of a call, without what hangs on it.
use baresip.Prelude.{
  ◌≡◌, ◌∙◌, refl, ap, Bool, true, false, ◌&&◌, ◌||◌, not, ◌==◌, if◌then◌else◌, Option, none, some,
  List, [], ◌∷◌, arith,
}
use baresip.Call.{
  Call, CallState, Outside, VidMode, call_set_mdir, is_transfer, call_stream_stop, call_timer_start,
  call_set_media_direction, call_set_media_estdir,
}
use baresip.Call.Streams.{
  decode_sdp, update_streams, send_invite, audio_error_handler, media_error_handler,
  stream_error_handler, invite_timeout, stream_mnatconn_handler,
}
use baresip.Call.Control.{
  call_connect, call_set_audio_ldir, call_set_video_ldir, call_hangup, call_modify_nosdp,
  call_start_answtmr, call_notify_sipfrag, notify_transferor, end_session,
}
use baresip.Call.Events.{
  audio_event_handler, dtmfend_handler, redirect_handler, call_enable_rtp_timeout,
}
use baresip.Call.Session.{
  Answer, Invite, audio_rdir, detect_hold_resume, hold_change, set_remote_hold, encode_reply,
  sipsess_offer_handler, note_answer, sipsess_answer_handler, start_rtp_timeout,
  sipsess_estab_handler, sipsess_info_handler, prack_handler, sipsess_progr_handler,
  sipsess_desc_handler, close_replaced, accept_session, check_offer, accept_replaces, call_accept,
}
use baresip.Call.Transfer.{
  sipsess_refer_handler, sipnot_close_handler, sipsub_close_handler, sipsub_notify_handler,
  call_transfer, xfer_cleanup, close_status, sipsess_close_handler,
}
use baresip.Call.Steps.{Step, step, run}
use baresip.Call.Quiet.{
  view, view-update_media, view-call_answer, view-call_progress, view-call_progress_dir,
  view-call_hold, view-call_modify, view-call_set_video_dir, view-call_send_digit,
  view-mnat_handler, view-menc_event_handler, view-delayed_answer_handler,
  view-set_established_mdir,
}

-- What the machine knows of a call: its state, and whether the last session description was an
-- offer.
pub record Phase : Type 0 where
  pub state : CallState
  pub got_offer : Bool

abbrev pub phase : Call → Phase
phase call = record { state = call.state; got_offer = call.got_offer }

-- An INVITE is accepted by a session: the streams are there, an offer can be read and has the right
-- addresses and a common codec, a call to be replaced exists, and libre accepts.
abbrev finds_replaced : Option (Option Call) → Bool
finds_replaced none = true
finds_replaced (some none) = false
finds_replaced (some (some rcall)) = true

abbrev is_accepted : Bool → Outside → Invite → Bool
is_accepted got_offer out msg =
    out.alloc_streams == 0
    && (not got_offer || (out.sdp_decode == 0 && msg.valid_family && msg.common_codecs))
    && finds_replaced msg.replaces
    && out.sipsess == 0
    && out.strdup == 0

-- The state machine: the state after a step, as a function of the state before and of what happens.
abbrev pub next : Phase → Step → Phase
next p (Step.connects out id) =
    if out.strdup == 0 then record p { state = CallState.outgoing } else p
next p (Step.accepts out id msg) =
    if is_accepted p.got_offer out msg then record p { state = CallState.incoming } else p
next p (Step.gets_offer out has_body) = record p { got_offer = has_body || p.got_offer }
next p (Step.gets_answer out msg) = record p { got_offer = false }
next p (Step.gets_progress out scode has_sdp) =
    if scode == 180
    then record p { state = CallState.ringing }
    else if scode == 183
    then record p { state = CallState.early }
    else p
next p (Step.gets_estab out) = record p { state = CallState.established }
next p (Step.gets_refer out has_refer_to) =
    if has_refer_to && (out.sipevent == 0) then record p { state = CallState.transfer } else p
next p Step.xcall_closes =
    if is_transfer p.state then record p { state = CallState.established } else p
next p (Step.hangs_up out scode) = record p { state = CallState.terminated }
next p (Step.stream_fails out) = record p { state = CallState.terminated }
next p s = p

unfoldable pub trace : Phase → List Step → Phase
trace p [] = p
trace p (s ∷ steps) = trace (next p s) steps

view-phase : (a b : Call) → view a ≡ view b → phase a ≡ phase b
view-phase a b e = ground arith

estab_phase :
    (call : Call) (out : Outside)
    → phase (sipsess_estab_handler call out) ≡ next (phase call) (Step.gets_estab out)
unfolding sipsess_estab_handler update_streams start_rtp_timeout call_timer_start notify_transferor
    call_notify_sipfrag
estab_phase call out = ground arith

offer_phase :
    (call : Call) (out : Outside) (has_body : Bool)
    → phase (sipsess_offer_handler call out has_body).0
      ≡ next (phase call) (Step.gets_offer out has_body)
unfolding sipsess_offer_handler encode_reply decode_sdp detect_hold_resume set_remote_hold
    hold_change
offer_phase call out has_body =
    let decoded : Call = decode_sdp (record call { got_offer = true }) out in
    let detected : Call = detect_hold_resume decoded (audio_rdir call) true in
    ground (arith, view-update_media detected out)

answer_phase :
    (call : Call) (out : Outside) (msg : Answer)
    → phase (sipsess_answer_handler call out msg).0 ≡ next (phase call) (Step.gets_answer out msg)
unfolding sipsess_answer_handler note_answer decode_sdp detect_hold_resume set_remote_hold
    hold_change
answer_phase call out msg =
    let decoded : Call = decode_sdp (note_answer call msg) out in
    let detected : Call = detect_hold_resume decoded (audio_rdir call) false in
    ground (arith, view-update_media detected out)

prack_phase : (call : Call) (out : Outside) → phase (prack_handler call out) ≡ phase call
unfolding prack_handler
prack_phase call out =
    ground (arith, view-call_answer call out 200 VidMode.vid_on, view-call_progress call out)

step-next : (call : Call) (s : Step) → phase (step call s) ≡ next (phase call) s
unfolding step call_hangup call_modify_nosdp call_transfer call_set_media_direction
    call_set_media_estdir call_set_mdir call_set_audio_ldir call_set_video_ldir call_start_answtmr
    sipsess_info_handler sipnot_close_handler sipsub_close_handler sipsub_notify_handler
    audio_error_handler media_error_handler stream_error_handler invite_timeout close_replaced
    call_stream_stop call_accept check_offer accept_replaces accept_session decode_sdp
    sipsess_progr_handler sipsess_desc_handler sipsess_refer_handler call_notify_sipfrag
    sipsess_close_handler close_status notify_transferor end_session xfer_cleanup call_connect
    send_invite stream_mnatconn_handler audio_event_handler dtmfend_handler redirect_handler
    call_enable_rtp_timeout
step-next call (Step.connects out id) = ground arith
step-next call (Step.hangs_up out scode) = ground arith
step-next call (Step.progresses out) =
    view-phase (step call (Step.progresses out)) call (view-call_progress call out)
step-next call (Step.progresses_dir out a v) =
    view-phase (step call (Step.progresses_dir out a v)) call (view-call_progress_dir call out a v)
step-next call (Step.answers out scode vmode) =
    view-phase (step call (Step.answers out scode vmode)) call
      (view-call_answer call out scode vmode)
step-next call (Step.holds out hold) =
    view-phase (step call (Step.holds out hold)) call (view-call_hold call out hold)
step-next call (Step.modifies out) =
    view-phase (step call (Step.modifies out)) call (view-call_modify call out)
step-next call (Step.modifies_nosdp out) = ground arith
step-next call (Step.transfers out) = ground arith
step-next call (Step.sets_video_dir out dir) =
    view-phase (step call (Step.sets_video_dir out dir)) call (view-call_set_video_dir call out dir)
step-next call (Step.sets_direction out a v) = ground arith
step-next call (Step.sets_audio_ldir dir) = ground arith
step-next call (Step.sets_video_ldir dir) = ground arith
step-next call (Step.presses out has_telev key) =
    view-phase (step call (Step.presses out has_telev key)) call
      (view-call_send_digit call out has_telev key)
step-next call Step.starts_answtmr = ground arith
step-next call (Step.accepts out id msg) = ground arith
step-next call (Step.gets_offer out has_body) = offer_phase call out has_body
step-next call (Step.gets_answer out msg) = answer_phase call out msg
step-next call (Step.gets_progress out scode has_sdp) = ground arith
step-next call (Step.gets_estab out) = estab_phase call out
step-next call (Step.gets_prack out) = prack_phase call out
step-next call (Step.wants_desc out) = ground arith
step-next call (Step.gets_info msg) = ground arith
step-next call (Step.gets_refer out has_refer_to) = ground arith
step-next call (Step.gets_close xcall out err msg) = ground arith
step-next call (Step.not_closes err msg) = ground arith
step-next call (Step.sub_closes err msg) = ground arith
step-next call (Step.sub_notifies sc) = ground arith
step-next call (Step.mnat_reports out err scode) =
    view-phase (step call (Step.mnat_reports out err scode)) call
      (view-mnat_handler call out err scode)
step-next call (Step.menc_reports out secure) =
    view-phase (step call (Step.menc_reports out secure)) call
      (view-menc_event_handler call out secure)
step-next call (Step.audio_fails out err) = ground arith
step-next call (Step.media_fails out) = ground arith
step-next call (Step.stream_fails out) = ground arith
step-next call Step.invite_expires = ground arith
step-next call (Step.answer_expires out) =
    view-phase (step call (Step.answer_expires out)) call (view-delayed_answer_handler call out)
step-next call (Step.reinvite_expires out) =
    view-phase (step call (Step.reinvite_expires out)) call (view-set_established_mdir call out)
step-next call (Step.is_replaced out) = ground arith
step-next call Step.xcall_closes = ground arith
step-next call (Step.notifies scode) = ground arith
step-next call (Step.mnat_connects out mencs err is_audio) = ground arith
step-next call (Step.hears_digit key ended) = ground arith
step-next call Step.ends_digit = ground arith
step-next call Step.is_redirected = ground arith
step-next call (Step.sets_rtp_timeout timeout_ms) = ground arith

-- The detailed call refines the state machine: whatever steps happen to it, it is in exactly the
-- state that the machine computes from the steps, without the streams, the timers, the session and
-- the subscriptions.
pub phase-run :
    (call : Call) (steps : List Step) → phase (run call steps) ≡ trace (phase call) steps
unfolding run trace
phase-run call [] = refl
phase-run call (s ∷ steps) =
    phase-run (step call s) steps ∙ ap (λ p. trace p steps) (step-next call s)
