-- ===== src/Call/Control.antt =====
-- src/call.c: what the user does with a call: connect, hang up, progress, answer, hold, directions
-- and digits.
use baresip.Prelude.{
  ℕ, Bool, true, false, ◌&&◌, ◌||◌, not, Option, none, some, List, ◌∷◌, ◌==◌, leb, if◌then◌else◌,
}
use baresip.Stream.{
  Stream, SdpDir, inactive, recvonly, sendrecv, dir_and, dir_eq, stream_set_ldir, stream_hold,
}
use baresip.Call.{
  Call, CallState, Outside, Output, CallEvent, Bevent, AnswerMode, VidMode, DtmfMode, say,
  set_state, call_event_handler, on_stream, call_stream_stop, call_set_mdir, is_incoming, einval,
  eagain, mdir_or,
}
use baresip.Call.Streams.{call_modify, call_update_media, call_apply_sdp, is_ready, send_invite}

-- `call_notify_sipfrag`; a final status ends the subscription. Without a subscription libre has
-- nobody to notify.
unfoldable pub call_notify_sipfrag : Call → ℕ → Call
call_notify_sipfrag call scode =
    let notified : Call = record call {
      not_ = not (leb 200 scode);
      log = Output.notify scode ∷ call.log;
    } in
    if call.not_ then notified else call

-- `if (call->not) call_notify_sipfrag(...)`.
unfoldable pub notify_transferor : Call → ℕ → Call
notify_transferor call scode = if call.not_ then call_notify_sipfrag call scode else call

-- `call_connect`, from the parsed address on. `out.strdup` is the result of building the strings.
unfoldable pub call_connect : Call → Outside → List ℕ → Call × ℕ
call_connect call out id =
    let started : Call =
      call_event_handler (record call { outgoing = true; id = some id; state = CallState.outgoing })
        CallEvent.ev_outgoing in
    let allocated : Call = record started { audio = some out.new_audio; video = out.new_video } in
    if not (out.strdup == 0)
    then (record call { outgoing = true; id = some id }, out.strdup)
    else if not call.acc_mnat
    then send_invite started out
    else if not (out.alloc_streams == 0)
    then (started, out.alloc_streams)
    else (call_set_mdir allocated out call.estadir call.estvdir, 0)

-- `call_modify_nosdp`.
unfoldable pub call_modify_nosdp : Call → Outside → Call × ℕ
call_modify_nosdp call out =
    if call.sess then (say call Output.sess_modify_nosdp, out.sipsess) else (call, einval)

-- `call_hangupf`: how the session is ended. An incoming call that is not answered is rejected.
unfoldable pub end_session : Call → ℕ → Call
end_session call scode =
    let dropped : Call = notify_transferor call 487 in
    let drop : Call = record dropped { sess = false; log = Output.sess_drop ∷ dropped.log } in
    let reject : Output = Output.sess_reject (if scode == 0 then 486 else scode) in
    if not (is_incoming call.state)
    then drop
    else if call.answered
    then say call Output.sess_abort
    else say call reject

unfoldable pub call_hangup : Call → Outside → ℕ → Call
call_hangup call out scode =
    call_stream_stop (set_state (end_session call scode) CallState.terminated) out

-- `call_progress_dir` up to the session description, and from there on.
unfoldable pub early_mdir : Call → Outside → SdpDir → SdpDir → Call
early_mdir call out adir vdir =
    let stopped : Call = record call { tmr_inv = false } in
    if dir_eq adir call.estadir && dir_eq vdir call.estvdir
    then stopped
    else call_set_mdir stopped out adir vdir

unfoldable pub send_progress : Call → Outside → Call × ℕ
send_progress call out =
    let sent : Call = record call {
      progr_queued = out.sipsess == eagain;
      log = Output.sess_progress ∷ call.log;
    } in
    if not (out.sdp_encode == 0)
    then (call, out.sdp_encode)
    else if not (out.sipsess == 0)
    then (sent, out.sipsess)
    else if call.got_offer
    then call_update_media (say sent (Output.emit Bevent.local_sdp)) out
    else (sent, 0)

unfoldable pub call_progress_dir : Call → Outside → SdpDir → SdpDir → Call × ℕ
call_progress_dir call out adir vdir = send_progress (early_mdir call out adir vdir) out

-- The directions of `call_progress` in each answer mode.
abbrev early_adir : AnswerMode → SdpDir
early_adir AnswerMode.early = sendrecv
early_adir AnswerMode.early_audio = recvonly
early_adir AnswerMode.early_video = inactive
early_adir AnswerMode.manual = inactive
early_adir AnswerMode.auto = inactive

abbrev early_vdir : AnswerMode → SdpDir
early_vdir AnswerMode.early = sendrecv
early_vdir AnswerMode.early_audio = inactive
early_vdir AnswerMode.early_video = recvonly
early_vdir AnswerMode.manual = inactive
early_vdir AnswerMode.auto = inactive

-- `call_progress`.
unfoldable pub call_progress : Call → Outside → Call × ℕ
call_progress call out =
    call_progress_dir call out (dir_and (early_adir call.answermode) (mdir_or call.audio sendrecv))
      (dir_and (early_vdir call.answermode) (mdir_or call.video sendrecv))

-- `call_answer` from the session description on; `err` is that of applying the offer.
unfoldable pub send_answer : Call → Outside → ℕ → Call × ℕ
send_answer call out scode =
    let emitted : Call = say call (Output.emit Bevent.local_sdp) in
    let sent : Call = say emitted (Output.sess_answer scode) in
    let answered : Call = record sent { answered = true; ans_queued = false } in
    if not (out.sdp_encode == 0)
    then (emitted, out.sdp_encode)
    else if not (out.sipsess == 0)
    then (sent, out.sipsess)
    else if call.got_offer && is_ready out call.video
    then (say answered Output.video_update, 0)
    else (answered, 0)

abbrev drop_video : VidMode → Option Stream → Option Stream
drop_video VidMode.vid_off strm = none
drop_video VidMode.vid_on strm = strm

unfoldable pub call_answer : Call → Outside → ℕ → VidMode → Call × ℕ
call_answer call out scode vmode =
    let stopped : Call = record call { tmr_answ = false } in
    let call' : Call = record stopped { video = drop_video vmode call.video } in
    let (applied, err) = call_apply_sdp call' out in
    if not call.sess
    then (call, einval)
    else if not (is_incoming call.state)
    then (stopped, einval)
    else if out.awaiting_prack
    then (stopped, eagain)
    else if not call.got_offer
    then send_answer call' out scode
    else if err == 0
    then send_answer applied out scode
    else (applied, err)

-- `hold == call->on_hold`.
abbrev pub same : Bool → Bool → Bool
same true b = b
same false b = not b

-- The change that `call_hold` makes to the streams, and the whole.
unfoldable pub set_hold : Call → Bool → Call
set_hold call hold = record call {
  on_hold = hold;
  audio = on_stream (λ s. stream_hold s hold) call.audio;
  video = on_stream (λ s. stream_hold s hold) call.video;
}

unfoldable pub call_hold : Call → Outside → Bool → Call × ℕ
call_hold call out hold =
    if not call.sess
    then (call, einval)
    else if same hold call.on_hold
    then (call, 0)
    else call_modify (set_hold call hold) out

-- `call_set_audio_ldir`, `call_set_video_ldir`.
unfoldable pub call_set_audio_ldir : Call → SdpDir → Call
call_set_audio_ldir call dir = record call {
  audio = on_stream (λ s. stream_set_ldir s dir) call.audio;
}

unfoldable pub call_set_video_ldir : Call → SdpDir → Call
call_set_video_ldir call dir = record call {
  video = on_stream (λ s. stream_set_ldir s dir) call.video;
}

-- `call_set_video_dir`.
unfoldable pub call_set_video_dir : Call → Outside → SdpDir → Call × ℕ
call_set_video_dir call out dir =
    call_modify (call_set_video_ldir (record call { estvdir = dir }) dir) out

-- `call_start_answtmr`.
unfoldable pub call_start_answtmr : Call → Call
call_start_answtmr call = record call { tmr_answ = true }

-- `delayed_answer_handler`, of the timer `tmr_answ`.
unfoldable pub delayed_answer_handler : Call → Outside → Call
delayed_answer_handler call out =
    let fired : Call = record call { tmr_answ = false } in
    let answered = call_answer fired out 200 VidMode.vid_on in
    if out.awaiting_prack then record fired { ans_queued = true } else answered.0

-- `send_dtmf_info`: the characters of a telephone keypad.
abbrev is_dtmf_key : ℕ → Bool
is_dtmf_key key =
    (leb 48 key && leb key 57)
    || (leb 97 key && leb key 100)
    || (leb 65 key && leb key 68)
    || key == 42
    || key == 35

unfoldable pub send_dtmf_info : Call → Outside → ℕ → Call × ℕ
send_dtmf_info call out key =
    if is_dtmf_key key then (say call Output.sess_info, out.sipsess) else (call, einval)

-- `call_send_digit`: by INFO or as a telephone event. `KEYCODE_REL` is the release of a key.
abbrev pub keycode_rel : ℕ
keycode_rel = 4

abbrev by_info : DtmfMode → Bool → Bool
by_info DtmfMode.sip_info has_telev = true
by_info DtmfMode.dtmf_auto has_telev = not has_telev
by_info DtmfMode.rtp_event has_telev = false

unfoldable pub call_send_digit : Call → Outside → Bool → ℕ → Call × ℕ
call_send_digit call out has_telev key =
    if not (by_info call.dtmfmode has_telev)
    then (say call (Output.telephone_event key), out.audio_send_digit)
    else if key == keycode_rel
    then (call, 0)
    else send_dtmf_info call out key
