-- ===== src/Call/Session.antt =====
-- src/call.c: the handlers that libre's SIP session calls: offers and answers, progress, the
-- established session, INFO, PRACK and the end, and the acceptance of an incoming call.
use baresip.Prelude.{
  ℕ, Bool, true, false, ◌&&◌, ◌||◌, not, Option, none, some, List, ◌∷◌, ◌==◌, leb, ltb,
  if◌then◌else◌,
}
use baresip.Stream.{Stream, SdpDir, inactive, recvonly, dir_eq, stream_enable_rtp_timeout}
use baresip.Call.{
  Call, CallState, Outside, Output, CallEvent, Bevent, VidMode, say, set_state, call_event_handler,
  on_stream, call_stream_stop, call_timer_start, call_set_mdir, is_established, stream_ldir,
}
use baresip.Call.Streams.{decode_sdp, update_media, update_streams}
use baresip.Call.Control.{call_answer, call_progress, notify_transferor}

-- The remote direction of the audio line; libre's getter of no line is inactive.
abbrev pub audio_rdir : Call → SdpDir
audio_rdir call = elim call.audio [ none ↦ inactive | some strm ↦ strm.sdp.rdir ]

-- The remote side does not want to receive: its direction, seen from here, is to receive at most.
abbrev is_hold_dir : SdpDir → Bool
is_hold_dir dir = dir_eq dir recvonly || dir_eq dir inactive

-- `detect_hold_resume`: the event to emit, if any.
unfoldable pub hold_change : Bool → Bool → Bool → Bool → Option Bevent
hold_change is_offer remote_hold before now =
    if is_offer
    then (if now && not before
        then some Bevent.remote_hold
        else if before && not now
        then some Bevent.remote_resume
        else none)
    else if remote_hold && not now
    then some Bevent.remote_resume
    else none

unfoldable pub set_remote_hold : Call → Option Bevent → Call
set_remote_hold call none = call
set_remote_hold call (some Bevent.remote_hold) = record call {
  remote_hold = true;
  log = Output.emit Bevent.remote_hold ∷ call.log;
}
set_remote_hold call (some ev) = record call {
  remote_hold = false;
  log = Output.emit ev ∷ call.log;
}

unfoldable pub detect_hold_resume : Call → SdpDir → Bool → Call
detect_hold_resume call old_rdir is_offer =
    let before = is_hold_dir old_rdir in
    let now = is_hold_dir (audio_rdir call) in
    if is_established call.state
    then set_remote_hold call (hold_change is_offer call.remote_hold before now)
    else call

-- The last part of `sipsess_offer_handler`: encode the answer, or an offer.
unfoldable pub encode_reply : Call → Outside → Call × ℕ
encode_reply call out =
    if out.sdp_encode == 0
    then (say call (Output.emit Bevent.local_sdp), out.bevent)
    else (call, out.sdp_encode)

-- `sipsess_offer_handler` of a request with or without an SDP.
unfoldable pub sipsess_offer_handler : Call → Outside → Bool → Call × ℕ
sipsess_offer_handler call out has_body =
    let decoded : Call = decode_sdp (record call { got_offer = true }) out in
    let (updated, err) = update_media (detect_hold_resume decoded (audio_rdir call) true) out in
    if not has_body
    then encode_reply call out
    else if not (out.sdp_decode == 0)
    then (decoded, out.sdp_decode)
    else if err == 0
    then encode_reply updated out
    else (updated, err)

-- What `sipsess_answer_handler` reads of the response, less bundling.
pub record Answer : Type 0 where
  pub is_invite : Bool
  pub scode : ℕ
  pub replaces : Bool

abbrev is_success : ℕ → Bool
is_success scode = leb 200 scode && ltb scode 300

-- `sipsess_answer_handler` up to the session description, and the whole.
unfoldable pub note_answer : Call → Answer → Call
note_answer call msg =
    let noted : Call = record call {
      supports_replaces = call.supports_replaces || msg.replaces;
      got_offer = false;
    } in
    if msg.is_invite && is_success msg.scode && not (is_established call.state)
    then call_event_handler noted CallEvent.ev_answered
    else noted

unfoldable pub sipsess_answer_handler : Call → Outside → Answer → Call × ℕ
sipsess_answer_handler call out msg =
    let decoded : Call = decode_sdp (note_answer call msg) out in
    if out.sdp_decode == 0
    then update_media (detect_hold_resume decoded (audio_rdir call) false) out
    else (decoded, out.sdp_decode)

-- `sipsess_estab_handler`.
unfoldable pub start_rtp_timeout : Call → Outside → Call
start_rtp_timeout call out =
    let start : Stream → Stream =
      λ s. stream_enable_rtp_timeout s call.rtp_timeout_ms out.jiffies in
    if call.rtp_timeout_ms == 0
    then call
    else record call { audio = on_stream start call.audio; video = on_stream start call.video }

unfoldable pub sipsess_estab_handler : Call → Outside → Call
sipsess_estab_handler call out =
    let estab : Call = set_state call CallState.established in
    let updated : Call = if call.got_offer then (update_streams estab out).0 else estab in
    let timed : Call = start_rtp_timeout (call_timer_start updated out) out in
    let told : Call = notify_transferor timed 200 in
    if is_established call.state
    then call
    else call_event_handler (record told { tmr_reinv = true }) CallEvent.ev_established

-- The content of an INFO request: a DTMF relay, with the character (in upper case) if it is well
-- formed, nothing, or something else.
pub data Info : Type 0 where
  dtmf_relay : Option ℕ → Info
  no_body other_body : Info

-- `sipsess_info_handler`.
unfoldable pub sipsess_info_handler : Call → Info → Call
sipsess_info_handler call (dtmf_relay none) = say call (Output.reply 400)
sipsess_info_handler call (dtmf_relay (some key)) =
    let replied : Call = say call (Output.reply 200) in
    let started : Call = record replied { tmr_dtmf = true } in
    if call.dtmfh then say started (Output.dtmf key) else replied
sipsess_info_handler call no_body = say call (Output.reply 200)
sipsess_info_handler call other_body = say call (Output.reply 488)

-- `prack_handler`.
unfoldable pub prack_handler : Call → Outside → Call
prack_handler call out =
    let answered = call_answer call out 200 VidMode.vid_on in
    let progressed = call_progress call out in
    if call.ans_queued && not call.answered
    then answered.0
    else if call.progr_queued && not call.answered
    then progressed.0
    else call

-- `sipsess_progr_handler`: the body is no SDP, or an SDP that `out.sdp_decode` is the result of.
abbrev progress_state : ℕ → CallState → CallState
progress_state scode state =
    if scode == 180 then CallState.ringing else if scode == 183 then CallState.early else state

unfoldable pub sipsess_progr_handler : Call → Outside → ℕ → Bool → Call
sipsess_progr_handler call out scode has_sdp =
    let decoded : Call = if has_sdp then decode_sdp call out else call in
    let moved : Call = record decoded { state = progress_state scode call.state } in
    if leb scode 100
    then call
    else if has_sdp && (out.sdp_decode == 0)
    then call_event_handler moved CallEvent.ev_progress
    else call_event_handler (call_stream_stop moved out) CallEvent.ev_ringing

-- `sipsess_desc_handler`: libre wants the offer of an outgoing call.
unfoldable pub sipsess_desc_handler : Call → Outside → Call × ℕ
sipsess_desc_handler call out =
    let has_streams : Bool = elim call.audio [ none ↦ false | some s ↦ true ] in
    let allocated : Call = record call { audio = some out.new_audio; video = out.new_video } in
    let offered : Call =
      say (call_set_mdir allocated out call.estadir call.estvdir) (Output.emit Bevent.local_sdp) in
    if has_streams
    then (call, out.sdp_encode)
    else if not (out.alloc_streams == 0)
    then (call, out.alloc_streams)
    else if not (out.bevent == 0)
    then (offered, out.bevent)
    else (offered, out.sdp_encode)

-- `call_accept`: what it finds in the INVITE. `valid` says that the addresses of the offer are of
-- the right family, `codecs` that a codec is common; `replaces` is none without a Replaces header,
-- and then the call that it names, if there is one.
pub record Invite : Type 0 where
  pub valid_family : Bool
  pub common_codecs : Bool
  pub replaces : Option (Option Call)

-- The end of the call that the new one replaces.
unfoldable pub close_replaced : Call → Outside → Call
close_replaced rcall out = call_event_handler (call_stream_stop rcall out) CallEvent.ev_closed

abbrev refuse : Call → ℕ → Call
refuse call scode = call_event_handler (say call (Output.reply scode)) CallEvent.ev_closed

-- `call_accept` from `sipsess_accept` on.
unfoldable pub accept_session : Call → Outside → List ℕ → Call × ℕ
accept_session call out id =
    let accepted : Call = record call { log = Output.sess_accept 180 ∷ call.log } in
    let known : Call = record accepted { sess = true; id = some id; state = CallState.incoming } in
    let timed : Call = record known {
      tmr_inv = known.tmr_inv || not (call.local_timeout == 0);
      estadir = stream_ldir call.audio;
      estvdir = stream_ldir call.video;
    } in
    if not (out.sipsess == 0)
    then (accepted, out.sipsess)
    else if not (out.strdup == 0)
    then (record accepted { sess = true }, out.strdup)
    else if not (out.set_prack == 0)
    then (known, out.set_prack)
    else if call.acc_mnat
    then (timed, 0)
    else (call_event_handler timed CallEvent.ev_incoming, 0)

-- The offer of the INVITE; the answer says whether the call goes on.
unfoldable pub check_offer : Call → Invite → Call × Bool
check_offer call msg =
    let emitted : Call = say call (Output.emit Bevent.remote_sdp) in
    if not call.got_offer
    then (call, true)
    else if not msg.valid_family || not msg.common_codecs
    then (refuse call 488, false)
    else (emitted, true)

-- `call_accept`, with the call that was replaced.
unfoldable pub accept_replaces :
    Call → Outside → List ℕ → Option (Option Call) → (Call × ℕ) × Option Call
accept_replaces call out id none = (accept_session call out id, none)
accept_replaces call out id (some none) = ((refuse call 481, 0), none)
accept_replaces call out id (some (some rcall)) =
    (accept_session call out id, some (close_replaced rcall out))

unfoldable pub call_accept : Call → Outside → List ℕ → Invite → (Call × ℕ) × Option Call
call_accept call out id msg =
    let accepting : Call = record call { outgoing = false } in
    let allocated : Call = record accepting { audio = some out.new_audio; video = out.new_video } in
    let decoded : Call = if call.got_offer then decode_sdp allocated out else allocated in
    let (checked, goes_on) = check_offer decoded msg in
    if not (out.alloc_streams == 0)
    then ((accepting, out.alloc_streams), none)
    else if call.got_offer && not (out.sdp_decode == 0)
    then ((decoded, out.sdp_decode), none)
    else if not goes_on
    then ((checked, 0), none)
    else accept_replaces checked out id msg.replaces
