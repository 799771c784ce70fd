-- ===== src/Call/Streams.antt =====
-- src/call.c: the media of a call: applying a session description, updating the streams, sending a
-- new offer, and the handlers of media NAT, media encryption and errors of the media.
use baresip.Prelude.{
  ℕ, Bool, true, false, ◌&&◌, ◌||◌, not, Option, none, some, ◌∷◌, ◌==◌, if◌then◌else◌,
}
use baresip.Stream.{Stream, stream_is_ready, stream_update, stream_set_secure}
use baresip.Call.{
  Call, CallState, Outside, Output, CallEvent, Bevent, say, call_event_handler, on_stream,
  call_stream_stop, call_set_mdir, call_need_modify,
}
use Prim.Native.Nat.{bit_or}

-- The streams after `sdp_decode`, whatever it returns.
unfoldable pub decode_sdp : Call → Outside → Call
decode_sdp call out = record call {
  audio = on_stream (λ s. record s { sdp = out.decoded_audio s.sdp }) call.audio;
  video = on_stream (λ s. record s { sdp = out.decoded_video s.sdp }) call.video;
}

-- `call_apply_sdp`. Decoding the attributes and starting RTCP change none of these fields; the
-- error of `stream_update` is dropped.
unfoldable pub call_apply_sdp : Call → Outside → Call × ℕ
call_apply_sdp call out =
    let update : Stream → Stream =
      λ s. (stream_update out.sdp_media_dir s out.raddr_isset out.start_menc).0 in
    let err : ℕ = elim out.mnat_update [ none ↦ 0 | some e ↦ e ] in
    (
      record call { audio = on_stream update call.audio; video = on_stream update call.video },
      if call.acc_mnat then err else 0,
    )

-- Is there such a stream, and is it ready?
unfoldable pub is_ready : Outside → Option Stream → Bool
is_ready out none = false
is_ready out (some strm) = stream_is_ready out.sdp_media_dir strm

-- `update_streams`.
unfoldable pub update_streams : Call → Outside → Call × ℕ
update_streams call out =
    let audio_ready = is_ready out call.audio in
    let video_ready = is_ready out call.video in
    (
      record call {
        log =
            (if video_ready then Output.video_update else Output.video_stop)
            ∷ (if audio_ready then Output.audio_update else Output.audio_stop)
            ∷ call.log;
      },
      bit_or (if audio_ready then out.audio_update else 0)
          (if video_ready then out.video_update else 0),
    )

-- `call_update_media`.
unfoldable pub call_update_media : Call → Outside → Call × ℕ
call_update_media call out =
    let (applied, err) = call_apply_sdp call out in
    let (updated, err') = update_streams applied out in (updated, bit_or err err')

-- `update_media`.
unfoldable pub update_media : Call → Outside → Call × ℕ
update_media call out =
    let call' : Call = say call (Output.emit Bevent.remote_sdp) in
    if out.bevent == 0 then call_update_media call' out else (call', out.bevent)

-- `call_modify`: the new offer goes out only while libre allows a refresh.
unfoldable pub call_modify : Call → Outside → Call × ℕ
call_modify call out =
    let emitted : Call = say call (Output.emit Bevent.local_sdp) in
    let sent : Call = say emitted Output.sess_modify in
    if not out.refresh_allowed
    then call_update_media call out
    else if not (out.bevent == 0)
    then (emitted, out.bevent)
    else if not (out.sdp_encode == 0)
    then (emitted, out.sdp_encode)
    else if not (out.sipsess == 0)
    then (sent, out.sipsess)
    else call_update_media sent out

-- `set_established_mdir`, of the timer that starts when the call is established.
unfoldable pub set_established_mdir : Call → Outside → Call
set_established_mdir call out =
    if call_need_modify call
    then (call_modify (call_set_mdir call out call.estadir call.estvdir) out).0
    else call

-- `send_invite`.
unfoldable pub send_invite : Call → Outside → Call × ℕ
send_invite call out =
    let has_streams : Bool = elim call.audio [ none ↦ false | some s ↦ true ] in
    let emitted : Call = if has_streams then say call (Output.emit Bevent.local_sdp) else call in
    let sent : Call = record emitted { log = Output.sess_connect ∷ emitted.log } in
    if has_streams && not (out.bevent == 0)
    then (emitted, out.bevent)
    else if not (out.sipsess == 0)
    then (sent, out.sipsess)
    else if not (out.set_redirect == 0)
    then (record sent { sess = true }, out.set_redirect)
    else if not (out.set_prack == 0)
    then (record sent { sess = true }, out.set_prack)
    else (record sent { sess = true; time_conn = out.time }, 0)

-- The second part of `mnat_handler`: the media NAT is ready, and the call was waiting for it.
unfoldable pub resume_setup : Call → Outside → CallState → Call
resume_setup call out CallState.outgoing = (send_invite call out).0
resume_setup call out CallState.incoming = call_event_handler call CallEvent.ev_incoming
resume_setup call out CallState.idle = call
resume_setup call out CallState.ringing = call
resume_setup call out CallState.early = call
resume_setup call out CallState.established = call
resume_setup call out CallState.terminated = call
resume_setup call out CallState.transfer = call
resume_setup call out CallState.unknown = call

-- `mnat_handler`.
unfoldable pub mnat_handler : Call → Outside → ℕ → ℕ → Call
mnat_handler call out err scode =
    if not (err == 0) || not (scode == 0)
    then call_event_handler call CallEvent.ev_closed
    else if not call.mnat_wait
    then (call_modify call out).0
    else resume_setup (record call { mnat_wait = false }) out call.state

-- `invite_timeout`, of the timer `tmr_inv`.
unfoldable pub invite_timeout : Call → Call
invite_timeout call = call_event_handler (record call { tmr_inv = false }) CallEvent.ev_closed

-- `audio_error_handler`; without an error the source has ended.
unfoldable pub audio_error_handler : Call → Outside → ℕ → Call
audio_error_handler call out err =
    let failed : Call = say call (Output.emit Bevent.audio_error) in
    if err == 0
    then say call (Output.emit Bevent.end_of_file)
    else call_event_handler (call_stream_stop failed out) CallEvent.ev_closed

-- `video_error_handler` and `menc_error_handler`.
unfoldable pub media_error_handler : Call → Outside → Call
media_error_handler call out = call_event_handler (call_stream_stop call out) CallEvent.ev_closed

-- `stream_error_handler`.
unfoldable pub stream_error_handler : Call → Outside → Call
stream_error_handler call out =
    let failed : Call = record call { scode = 701; state = CallState.terminated } in
    call_event_handler (call_stream_stop failed out) CallEvent.ev_closed

-- The media that the parameter of an event of the media encryption names.
pub data Secured : Type 0 where
  audio video neither : Secured

-- `menc_event_handler` of the event `MENC_EVENT_SECURE`.
unfoldable pub secure_media : Call → Outside → Secured → Call
secure_media call out Secured.audio = record call {
  audio = on_stream (λ s. stream_set_secure out.sdp_media_dir s true) call.audio;
  log = Output.audio_update ∷ call.log;
}
secure_media call out Secured.video = record call {
  video = on_stream (λ s. stream_set_secure out.sdp_media_dir s true) call.video;
  log = Output.video_update ∷ call.log;
}
secure_media call out Secured.neither = call

unfoldable pub menc_event_handler : Call → Outside → Option Secured → Call
menc_event_handler call out secure =
    let secured : Call = elim secure [ none ↦ call | some m ↦ secure_media call out m ] in
    call_event_handler secured CallEvent.ev_menc

-- `stream_mnatconn_handler`: the media NAT connected a stream, of audio or of video. `mencs` says
-- that there is a media encryption, `err` is the result of starting it for the stream.
unfoldable pub stream_mnatconn_handler : Call → Outside → Bool → ℕ → Bool → Call
stream_mnatconn_handler call out mencs err is_audio =
    let strm = if is_audio then call.audio else call.video in
    let updated : Call = say call (if is_audio then Output.audio_update else Output.video_update) in
    if mencs
    then (if err == 0 then call else call_event_handler call CallEvent.ev_closed)
    else if is_ready out strm
    then updated
    else call
