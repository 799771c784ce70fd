-- ===== src/Call/Steps.antt =====
-- src/call.c: what happens to a call, as steps, with what one reads off its log.
use baresip.Prelude.{ℕ, suc, Bool, true, false, Option, List, [], ◌∷◌, leb, if◌then◌else◌}
use baresip.Stream.{SdpDir}
use baresip.Call.{Call, Outside, Output, Bevent, VidMode, call_set_media_direction}
use baresip.Call.Streams.{
  Secured, set_established_mdir, mnat_handler, invite_timeout, audio_error_handler,
  media_error_handler, stream_error_handler, menc_event_handler, call_modify,
  stream_mnatconn_handler,
}
use baresip.Call.Control.{
  call_connect, call_modify_nosdp, call_hangup, call_progress, call_progress_dir, call_answer,
  call_hold, call_set_audio_ldir, call_set_video_ldir, call_set_video_dir, call_start_answtmr,
  delayed_answer_handler, call_send_digit, call_notify_sipfrag,
}
use baresip.Call.Events.{
  audio_event_handler, dtmfend_handler, redirect_handler, call_enable_rtp_timeout,
}
use baresip.Call.Session.{
  Answer, Info, Invite, sipsess_offer_handler, sipsess_answer_handler, sipsess_estab_handler,
  sipsess_info_handler, prack_handler, sipsess_progr_handler, sipsess_desc_handler, call_accept,
  close_replaced,
}
use baresip.Call.Transfer.{
  sipsess_refer_handler, sipnot_close_handler, sipsub_close_handler, sipsub_notify_handler,
  call_transfer, xfer_cleanup, sipsess_close_handler,
}

-- Left out are the decoding of the headers for automatic answers, and the statistics of RTP and
-- RTCP, which change none of the fields and are for the listeners only.
-- What the user does, also through the menu, what the session and the subscriptions report, what
-- the media and the timers do, and what the ends of other calls do to this one.
pub data Step : Type 0 where
  connects : Outside → List ℕ → Step
  hangs_up : Outside → ℕ → Step
  progresses : Outside → Step
  progresses_dir : Outside → SdpDir → SdpDir → Step
  answers : Outside → ℕ → VidMode → Step
  holds : Outside → Bool → Step
  modifies modifies_nosdp transfers : Outside → Step
  sets_video_dir : Outside → SdpDir → Step
  sets_direction : Outside → SdpDir → SdpDir → Step
  sets_audio_ldir sets_video_ldir : SdpDir → Step
  presses : Outside → Bool → ℕ → Step
  starts_answtmr : Step
  accepts : Outside → List ℕ → Invite → Step
  gets_offer : Outside → Bool → Step
  gets_answer : Outside → Answer → Step
  gets_progress : Outside → ℕ → Bool → Step
  gets_estab gets_prack wants_desc : Outside → Step
  gets_info : Info → Step
  gets_refer : Outside → Bool → Step
  gets_close : Call → Outside → ℕ → Option ℕ → Step
  not_closes sub_closes : ℕ → Option ℕ → Step
  sub_notifies : Option ℕ → Step
  mnat_reports : Outside → ℕ → ℕ → Step
  menc_reports : Outside → Option Secured → Step
  audio_fails : Outside → ℕ → Step
  media_fails stream_fails : Outside → Step
  invite_expires : Step
  answer_expires reinvite_expires : Outside → Step
  is_replaced : Outside → Step
  xcall_closes : Step
  notifies : ℕ → Step
  mnat_connects : Outside → Bool → ℕ → Bool → Step
  hears_digit : ℕ → Bool → Step
  ends_digit is_redirected : Step
  sets_rtp_timeout : ℕ → Step

unfoldable pub step : Call → Step → Call
step call (connects out id) = (call_connect call out id).0
step call (hangs_up out scode) = call_hangup call out scode
step call (progresses out) = (call_progress call out).0
step call (progresses_dir out a v) = (call_progress_dir call out a v).0
step call (answers out scode vmode) = (call_answer call out scode vmode).0
step call (holds out hold) = (call_hold call out hold).0
step call (modifies out) = (call_modify call out).0
step call (modifies_nosdp out) = (call_modify_nosdp call out).0
step call (transfers out) = (call_transfer call out).0
step call (sets_video_dir out dir) = (call_set_video_dir call out dir).0
step call (sets_direction out a v) = call_set_media_direction call out a v
step call (sets_audio_ldir dir) = call_set_audio_ldir call dir
step call (sets_video_ldir dir) = call_set_video_ldir call dir
step call (presses out has_telev key) = (call_send_digit call out has_telev key).0
step call starts_answtmr = call_start_answtmr call
step call (accepts out id msg) = (call_accept call out id msg).0.0
step call (gets_offer out has_body) = (sipsess_offer_handler call out has_body).0
step call (gets_answer out msg) = (sipsess_answer_handler call out msg).0
step call (gets_progress out scode has_sdp) = sipsess_progr_handler call out scode has_sdp
step call (gets_estab out) = sipsess_estab_handler call out
step call (gets_prack out) = prack_handler call out
step call (wants_desc out) = (sipsess_desc_handler call out).0
step call (gets_info msg) = sipsess_info_handler call msg
step call (gets_refer out has_refer_to) = sipsess_refer_handler call out has_refer_to
step call (gets_close xcall out err msg) = (sipsess_close_handler call xcall out err msg).0
step call (not_closes err msg) = sipnot_close_handler call err msg
step call (sub_closes err msg) = sipsub_close_handler call err msg
step call (sub_notifies sc) = sipsub_notify_handler call sc
step call (mnat_reports out err scode) = mnat_handler call out err scode
step call (menc_reports out secure) = menc_event_handler call out secure
step call (audio_fails out err) = audio_error_handler call out err
step call (media_fails out) = media_error_handler call out
step call (stream_fails out) = stream_error_handler call out
step call invite_expires = invite_timeout call
step call (answer_expires out) = delayed_answer_handler call out
step call (reinvite_expires out) = set_established_mdir call out
step call (is_replaced out) = close_replaced call out
step call xcall_closes = xfer_cleanup call
step call (notifies scode) = call_notify_sipfrag call scode
step call (mnat_connects out mencs err is_audio) =
    stream_mnatconn_handler call out mencs err is_audio
step call (hears_digit key ended) = audio_event_handler call key ended
step call ends_digit = dtmfend_handler call
step call is_redirected = redirect_handler call
step call (sets_rtp_timeout timeout_ms) = call_enable_rtp_timeout call timeout_ms

unfoldable pub run : Call → List Step → Call
run call [] = call
run call (s ∷ steps) = run (step call s) steps

-- Was the last of the events HOLD and RESUME a HOLD?
unfoldable pub last_hold : List Output → Bool
last_hold [] = false
last_hold (Output.emit Bevent.remote_hold ∷ log) = true
last_hold (Output.emit Bevent.remote_resume ∷ log) = false
last_hold (out ∷ log) = last_hold log

-- How many REFER requests were accepted, and how many final notifications were sent.
unfoldable pub refers : List Output → ℕ
refers [] = 0
refers (Output.refer_accept ∷ log) = suc (refers log)
refers (out ∷ log) = refers log

unfoldable pub finals : List Output → ℕ
finals [] = 0
finals (Output.notify scode ∷ log) = let n = finals log in if leb 200 scode then suc n else n
finals (out ∷ log) = finals log
