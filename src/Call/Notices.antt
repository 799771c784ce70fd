-- ===== src/Call/Notices.antt =====
-- src/call.c: what the log of a call says of the other side's hold and of the notifications of a
-- transfer, over whatever the steps of a call are.
use baresip.Prelude.{
  ℕ, ◌≡◌, ◌≤◌, ◌+◌, Bool, true, false, Option, List, [], ◌∷◌, ◌==◌, if◌then◌else◌, arith,
}
use baresip.Stream.{SdpDir}
use baresip.Call.{
  Call, Outside, VidMode, call_stream_stop, call_timer_start, call_set_mdir,
  call_set_media_direction, call_set_media_estdir,
}
use baresip.Call.Streams.{
  send_invite, call_modify, mnat_handler, menc_event_handler, set_established_mdir, decode_sdp,
  update_media, update_streams, invite_timeout, audio_error_handler, media_error_handler,
  stream_error_handler, stream_mnatconn_handler,
}
use baresip.Call.Control.{
  call_connect, call_progress_dir, call_hold, call_set_video_dir, call_send_digit,
  delayed_answer_handler, notify_transferor, call_notify_sipfrag, end_session, call_hangup,
  call_modify_nosdp, call_set_audio_ldir, call_set_video_ldir, call_start_answtmr, call_answer,
  call_progress,
}
use baresip.Call.Events.{
  audio_event_handler, dtmfend_handler, redirect_handler, call_enable_rtp_timeout,
}
use baresip.Call.Session.{
  Answer, Invite, audio_rdir, detect_hold_resume, hold_change, set_remote_hold, encode_reply,
  sipsess_offer_handler, note_answer, sipsess_answer_handler, start_rtp_timeout,
  sipsess_estab_handler, sipsess_info_handler, prack_handler, sipsess_progr_handler,
  sipsess_desc_handler, close_replaced, accept_session, check_offer, accept_replaces, call_accept,
}
use baresip.Call.Transfer.{
  sipsess_refer_handler, sipnot_close_handler, sipsub_close_handler, sipsub_notify_handler,
  call_transfer, xfer_cleanup, close_status, sipsess_close_handler,
}
use baresip.Call.Steps.{Step, step, run, last_hold, refers, finals}
use baresip.Call.Quiet.{
  view, view-update_media, view-call_modify, view-call_answer, view-call_progress_dir,
  view-call_progress, view-call_hold, view-call_set_video_dir, view-call_send_digit,
  view-set_established_mdir, view-mnat_handler, view-menc_event_handler,
  view-delayed_answer_handler,
}

-- The log agrees with the flag of the other side's hold, and no more transfers were answered by a
-- final status than accepted; one that is still open is not among the
-- answered, and `k` is the number of subscriptions that the call came with.
abbrev Told : ℕ → Call → Type 0
Told k call =
    (call.remote_hold ≡ last_hold call.log)
    × (finals call.log + (if call.not_ then 1 else 0) ≤ refers call.log + k)

module _ (k : ℕ) where
  view-Told : (a b : Call) → view b ≡ view a → Told k a → Told k b
  view-Told a b e h = ground arith

  Told-if :
      (b : Bool) (x y : Call × ℕ) → Told k (x.0) → Told k (y.0) → Told k ((if b then x else y).0)
  Told-if true x y p q = p
  Told-if false x y p q = q

  connect-Told :
      (call : Call) (out : Outside) (id : List ℕ)
      → Told k call
      → Told k (call_connect call out id).0
  unfolding call_connect send_invite call_set_mdir last_hold finals refers
  connect-Told call out id h = ground arith

  hangup-Told :
      (call : Call) (out : Outside) (scode : ℕ) → Told k call → Told k (call_hangup call out scode)
  unfolding call_hangup call_stream_stop end_session notify_transferor call_notify_sipfrag last_hold
      finals refers
  hangup-Told call out scode h = ground arith

  detect-Told :
      (call : Call) (dir : SdpDir) (is_offer : Bool)
      → Told k call
      → Told k (detect_hold_resume call dir is_offer)
  unfolding detect_hold_resume set_remote_hold hold_change last_hold finals refers
  detect-Told call dir is_offer h = ground arith

  offer-Told :
      (call : Call) (out : Outside) (has_body : Bool)
      → Told k call
      → Told k (sipsess_offer_handler call out has_body).0
  unfolding sipsess_offer_handler encode_reply decode_sdp last_hold finals refers
  offer-Told call out has_body h =
      let decoded : Call = decode_sdp (record call { got_offer = true }) out in
      let detected : Call = detect_hold_resume decoded (audio_rdir call) true in
      let told = detect-Told decoded (audio_rdir call) true h in
      ground (arith, told, view-update_media detected out)

  note_answer-Told :
      (call : Call) (out : Outside) (msg : Answer)
      → Told k call
      → Told k (decode_sdp (note_answer call msg) out)
  unfolding note_answer decode_sdp last_hold finals refers
  note_answer-Told call out msg h = ground arith

  answer-Told :
      (call : Call) (out : Outside) (msg : Answer)
      → Told k call
      → Told k (sipsess_answer_handler call out msg).0
  unfolding sipsess_answer_handler decode_sdp last_hold finals refers
  answer-Told call out msg h =
      let decoded : Call = decode_sdp (note_answer call msg) out in
      let detected : Call = detect_hold_resume decoded (audio_rdir call) false in
      let told = note_answer-Told call out msg h in
      let updated = update_media detected out in
      Told-if (out.sdp_decode == 0) updated (decoded, out.sdp_decode)
        (view-Told detected (updated.0) (view-update_media detected out)
          (detect-Told decoded (audio_rdir call) false told))
        told

  estab-Told : (call : Call) (out : Outside) → Told k call → Told k (sipsess_estab_handler call out)
  unfolding sipsess_estab_handler update_streams start_rtp_timeout call_timer_start
      notify_transferor call_notify_sipfrag last_hold finals refers
  estab-Told call out h = ground arith

  prack-Told : (call : Call) (out : Outside) → Told k call → Told k (prack_handler call out)
  unfolding prack_handler
  prack-Told call out h =
      ground (arith, view-call_answer call out 200 VidMode.vid_on, view-call_progress call out)

  progress-Told :
      (call : Call) (out : Outside) (scode : ℕ) (has_sdp : Bool)
      → Told k call
      → Told k (sipsess_progr_handler call out scode has_sdp)
  unfolding sipsess_progr_handler decode_sdp call_stream_stop last_hold finals refers
  progress-Told call out scode has_sdp h = ground arith

  desc-Told : (call : Call) (out : Outside) → Told k call → Told k (sipsess_desc_handler call out).0
  unfolding sipsess_desc_handler call_set_mdir last_hold finals refers
  desc-Told call out h = ground arith

  accept-Told :
      (call : Call) (out : Outside) (id : List ℕ) (msg : Invite)
      → Told k call
      → Told k (call_accept call out id msg).0.0
  unfolding call_accept check_offer accept_replaces accept_session decode_sdp last_hold finals
      refers
  accept-Told call out id msg h = ground arith

  refer-Told :
      (call : Call) (out : Outside) (r : Bool)
      → Told k call
      → Told k (sipsess_refer_handler call out r)
  unfolding sipsess_refer_handler call_notify_sipfrag last_hold finals refers
  refer-Told call out r h = ground arith

  close-Told :
      (call xcall : Call) (out : Outside) (err : ℕ) (msg : Option ℕ)
      → Told k call
      → Told k (sipsess_close_handler call xcall out err msg).0
  unfolding sipsess_close_handler close_status call_stream_stop notify_transferor
      call_notify_sipfrag last_hold finals refers
  close-Told call xcall out err msg h = ground arith

  step-Told : (call : Call) (s : Step) → Told k call → Told k (step call s)
  unfolding step call_modify_nosdp call_transfer call_set_media_direction call_set_media_estdir
      call_set_mdir call_set_audio_ldir call_set_video_ldir call_start_answtmr sipsess_info_handler
      sipnot_close_handler sipsub_close_handler sipsub_notify_handler audio_error_handler
      media_error_handler stream_error_handler invite_timeout close_replaced xfer_cleanup
      call_notify_sipfrag stream_mnatconn_handler audio_event_handler dtmfend_handler
      redirect_handler call_enable_rtp_timeout call_stream_stop last_hold finals refers
  step-Told call (Step.connects out id) h = connect-Told call out id h
  step-Told call (Step.hangs_up out scode) h = hangup-Told call out scode h
  step-Told call (Step.progresses out) h =
      view-Told call ((call_progress call out).0) (view-call_progress call out) h
  step-Told call (Step.progresses_dir out a v) h =
      view-Told call ((call_progress_dir call out a v).0) (view-call_progress_dir call out a v) h
  step-Told call (Step.answers out scode vmode) h =
      view-Told call ((call_answer call out scode vmode).0) (view-call_answer call out scode vmode)
        h
  step-Told call (Step.holds out hold) h =
      view-Told call ((call_hold call out hold).0) (view-call_hold call out hold) h
  step-Told call (Step.modifies out) h =
      view-Told call ((call_modify call out).0) (view-call_modify call out) h
  step-Told call (Step.modifies_nosdp out) h = ground arith
  step-Told call (Step.transfers out) h = ground arith
  step-Told call (Step.sets_video_dir out dir) h =
      view-Told call ((call_set_video_dir call out dir).0) (view-call_set_video_dir call out dir) h
  step-Told call (Step.sets_direction out a v) h = ground arith
  step-Told call (Step.sets_audio_ldir dir) h = ground arith
  step-Told call (Step.sets_video_ldir dir) h = ground arith
  step-Told call (Step.presses out has_telev key) h =
      view-Told call ((call_send_digit call out has_telev key).0)
        (view-call_send_digit call out has_telev key) h
  step-Told call Step.starts_answtmr h = ground arith
  step-Told call (Step.accepts out id msg) h = accept-Told call out id msg h
  step-Told call (Step.gets_offer out has_body) h = offer-Told call out has_body h
  step-Told call (Step.gets_answer out msg) h = answer-Told call out msg h
  step-Told call (Step.gets_progress out scode has_sdp) h = progress-Told call out scode has_sdp h
  step-Told call (Step.gets_estab out) h = estab-Told call out h
  step-Told call (Step.gets_prack out) h = prack-Told call out h
  step-Told call (Step.wants_desc out) h = desc-Told call out h
  step-Told call (Step.gets_info msg) h = ground arith
  step-Told call (Step.gets_refer out has_refer_to) h = refer-Told call out has_refer_to h
  step-Told call (Step.gets_close xcall out err msg) h = close-Told call xcall out err msg h
  step-Told call (Step.not_closes err msg) h = ground arith
  step-Told call (Step.sub_closes err msg) h = ground arith
  step-Told call (Step.sub_notifies sc) h = ground arith
  step-Told call (Step.mnat_reports out err scode) h =
      view-Told call (mnat_handler call out err scode) (view-mnat_handler call out err scode) h
  step-Told call (Step.menc_reports out secure) h =
      view-Told call (menc_event_handler call out secure) (view-menc_event_handler call out secure)
        h
  step-Told call (Step.audio_fails out err) h = ground arith
  step-Told call (Step.media_fails out) h = ground arith
  step-Told call (Step.stream_fails out) h = ground arith
  step-Told call Step.invite_expires h = ground arith
  step-Told call (Step.answer_expires out) h =
      view-Told call (delayed_answer_handler call out) (view-delayed_answer_handler call out) h
  step-Told call (Step.reinvite_expires out) h =
      view-Told call (set_established_mdir call out) (view-set_established_mdir call out) h
  step-Told call (Step.is_replaced out) h = ground arith
  step-Told call Step.xcall_closes h = ground arith
  step-Told call (Step.notifies scode) h = ground arith
  step-Told call (Step.mnat_connects out mencs err is_audio) h = ground arith
  step-Told call (Step.hears_digit key ended) h = ground arith
  step-Told call Step.ends_digit h = ground arith
  step-Told call Step.is_redirected h = ground arith
  step-Told call (Step.sets_rtp_timeout timeout_ms) h = ground arith

  run-Told : (call : Call) (steps : List Step) → Told k call → Told k (run call steps)
  unfolding run
  run-Told call [] h = h
  run-Told call (s ∷ steps) h = run-Told (step call s) steps (step-Told call s h)

-- Whatever steps happen to a new call: it is marked as held by the other side exactly if the last
-- of the events HOLD and RESUME that it emitted is HOLD.
pub run-remote_hold :
    (call : Call) (steps : List Step)
    → call.remote_hold ≡ false
    → call.log ≡ []
    → (run call steps).remote_hold ≡ last_hold (run call steps).log
unfolding last_hold finals refers
run-remote_hold call steps held fresh = (run-Told 1 call steps (ground arith)).0
