-- ===== src/Call/Quiet.antt =====
-- src/call.c: the operations that leave the other side's hold and the subscription of a transfer
-- alone.
use baresip.Prelude.{ℕ, ◌≡◌, ◌∙◌, Bool, Option, arith}
use baresip.Stream.{SdpDir}
use baresip.Call.{Call, CallState, Output, Bevent, say, Outside, VidMode, call_set_mdir}
use baresip.Call.Streams.{
  Secured, call_apply_sdp, update_streams, call_update_media, update_media, call_modify,
  set_established_mdir, send_invite, resume_setup, mnat_handler, secure_media, menc_event_handler,
}
use baresip.Call.Control.{
  early_mdir, send_progress, call_progress_dir, call_progress, send_answer, call_answer, call_hold,
  set_hold, call_set_video_ldir, call_set_video_dir, delayed_answer_handler, send_dtmf_info,
  call_send_digit,
}
use baresip.Call.Steps.{last_hold, refers, finals}

-- What the invariants of Notices and the state machine are about.
abbrev pub view : Call → CallState × (Bool × (Bool × (Bool × (Bool × (ℕ × ℕ)))))
view call = (
  call.state,
  (
    call.got_offer,
    (call.remote_hold, (call.not_, (last_hold call.log, (refers call.log, finals call.log)))),
  ),
)

view-call_update_media :
    (call : Call) (out : Outside) → view (call_update_media call out).0 ≡ view call
unfolding call_update_media call_apply_sdp update_streams last_hold refers finals
view-call_update_media call out = ground (arith)

pub view-update_media : (call : Call) (out : Outside) → view (update_media call out).0 ≡ view call
unfolding update_media last_hold refers finals
view-update_media call out = ground (
  arith,
  view-call_update_media call out,
  view-call_update_media (say call (Output.emit Bevent.remote_sdp)) out,
)

pub view-call_modify : (call : Call) (out : Outside) → view (call_modify call out).0 ≡ view call
unfolding call_modify last_hold refers finals
view-call_modify call out = ground (
  arith,
  view-call_update_media call out,
  view-call_update_media (say (say call (Output.emit Bevent.local_sdp)) Output.sess_modify) out,
)

view-send_invite : (call : Call) (out : Outside) → view (send_invite call out).0 ≡ view call
unfolding send_invite last_hold refers finals
view-send_invite call out = ground (arith)

view-send_answer :
    (call : Call) (out : Outside) (scode : ℕ) → view (send_answer call out scode).0 ≡ view call
unfolding send_answer last_hold refers finals
view-send_answer call out scode = ground (arith)

pub view-call_answer :
    (call : Call) (out : Outside) (scode : ℕ) (vmode : VidMode)
    → view (call_answer call out scode vmode).0 ≡ view call
unfolding call_answer call_apply_sdp send_answer last_hold refers finals
view-call_answer call out scode vmode = ground (arith)

view-early_mdir :
    (call : Call) (out : Outside) (a v : SdpDir) → view (early_mdir call out a v) ≡ view call
unfolding early_mdir call_set_mdir last_hold refers finals
view-early_mdir call out a v = ground arith

view-send_progress : (call : Call) (out : Outside) → view (send_progress call out).0 ≡ view call
unfolding send_progress call_update_media call_apply_sdp update_streams last_hold refers finals
view-send_progress call out = ground arith

pub view-call_progress_dir :
    (call : Call) (out : Outside) (a : SdpDir) (v : SdpDir)
    → view (call_progress_dir call out a v).0 ≡ view call
unfolding call_progress_dir
view-call_progress_dir call out a v =
    view-send_progress (early_mdir call out a v) out ∙ view-early_mdir call out a v

pub view-call_progress : (call : Call) (out : Outside) → view (call_progress call out).0 ≡ view call
unfolding call_progress
view-call_progress call out = view-call_progress_dir call out _ _

pub view-call_hold :
    (call : Call) (out : Outside) (hold : Bool) → view (call_hold call out hold).0 ≡ view call
unfolding call_hold set_hold call_modify call_update_media call_apply_sdp update_streams last_hold
    refers finals
view-call_hold call out hold = ground (arith)

pub view-call_set_video_dir :
    (call : Call) (out : Outside) (dir : SdpDir)
    → view (call_set_video_dir call out dir).0 ≡ view call
unfolding call_set_video_dir call_set_video_ldir call_modify call_update_media call_apply_sdp
    update_streams last_hold refers finals
view-call_set_video_dir call out dir = ground (arith)

pub view-call_send_digit :
    (call : Call) (out : Outside) (t : Bool) (key : ℕ)
    → view (call_send_digit call out t key).0 ≡ view call
unfolding call_send_digit send_dtmf_info last_hold refers finals
view-call_send_digit call out t key = ground (arith)

pub view-set_established_mdir :
    (call : Call) (out : Outside) → view (set_established_mdir call out) ≡ view call
unfolding set_established_mdir call_set_mdir call_modify call_update_media call_apply_sdp
    update_streams last_hold refers finals
view-set_established_mdir call out = ground (arith)

pub view-mnat_handler :
    (call : Call) (out : Outside) (err : ℕ) (scode : ℕ)
    → view (mnat_handler call out err scode) ≡ view call
unfolding mnat_handler resume_setup send_invite call_modify call_update_media call_apply_sdp
    update_streams last_hold refers finals
view-mnat_handler call out err scode = ground (arith)

pub view-menc_event_handler :
    (call : Call) (out : Outside) (m : Option Secured)
    → view (menc_event_handler call out m) ≡ view call
unfolding menc_event_handler secure_media last_hold refers finals
view-menc_event_handler call out m = ground (arith)

pub view-delayed_answer_handler :
    (call : Call) (out : Outside) → view (delayed_answer_handler call out) ≡ view call
unfolding delayed_answer_handler call_answer call_apply_sdp send_answer last_hold refers finals
view-delayed_answer_handler call out = ground (arith)
