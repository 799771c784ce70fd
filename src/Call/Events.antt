-- ===== src/Call/Events.antt =====
-- src/call.c: digits that are heard, the end of a digit, a redirection, and the RTP timeout that
-- the user agent sets.
use baresip.Prelude.{ℕ, Bool, false, if◌then◌else◌}
use baresip.Call.{Call, Output, Bevent, say}
use baresip.Call.Control.{keycode_rel}

-- `audio_event_handler`: a digit in the audio, or its end.
unfoldable pub audio_event_handler : Call → ℕ → Bool → Call
audio_event_handler call key ended =
    if call.dtmfh then say call (Output.dtmf (if ended then keycode_rel else key)) else call

-- `dtmfend_handler`, of the timer `tmr_dtmf`.
unfoldable pub dtmfend_handler : Call → Call
dtmfend_handler call =
    let fired : Call = record call { tmr_dtmf = false } in
    if call.dtmfh then say fired (Output.dtmf keycode_rel) else fired

-- `redirect_handler`.
unfoldable pub redirect_handler : Call → Call
redirect_handler call = say call (Output.emit Bevent.redirect)

-- `call_enable_rtp_timeout`.
unfoldable pub call_enable_rtp_timeout : Call → ℕ → Call
call_enable_rtp_timeout call timeout_ms = record call { rtp_timeout_ms = timeout_ms }
