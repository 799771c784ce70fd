-- ===== src/Call/Transfer.antt =====
-- src/call.c: transfers, by REFER and its subscription on either side, and the end of a session,
-- which undoes a transfer.
use baresip.Prelude.{
  ℕ, Bool, false, ◌&&◌, ◌||◌, not, Option, none, some, ◌∷◌, ◌==◌, leb, if◌then◌else◌,
}
use baresip.Call.{
  Call, CallState, Outside, Output, CallEvent, say, set_state, call_event_handler, call_stream_stop,
  is_transfer,
}
use baresip.Call.Control.{call_notify_sipfrag, notify_transferor}

-- `sipsess_refer_handler`: with a Refer-To header or not. A subscription from before is dropped.
unfoldable pub sipsess_refer_handler : Call → Outside → Bool → Call
sipsess_refer_handler call out has_refer_to =
    let accepted : Call = record call {
      not_ = out.sipevent == 0;
      log = Output.refer_accept ∷ call.log;
    } in
    let trying : Call = call_notify_sipfrag accepted 100 in
    if not has_refer_to
    then say call (Output.reply 400)
    else if out.sipevent == 0
    then call_event_handler (set_state trying CallState.transfer) CallEvent.ev_transfer
    else accepted

-- `sipnot_close_handler` and `sipsub_close_handler`: the event of a failure, if it is one. The
-- notifier reports an error, the subscriber does not.
abbrev is_refusal : Option ℕ → Bool
is_refusal none = false
is_refusal (some scode) = leb 300 scode

unfoldable pub sipnot_close_handler : Call → ℕ → Option ℕ → Call
sipnot_close_handler call err msg =
    let closed : Call = record call { not_ = false } in
    if not (err == 0) || is_refusal msg
    then call_event_handler closed CallEvent.ev_transfer_failed
    else closed

unfoldable pub sipsub_close_handler : Call → ℕ → Option ℕ → Call
sipsub_close_handler call err msg =
    let closed : Call = record call { sub = false } in
    if (err == 0) && is_refusal msg
    then call_event_handler closed CallEvent.ev_transfer_failed
    else closed

-- `sipsub_notify_handler`: the status in the body, if it can be read.
unfoldable pub sipsub_notify_handler : Call → Option ℕ → Call
sipsub_notify_handler call none = say call (Output.reply 400)
sipsub_notify_handler call (some sc) =
    let replied : Call = say call (Output.reply 200) in
    if leb 300 sc
    then call_event_handler replied CallEvent.ev_transfer_failed
    else if leb 200 sc
    then call_event_handler replied CallEvent.ev_closed
    else replied

-- `call_transfer` from the normalized URI on, and `call_replace_transfer`. A subscription from
-- before is dropped.
unfoldable pub call_transfer : Call → Outside → Call × ℕ
call_transfer call out =
    (record call { sub = out.sipevent == 0; log = Output.refer_send ∷ call.log }, out.sipevent)

-- `xfer_cleanup`: what becomes of the call that asked for this one.
unfoldable pub xfer_cleanup : Call → Call
xfer_cleanup xcall =
    let back : Call = set_state xcall CallState.established in
    if is_transfer xcall.state
    then record back { xcall = none; log = Output.event CallEvent.ev_transfer_failed ∷ xcall.log }
    else record xcall { xcall = none }

-- `sipsess_close_handler`: the session ended, with an error or a message or neither. `xcall` is
-- what `call.xcall` refers to.
unfoldable pub close_status : Call → ℕ → Option ℕ → Call
close_status call err msg =
    let noted : Option ℕ → Call = λ m. elim m [
      | none ↦ call
      | some scode ↦ notify_transferor (record call { scode = scode }) scode
    ] in
    if err == 0 then noted msg else notify_transferor call 500

unfoldable pub sipsess_close_handler : Call → Call → Outside → ℕ → Option ℕ → Call × Call
sipsess_close_handler call xcall out err msg =
    let closed : Call =
      call_event_handler (call_stream_stop (close_status call err msg) out) CallEvent.ev_closed in
    let xcall' : Call = elim call.xcall [ none ↦ xcall | some _ ↦ xfer_cleanup xcall ] in
    (closed, xcall')
