-- ===== src/Call/Ending.antt =====
-- src/call.c: how a call is established and how it ends.
use baresip.Prelude.{
  ◌⊎◌, ℕ, suc, ◌≡◌, false, Option, none, some, List, [], ◌∷◌, arith, if◌then◌else◌,
}
use baresip.Call.{
  Call, CallState, CallEvent, Outside, Output, call_stream_stop, call_timer_start, is_established,
  is_transfer,
}
use baresip.Call.Streams.{update_streams}
use baresip.Call.Control.{call_notify_sipfrag, notify_transferor, end_session, call_hangup}
use baresip.Call.Session.{Info, sipsess_estab_handler, start_rtp_timeout, sipsess_info_handler}
use baresip.Call.Transfer.{xfer_cleanup, close_status, sipsess_close_handler}

-- Counts in a log: the events of each kind, the ends of the session, and the replies.
unfoldable pub endings : List Output → ℕ
endings [] = 0
endings (Output.sess_abort ∷ log) = suc (endings log)
endings (Output.sess_drop ∷ log) = suc (endings log)
endings (Output.sess_reject scode ∷ log) = suc (endings log)
endings (out ∷ log) = endings log

unfoldable pub replies : List Output → ℕ
replies [] = 0
replies (Output.reply scode ∷ log) = suc (replies log)
replies (out ∷ log) = replies log

unfoldable pub closes : List Output → ℕ
closes [] = 0
closes (Output.event CallEvent.ev_closed ∷ log) = suc (closes log)
closes (out ∷ log) = closes log

-- The events for the event handler and for the listeners.
unfoldable pub events : List Output → List Output
events [] = []
events (Output.event ev ∷ log) = Output.event ev ∷ events log
events (Output.emit ev ∷ log) = Output.emit ev ∷ events log
events (out ∷ log) = events log

unfoldable estabs : List Output → ℕ
estabs [] = 0
estabs (Output.event CallEvent.ev_established ∷ log) = suc (estabs log)
estabs (out ∷ log) = estabs log

-- Hanging up, in whatever state: the call is terminated, its session is ended in exactly one way,
-- no event is raised, the invitation times out no more, and a call that was not incoming keeps
-- neither its session nor the subscription of a transferor.
pub call_hangup-ends :
    (call : Call) (out : Outside) (scode : ℕ)
    → let call' = call_hangup call out scode in
      (call'.state ≡ CallState.terminated)
      × (endings call'.log ≡ suc (endings call.log))
      × (events call'.log ≡ events call.log)
      × (call'.tmr_inv ≡ false)
      × ((call.state ≡ CallState.incoming) ⊎ ((call'.sess ≡ false) × (call'.not_ ≡ false)))
unfolding call_hangup call_stream_stop end_session notify_transferor call_notify_sipfrag endings
    events
call_hangup-ends call out scode = ground arith

-- The session is established once: the handler raises exactly one event of it if the call is not
-- established already, and a second run changes nothing.
estab_handler-once :
    (call : Call) (out out' : Outside)
    → let call' = sipsess_estab_handler call out in
      (call'.state ≡ CallState.established)
      × (estabs call'.log
          ≡ (if is_established call.state then estabs call.log else suc (estabs call.log)))
      × (sipsess_estab_handler call' out' ≡ call')
unfolding sipsess_estab_handler update_streams start_rtp_timeout call_timer_start notify_transferor
    call_notify_sipfrag estabs
estab_handler-once call out out' = ground arith

-- The end of a session raises exactly one CLOSED, stops the timeout of the invitation, and gives
-- back the call that had asked for this one as a transfer: that one is established again, if it was
-- waiting, and then its log has one event of the failure more, and otherwise nothing; it no longer
-- refers to this call.
pub close_handler-closes :
    (call xcall : Call) (out : Outside) (err : ℕ) (msg : Option ℕ) (line : ℕ)
    → call.xcall ≡ some line
    → let (call', xcall') = sipsess_close_handler call xcall out err msg in
      (closes call'.log ≡ suc (closes call.log))
      × (call'.tmr_inv ≡ false)
      × (xcall'.xcall ≡ none)
      × (xcall'.state ≡ (if is_transfer xcall.state then CallState.established else xcall.state))
      × (xcall'.log ≡ (
          if is_transfer xcall.state
          then Output.event CallEvent.ev_transfer_failed ∷ xcall.log
          else xcall.log))
unfolding sipsess_close_handler close_status xfer_cleanup call_stream_stop notify_transferor
    call_notify_sipfrag closes
close_handler-closes call xcall out err msg line has = ground arith

-- Every INFO request is answered by exactly one reply.
info_handler-replies :
    (call : Call) (msg : Info)
    → replies (sipsess_info_handler call msg).log ≡ suc (replies call.log)
unfolding sipsess_info_handler replies
info_handler-replies call msg = ground arith
