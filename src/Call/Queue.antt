-- ===== src/Call/Queue.antt =====
-- src/call.c: an answer that has to wait for a PRACK.
use baresip.Prelude.{ℕ, suc, ◌≡◌, true, false, none, List, [], ◌∷◌, ◌&&◌, not, arith, if◌then◌else◌}
use baresip.Call.{Call, CallState, Outside, Output, VidMode, is_incoming}
use baresip.Call.Streams.{call_apply_sdp}
use baresip.Call.Control.{call_answer, send_answer, delayed_answer_handler}
use baresip.Call.Session.{prack_handler}

unfoldable pub answers : List Output → ℕ
answers [] = 0
answers (Output.sess_answer scode ∷ log) = suc (answers log)
answers (out ∷ log) = answers log

-- libre and the media NAT agree to an answer.
abbrev IsWilling : Outside → Type 0
IsWilling out =
    (out.awaiting_prack ≡ false)
    × (out.sdp_encode ≡ 0)
    × (out.sipsess ≡ 0)
    × (out.mnat_update ≡ none)

answer_willing :
    (call : Call) (out : Outside) (scode : ℕ) (vmode : VidMode)
    → call.sess ≡ true
    → call.state ≡ CallState.incoming
    → IsWilling out
    → let (call', err) = call_answer call out scode vmode in
      (err ≡ 0)
      × (call'.answered ≡ true)
      × (call'.ans_queued ≡ false)
      × (call'.state ≡ CallState.incoming)
      × (answers call'.log ≡ suc (answers call.log))
unfolding call_answer send_answer call_apply_sdp answers
answer_willing call out scode vmode has inc h = ground arith

-- An automatic answer that falls due while a PRACK is awaited is not lost: it is sent, once, as
-- soon as the PRACK is there, if libre and the media NAT agree to it then; a further PRACK changes
-- nothing.
pub delayed_answer-prack :
    (call : Call) (out out' out'' : Outside)
    → call.sess ≡ true
    → call.state ≡ CallState.incoming
    → call.answered ≡ false
    → out.awaiting_prack ≡ true
    → IsWilling out'
    → let waiting = delayed_answer_handler call out in
      let answered = prack_handler waiting out' in
      (answers waiting.log ≡ answers call.log)
      × (waiting.ans_queued ≡ true)
      × (answered.answered ≡ true)
      × (answers answered.log ≡ suc (answers call.log))
      × (prack_handler answered out'' ≡ answered)
unfolding delayed_answer_handler prack_handler
delayed_answer-prack call out out' out'' has inc open_yet wait h =
    let fired : Call = record call { tmr_answ = false; ans_queued = true } in
    ground (arith, answer_willing fired out' 200 VidMode.vid_on has inc h)

-- A call without a session or in another state than INCOMING is refused with EINVAL, one that waits
-- for a PRACK with EAGAIN: nothing is sent then, and the call counts as answered or not as before.
call_answer-refused :
    (call : Call) (out : Outside) (scode : ℕ) (vmode : VidMode)
    → (call.sess && is_incoming call.state && not out.awaiting_prack) ≡ false
    → let (call', err) = call_answer call out scode vmode in
      (err ≡ (if call.sess && is_incoming call.state then 11 else 22))
      × (call'.log ≡ call.log)
      × (call'.answered ≡ call.answered)
unfolding call_answer
call_answer-refused call out scode vmode refused = ground arith
