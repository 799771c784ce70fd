-- ===== src/Message/Tests.antt =====
-- src/message.c on concrete listeners and requests.
use baresip.Prelude.{◌≡◌, refl, true, some, [], ◌∷◌, if◌then◌else◌}
use baresip.Message.{
  Listener, Message, text_plain, AuthCheck, authorized, Request, uas_req_auth, is_known,
  request_handler, message_listen,
}
use baresip.Message.Replies.{Reaches, replies, receivers, answer, request_handler-replies}

abbrev menu : Listener
menu = record { recvh = 1; arg = 10 }

abbrev mqtt : Listener
mqtt = record { recvh = 2; arg = 20 }

abbrev two : Message
two = record { lsnrl = menu ∷ mqtt ∷ []; sip_lsnr = true }

abbrev request : AuthCheck → Request
request auth = record {
  is_message = true;
  ua = some 5;
  origin_ok = true;
  allowed = true;
  uas_isset = true;
  auth = auth;
  ctype = text_plain;
}

request-Reaches : (auth : AuthCheck) → Reaches two (request auth)
request-Reaches auth = record {
  is_message = refl;
  ua = (5, refl);
  origin_ok = refl;
  allowed = refl;
}

request_handler-replies_example :
    let (handled, out) = request_handler two (request authorized) in
    (handled ≡ true)
    × (replies out ≡ answer text_plain ∷ [])
    × (receivers out ≡ (if is_known text_plain then two.lsnrl else []))
unfolding uas_req_auth
request_handler-replies_example =
    request_handler-replies two (request authorized) (request-Reaches authorized) refl refl

listened : (message_listen two 3 30 0 true).1 ≡ 0
unfolding message_listen
listened = refl
