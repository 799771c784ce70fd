-- ===== src/Message.antt =====
-- src/message.c: the listeners of incoming SIP MESSAGE requests, with `uas_req_auth` of src/ua.c.
-- A listener stands for its handler and the argument of that. What a call sends and whom it calls
-- is the list of its outputs, in order.
use baresip.Prelude.{
  ℕ, Bool, true, false, ◌&&◌, ◌||◌, not, Option, none, some, List, [], ◌∷◌, ◌++◌, ◌==◌,
  if◌then◌else◌,
}
pub mod Replies
pub mod Listeners
mod Tests

-- `struct message_lsnr`.
pub record Listener : Type 0 where
  pub recvh : ℕ
  pub arg : ℕ

-- `struct message`.
pub record Message : Type 0 where
  pub lsnrl : List Listener
  pub sip_lsnr : Bool

pub data Ctype : Type 0 where
  text_plain app_json other_type : Ctype

-- What libre's check of the credentials returns: 0, EAUTH with the result of the challenge's
-- generation, or another error.
pub data AuthCheck : Type 0 where
  authorized : AuthCheck
  unauthorized : ℕ → AuthCheck
  denied : ℕ → AuthCheck

-- A request, as `request_handler` sees it: its method, the user agent that it is for, if any, what
-- that one says of its origin, and its account of the need for credentials.
pub record Request : Type 0 where
  pub is_message : Bool
  pub ua : Option ℕ
  pub origin_ok : Bool
  pub allowed : Bool
  pub uas_isset : Bool
  pub auth : AuthCheck
  pub ctype : Ctype

pub data Output : Type 0 where
  reply : ℕ → Output
  receive : ℕ → ℕ → Ctype → Output

-- `uas_req_auth`: may the request pass, and the reply if not. A challenge that cannot be made is
-- no reply.
unfoldable pub uas_req_auth : AuthCheck → Bool × List Output
uas_req_auth authorized = (true, [])
uas_req_auth (unauthorized gen) = (false, if gen == 0 then reply 401 ∷ [] else [])
uas_req_auth (denied err) = (false, reply 403 ∷ [])

abbrev pub is_known : Ctype → Bool
is_known text_plain = true
is_known app_json = true
is_known other_type = false

-- The part of `handle_message` behind the authentication.
unfoldable pub deliver : Listener → Ctype → Bool → List Output
deliver lsnr ctype hdld =
    if is_known ctype
    then receive lsnr.recvh lsnr.arg ctype ∷ (if hdld then [] else reply 200 ∷ [])
    else if hdld
    then []
    else reply 415 ∷ []

-- `handle_message`.
unfoldable pub handle_message : Listener → Request → Bool → List Output
handle_message lsnr msg hdld =
    let (ok, replies) = uas_req_auth msg.auth in
    if not msg.uas_isset || ok then deliver lsnr msg.ctype hdld else replies

-- The loop of `request_handler`.
unfoldable pub handle_all : List Listener → Request → Bool → List Output
handle_all [] msg hdld = []
handle_all (lsnr ∷ lsnrl) msg hdld = handle_message lsnr msg hdld ++ handle_all lsnrl msg true

abbrev pub is_listening : List Listener → Bool
is_listening [] = false
is_listening (_ ∷ _) = true

-- `request_handler`: is the request handled, and the outputs.
unfoldable pub request_handler : Message → Request → Bool × List Output
request_handler message msg = if not msg.is_message then (false, []) else elim (msg.ua) [
  | none ↦ (true, reply 404 ∷ [])
  | some ua ↦
      if not msg.origin_ok || not msg.allowed
      then (true, reply 403 ∷ [])
      else (is_listening message.lsnrl, handle_all message.lsnrl msg false)
]

-- `message_listen`: `sip_listen` is the error of libre's listener, `memory` says whether the new
-- listener can be allocated.
unfoldable pub message_listen : Message → ℕ → ℕ → ℕ → Bool → Message × ℕ
message_listen message recvh arg sip_listen memory =
    if not message.sip_lsnr && not (sip_listen == 0)
    then (message, sip_listen)
    else if memory
    then (
      record {
        lsnrl = message.lsnrl ++ (record { recvh = recvh; arg = arg } ∷ []);
        sip_lsnr = true;
      },
      0,
    )
    else (record message { sip_lsnr = true }, 12)

-- The loop of `message_unlisten`.
unfoldable pub drop_handler : List Listener → ℕ → List Listener
drop_handler [] recvh = []
drop_handler (lsnr ∷ lsnrl) recvh =
    if lsnr.recvh == recvh then drop_handler lsnrl recvh else lsnr ∷ drop_handler lsnrl recvh

-- `message_unlisten`.
unfoldable pub message_unlisten : Message → ℕ → Message
message_unlisten message recvh = record message { lsnrl = drop_handler message.lsnrl recvh }
