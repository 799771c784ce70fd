-- ===== src/Message/Replies.antt =====
-- src/message.c: how often a request is answered, and to whom it is given.
use baresip.Prelude.{
  ℕ, ◌≡◌, inl, inr, refl, ap, Bool, true, false, ◌||◌, not, some, List, [], ◌∷◌, if◌then◌else◌,
  arith, Bool-cases, replicate, length,
}
use baresip.Message.{
  Listener, Message, Ctype, unauthorized, Request, Output, reply, receive, uas_req_auth, is_known,
  deliver, handle_message, handle_all, is_listening, request_handler,
}

-- The replies among the outputs, and the listeners that get the request.
abbrev pub replies : List Output → List ℕ
replies [] = []
replies (reply scode ∷ out) = scode ∷ replies out
replies (receive recvh arg ctype ∷ out) = replies out

abbrev pub receivers : List Output → List Listener
receivers [] = []
receivers (reply scode ∷ out) = receivers out
receivers (receive recvh arg ctype ∷ out) = record { recvh = recvh; arg = arg } ∷ receivers out

-- The request needs no credentials, or has them.
abbrev pub passes : Request → Bool
passes msg = not msg.uas_isset || (uas_req_auth msg.auth).0

handle_passed :
    (lsnr : Listener) (msg : Request) (hdld : Bool)
    → passes msg ≡ true
    → handle_message lsnr msg hdld ≡ deliver lsnr msg.ctype hdld
unfolding handle_message
handle_passed lsnr msg hdld ok = rw ok refl

-- Behind the first listener there is no reply.
replies-handled :
    (lsnrl : List Listener) (msg : Request)
    → passes msg ≡ true
    → replies (handle_all lsnrl msg true) ≡ []
unfolding handle_all deliver
replies-handled [] msg ok = refl
replies-handled (lsnr ∷ lsnrl) msg ok =
    rw (handle_passed lsnr msg true ok) (elim (Bool-cases (is_known msg.ctype)) [
      | inl known ↦ rw known (replies-handled lsnrl msg ok)
      | inr other ↦ rw other (replies-handled lsnrl msg ok)
    ])

receivers-handled :
    (lsnrl : List Listener) (msg : Request) (hdld : Bool)
    → passes msg ≡ true
    → is_known msg.ctype ≡ true
    → receivers (handle_all lsnrl msg hdld) ≡ lsnrl
unfolding handle_all deliver
receivers-handled [] msg hdld ok known = refl
receivers-handled (lsnr ∷ lsnrl) msg true ok known =
    rw (handle_passed lsnr msg true ok, known)
      (ap (◌∷◌ lsnr) (receivers-handled lsnrl msg true ok known))
receivers-handled (lsnr ∷ lsnrl) msg false ok known =
    rw (handle_passed lsnr msg false ok, known)
      (ap (◌∷◌ lsnr) (receivers-handled lsnrl msg true ok known))

receivers-other :
    (lsnrl : List Listener) (msg : Request) (hdld : Bool)
    → passes msg ≡ true
    → is_known msg.ctype ≡ false
    → receivers (handle_all lsnrl msg hdld) ≡ []
unfolding handle_all deliver
receivers-other [] msg hdld ok other = refl
receivers-other (lsnr ∷ lsnrl) msg true ok other =
    rw (handle_passed lsnr msg true ok, other) (receivers-other lsnrl msg true ok other)
receivers-other (lsnr ∷ lsnrl) msg false ok other =
    rw (handle_passed lsnr msg false ok, other) (receivers-other lsnrl msg true ok other)

-- The reply to the content of a request.
abbrev pub answer : Ctype → ℕ
answer ctype = if is_known ctype then 200 else 415

replies-first :
    (lsnr : Listener) (lsnrl : List Listener) (msg : Request)
    → passes msg ≡ true
    → replies (handle_all (lsnr ∷ lsnrl) msg false) ≡ answer msg.ctype ∷ []
unfolding handle_all deliver
replies-first lsnr lsnrl msg ok =
    rw (handle_passed lsnr msg false ok) (elim (Bool-cases (is_known msg.ctype)) [
      | inl known ↦ rw known (ap (◌∷◌ 200) (replies-handled lsnrl msg ok))
      | inr other ↦ rw other (ap (◌∷◌ 415) (replies-handled lsnrl msg ok))
    ])

once :
    (lsnrl : List Listener) (msg : Request)
    → is_listening lsnrl ≡ true
    → passes msg ≡ true
    → replies (handle_all lsnrl msg false) ≡ answer msg.ctype ∷ []
once [] msg some_one ok = absurd (cc (some_one))
once (lsnr ∷ lsnrl) msg some_one ok = replies-first lsnr lsnrl msg ok

-- A request that reaches the listeners of the subsystem.
pub record Reaches (message : Message) (msg : Request) : Type 0 where
  pub is_message : msg.is_message ≡ true
  pub ua : (ua : ℕ) × (msg.ua ≡ some ua)
  pub origin_ok : msg.origin_ok ≡ true
  pub allowed : msg.allowed ≡ true

reaches_lem :
    (message : Message) (msg : Request)
    → Reaches message msg
    → request_handler message msg ≡ (is_listening message.lsnrl, handle_all message.lsnrl msg false)
unfolding request_handler
reaches_lem message msg r =
    let (ua, e) = r.ua in ground (arith, e, r.is_message, r.origin_ok, r.allowed)

-- A request that reaches the listeners, of which there is one at least, and needs no credentials or
-- has them, is answered exactly once, by 200 for plain text and JSON and by 415 otherwise. In the
-- first case all listeners get it, in the order in which they registered, else none.
pub request_handler-replies :
    (message : Message) (msg : Request)
    → Reaches message msg
    → is_listening message.lsnrl ≡ true
    → passes msg ≡ true
    → let (handled, out) = request_handler message msg in
      (handled ≡ true)
      × (replies out ≡ answer msg.ctype ∷ [])
      × (receivers out ≡ (if is_known msg.ctype then message.lsnrl else []))
request_handler-replies message msg r some_one ok = rw (reaches_lem message msg r) (
  some_one,
  once message.lsnrl msg some_one ok,
  elim (Bool-cases (is_known msg.ctype)) [
    | inl known ↦ rw known (receivers-handled message.lsnrl msg false ok known)
    | inr other ↦ rw other (receivers-other message.lsnrl msg false ok other)
  ],
)

challenged_once :
    (lsnr : Listener) (msg : Request) (hdld : Bool)
    → msg.uas_isset ≡ true
    → msg.auth ≡ unauthorized 0
    → handle_message lsnr msg hdld ≡ reply 401 ∷ []
unfolding handle_message uas_req_auth
challenged_once lsnr msg hdld set e = ground (arith, set, e)

challenged :
    (lsnrl : List Listener) (msg : Request) (hdld : Bool)
    → msg.uas_isset ≡ true
    → msg.auth ≡ unauthorized 0
    → handle_all lsnrl msg hdld ≡ replicate (length lsnrl) (reply 401)
unfolding handle_all
challenged [] msg hdld set e = refl
challenged (lsnr ∷ lsnrl) msg hdld set e =
    rw (challenged_once lsnr msg hdld set e)
      (ap (◌∷◌ (reply 401)) (challenged lsnrl msg true set e))

-- A request that reaches the listeners without the credentials that the account asks for is
-- challenged by each of them, if the challenge can be made: it gets as many replies 401 as there
-- are listeners.
request_handler_challenged :
    (message : Message) (msg : Request)
    → Reaches message msg
    → msg.uas_isset ≡ true
    → msg.auth ≡ unauthorized 0
    → (request_handler message msg).1 ≡ replicate (length message.lsnrl) (reply 401)
request_handler_challenged message msg r set e =
    rw (reaches_lem message msg r) (challenged message.lsnrl msg false set e)
