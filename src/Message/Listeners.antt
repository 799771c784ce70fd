-- ===== src/Message/Listeners.antt =====
-- src/message.c: `message_listen` and `message_unlisten`.
use baresip.Prelude.{
  ℕ, ◌≡◌, ◌≢◌, ap, Bool, false, List, [], ◌∷◌, ◌++◌, ◌==◌, arith, Bool-cases, inl, inr,
}
use baresip.Message.{Listener, Message, message_listen, message_unlisten, drop_handler}

-- The handler is no listener's.
abbrev NotListening : ℕ → List Listener → Type 0
NotListening recvh [] = Unit
NotListening recvh (lsnr ∷ lsnrl) = (lsnr.recvh ≢ recvh) × NotListening recvh lsnrl

drop_handler-NotListening :
    (lsnrl : List Listener) (recvh : ℕ) → NotListening recvh (drop_handler lsnrl recvh)
unfolding drop_handler
drop_handler-NotListening [] recvh = tt
drop_handler-NotListening (lsnr ∷ lsnrl) recvh = elim (Bool-cases (lsnr.recvh == recvh)) [
  | inl same ↦ rw same (drop_handler-NotListening lsnrl recvh)
  | inr other ↦ rw other (ground arith, drop_handler-NotListening lsnrl recvh)
]

drop_handler-append :
    (lsnrl : List Listener) (lsnr : Listener)
    → NotListening lsnr.recvh lsnrl
    → drop_handler (lsnrl ++ (lsnr ∷ [])) lsnr.recvh ≡ lsnrl
unfolding drop_handler
drop_handler-append [] lsnr n = ground arith
drop_handler-append (l ∷ lsnrl) lsnr n =
    let other : (l.recvh == lsnr.recvh) ≡ false = ground (arith, n.0) in
    rw other (ap (◌∷◌ l) (drop_handler-append lsnrl lsnr n.1))

listen_lem :
    (message : Message) (recvh arg sip_listen : ℕ) (memory : Bool)
    → (message_listen message recvh arg sip_listen memory).1 ≡ 0
    → (message_listen message recvh arg sip_listen memory).0.lsnrl
      ≡ message.lsnrl ++ (record { recvh = recvh; arg = arg } ∷ [])
unfolding message_listen
listen_lem message recvh arg sip_listen memory e = ground arith

-- A handler that did not listen, was registered successfully and is unregistered leaves the other
-- listeners as they were, and after any call of `message_unlisten` the handler listens no more.
listen-unlisten :
    (message : Message) (recvh arg sip_listen : ℕ) (memory : Bool)
    → NotListening recvh message.lsnrl
    → (message_listen message recvh arg sip_listen memory).1 ≡ 0
    → let message' = (message_listen message recvh arg sip_listen memory).0 in
      ((message_unlisten message' recvh).lsnrl ≡ message.lsnrl)
      × NotListening recvh (message_unlisten message recvh).lsnrl
unfolding message_unlisten
listen-unlisten message recvh arg sip_listen memory n ok = (
  rw (listen_lem message recvh arg sip_listen memory ok)
      (drop_handler-append message.lsnrl (record { recvh = recvh; arg = arg }) n),
  drop_handler-NotListening message.lsnrl recvh,
)
