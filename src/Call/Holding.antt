-- ===== src/Call/Holding.antt =====
-- src/call.c: hold and resume by the user.
use baresip.Prelude.{
  ℕ, ◌≡◌, refl, ◌∙◌, subst, ap, sym, Bool, true, false, Option, none, some, not, arith,
}
use baresip.Stream.{
  SdpDir, Media, Stream, receives, sends, stream_hold, stream_update, stream_enable,
  stream_enable_tx, stream_enable_rx,
}
use baresip.Stream.Hold.{stream_update_sdp}
use baresip.Call.{Call, Outside, Output, Bevent, say, on_stream}
use baresip.Call.Streams.{call_apply_sdp, update_streams, call_update_media, call_modify}
use baresip.Call.Control.{call_hold, set_hold}

-- The local directions that the streams ask for, and those of their media lines.
abbrev pub wanted : Option Stream → Option SdpDir
wanted none = none
wanted (some strm) = some strm.ldir

abbrev pub offered : Option Stream → Option SdpDir
offered none = none
offered (some strm) = some strm.sdp.ldir

-- A held stream does not receive, and sends as before.
abbrev pub IsHeld : Option SdpDir → Option SdpDir → Type 0
IsHeld none none = Unit
IsHeld none (some d) = ⊥
IsHeld (some w) none = ⊥
IsHeld (some w) (some d) = (receives d ≡ false) × (sends d ≡ sends w)

-- What hold and the updates of the media can change.
abbrev dirs : Call → Option SdpDir × (Option SdpDir × (Option SdpDir × Option SdpDir))
dirs call = (wanted call.audio, (wanted call.video, (offered call.audio, offered call.video)))

update_ldir :
    (d : Media → SdpDir) (s : Stream) (raddr : Bool) (start : Option ℕ)
    → (stream_update d s raddr start).0.ldir ≡ s.ldir
unfolding stream_update stream_enable stream_enable_tx stream_enable_rx
update_ldir d s raddr start = ground arith

updated_wanted :
    (d : Media → SdpDir) (o : Option Stream) (raddr : Bool) (start : Option ℕ)
    → wanted (on_stream (λ s. (stream_update d s raddr start).0) o) ≡ wanted o
updated_wanted d none raddr start = refl
updated_wanted d (some s) raddr start = ap some (update_ldir d s raddr start)

updated_offered :
    (d : Media → SdpDir) (o : Option Stream) (raddr : Bool) (start : Option ℕ)
    → offered (on_stream (λ s. (stream_update d s raddr start).0) o) ≡ offered o
updated_offered d none raddr start = refl
updated_offered d (some s) raddr start = ap (λ m. some m.ldir) (stream_update_sdp d s raddr start)

dirs-call_update_media :
    (call : Call) (out : Outside) → dirs (call_update_media call out).0 ≡ dirs call
unfolding call_update_media update_streams call_apply_sdp
dirs-call_update_media call out =
    let d = out.sdp_media_dir in
    rw (
      updated_wanted d call.audio out.raddr_isset out.start_menc,
      updated_wanted d call.video out.raddr_isset out.start_menc,
      updated_offered d call.audio out.raddr_isset out.start_menc,
      updated_offered d call.video out.raddr_isset out.start_menc,
    )

dirs-call_modify : (call : Call) (out : Outside) → dirs (call_modify call out).0 ≡ dirs call
unfolding call_modify
dirs-call_modify call out =
    let emitted : Call = say call (Output.emit Bevent.local_sdp) in
    let sent : Call = say emitted Output.sess_modify in
    ground (arith, dirs-call_update_media call out, dirs-call_update_media sent out)

call_modify_keeps :
    (call : Call) (out : Outside)
    → let call' = (call_modify call out).0 in
      (call'.on_hold ≡ call.on_hold) × (call'.sess ≡ call.sess)
unfolding call_modify call_update_media update_streams call_apply_sdp
call_modify_keeps call out = ground arith

-- A hold that changes something is a change of the streams and a new offer.
call_hold_changes :
    (call : Call) (out : Outside) (hold : Bool)
    → call.sess ≡ true
    → call.on_hold ≡ not hold
    → (call_hold call out hold).0 ≡ (call_modify (set_hold call hold) out).0
unfolding call_hold
call_hold_changes call out true has other = ground (arith, has, other)
call_hold_changes call out false has other = ground (arith, has, other)

hold_dirs :
    (call : Call) (out : Outside) (hold : Bool)
    → call.sess ≡ true
    → call.on_hold ≡ not hold
    → dirs (call_hold call out hold).0 ≡ dirs (set_hold call hold)
hold_dirs call out hold has other =
    ap dirs (call_hold_changes call out hold has other) ∙ dirs-call_modify (set_hold call hold) out

pub hold_flags :
    (call : Call) (out : Outside) (hold : Bool)
    → call.sess ≡ true
    → call.on_hold ≡ not hold
    → let call' = (call_hold call out hold).0 in (call'.on_hold ≡ hold) × (call'.sess ≡ true)
unfolding set_hold
hold_flags call out hold has other =
    let e = call_hold_changes call out hold has other in
    let (on, kept) = call_modify_keeps (set_hold call hold) out in
    (ap (λ c. c.on_hold) e ∙ on, ap (λ c. c.sess) e ∙ (kept ∙ has))

hold-IsHeld :
    (o : Option Stream) → IsHeld (wanted o) (offered (on_stream (λ s. stream_hold s true) o))
unfolding stream_hold
hold-IsHeld none = tt
hold-IsHeld (some s) = ground arith

resume_offered : (o : Option Stream) → offered (on_stream (λ s. stream_hold s false) o) ≡ wanted o
unfolding stream_hold
resume_offered none = refl
resume_offered (some s) = refl

hold_wanted :
    (o : Option Stream) (hold : Bool) → wanted (on_stream (λ s. stream_hold s hold) o) ≡ wanted o
unfolding stream_hold
hold_wanted none hold = refl
hold_wanted (some s) hold = refl

-- Holding a call with a session that was not on hold: whatever comes of the offer, it counts as on
-- hold, and each of its media lines does not receive and sends as the stream wants. Resuming it
-- then, whatever comes of that offer, gives each line the direction that the stream wants.
pub call_hold-resume :
    (call : Call) (out out' : Outside)
    → call.sess ≡ true
    → call.on_hold ≡ false
    → let held = (call_hold call out true).0 in
      let resumed = (call_hold held out' false).0 in
      (held.on_hold ≡ true)
      × IsHeld (wanted call.audio) (offered held.audio)
      × IsHeld (wanted call.video) (offered held.video)
      × (resumed.on_hold ≡ false)
      × (offered resumed.audio ≡ wanted call.audio)
      × (offered resumed.video ≡ wanted call.video)
unfolding set_hold
call_hold-resume call out out' has free =
    let held = (call_hold call out true).0 in
    let (on, has') = hold_flags call out true has free in
    let (off, _) = hold_flags held out' false has' on in
    let d = hold_dirs call out true has free in
    let d' = hold_dirs held out' false has' on in
    let audio = ap (λ x. x.0) d ∙ hold_wanted call.audio true in
    let video = ap (λ x. x.1.0) d ∙ hold_wanted call.video true in
    (
      on,
      subst (IsHeld (wanted call.audio)) (sym (ap (λ x. x.1.1.0) d)) (hold-IsHeld call.audio),
      subst (IsHeld (wanted call.video)) (sym (ap (λ x. x.1.1.1) d)) (hold-IsHeld call.video),
      off,
      ap (λ x. x.1.1.0) d' ∙ (resume_offered held.audio ∙ audio),
      ap (λ x. x.1.1.1) d' ∙ (resume_offered held.video ∙ video),
    )
