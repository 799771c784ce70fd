-- ===== src/Call.antt =====
-- src/call.c: the state of a call, and what its operations ask of the rest of the program. A call
-- exists here, so the checks for a null `call` have no counterpart. The operations and handlers are
-- in the children: Streams, Control, Session, Transfer and Lines. What an operation does besides
-- changing the call is appended to its log, the newest first.
use baresip.Prelude.{
  ℕ, Bool, true, false, ◌&&◌, ◌||◌, not, Option, none, some, List, [], ◌∷◌, ◌==◌, if◌then◌else◌,
  ◌+◌, ◌-◌, ◌^◌, ◌%◌,
}
use baresip.Stream.{Stream, Media, SdpDir, sendonly, inactive, stream_set_ldir, dir_and, dir_eq}
pub mod Streams
pub mod Control
pub mod Session
pub mod Transfer
pub mod Lines
pub mod Alloc
pub mod Events
pub mod Steps
pub mod Quiet
pub mod Notices
pub mod Holding
pub mod Ending
pub mod Queue
pub mod Machine
pub mod Numbers
mod Tests

-- `enum call_state`.
pub data CallState : Type 0 where
  idle incoming outgoing ringing early established terminated transfer unknown : CallState

-- `enum call_event`.
pub data CallEvent : Type 0 where
  ev_incoming ev_outgoing ev_ringing ev_progress ev_answered ev_established ev_closed ev_transfer
        ev_transfer_failed ev_menc :
      CallEvent

-- The `enum bevent_ev` values that a call emits.
pub data Bevent : Type 0 where
  local_sdp remote_sdp remote_hold remote_resume audio_error end_of_file redirect : Bevent

-- `enum answermode`, `enum vidmode`, `enum dtmfmode`.
pub data AnswerMode : Type 0 where
  manual early auto early_audio early_video : AnswerMode

pub data VidMode : Type 0 where
  vid_off vid_on : VidMode

pub data DtmfMode : Type 0 where
  rtp_event sip_info dtmf_auto : DtmfMode

-- What a call asks of others: an event to its handler or to the listeners, a reply to a request, a
-- call of libre's session or subscription, or of the media.
pub data Output : Type 0 where
  event : CallEvent → Output
  emit : Bevent → Output
  reply : ℕ → Output
  sess_abort sess_drop sess_modify sess_modify_nosdp sess_connect sess_info : Output
  sess_reject sess_answer sess_accept : ℕ → Output
  sess_progress : Output
  notify : ℕ → Output
  refer_accept refer_send : Output
  stream_stop audio_update video_update audio_stop video_stop : Output
  dtmf : ℕ → Output
  telephone_event : ℕ → Output

-- `struct call`. A pointer that is only tested is a `Bool`, a timer is whether it runs.
pub record Call : Type 0 where
  pub state : CallState
  pub sess : Bool
  pub sub : Bool
  pub not_ : Bool
  pub xcall : Option ℕ
  pub audio : Option Stream
  pub video : Option Stream
  pub id : Option (List ℕ)
  pub tmr_inv : Bool
  pub tmr_answ : Bool
  pub tmr_reinv : Bool
  pub tmr_dtmf : Bool
  pub remote_hold : Bool
  pub time_start : ℕ
  pub time_conn : ℕ
  pub time_stop : ℕ
  pub outgoing : Bool
  pub answered : Bool
  pub got_offer : Bool
  pub on_hold : Bool
  pub ans_queued : Bool
  pub progr_queued : Bool
  pub mnat_wait : Bool
  pub scode : ℕ
  pub supports_replaces : Bool
  pub local_timeout : ℕ
  pub rtp_timeout_ms : ℕ
  pub linenum : ℕ
  pub estadir : SdpDir
  pub estvdir : SdpDir
  pub use_video : Bool
  pub acc_mnat : Bool
  pub answermode : AnswerMode
  pub dtmfmode : DtmfMode
  pub dtmfh : Bool
  pub log : List Output

-- The answers of libre and of the other parts of the program in one operation: error codes, the
-- tests on a session, what decoding an SDP makes of the media lines and of the addresses, the
-- results of the start of the media encryption, the clock, and the streams that are allocated.
pub record Outside : Type 0 where
  pub sdp_media_dir : Media → SdpDir
  pub refresh_allowed : Bool
  pub awaiting_prack : Bool
  pub sdp_decode : ℕ
  pub decoded_audio : Media → Media
  pub decoded_video : Media → Media
  pub sdp_encode : ℕ
  pub raddr_isset : Bool
  pub start_menc : Option ℕ
  pub mnat_update : Option ℕ
  pub bevent : ℕ
  pub sipsess : ℕ
  pub set_redirect : ℕ
  pub set_prack : ℕ
  pub sipevent : ℕ
  pub audio_update : ℕ
  pub video_update : ℕ
  pub audio_send_digit : ℕ
  pub alloc_streams : ℕ
  pub new_audio : Stream
  pub new_video : Option Stream
  pub has_display : Bool
  pub strdup : ℕ
  pub time : ℕ
  pub jiffies : ℕ

abbrev pub einval : ℕ
einval = 22

abbrev pub eagain : ℕ
eagain = 11

abbrev pub is_incoming : CallState → Bool
is_incoming idle = false
is_incoming incoming = true
is_incoming outgoing = false
is_incoming ringing = false
is_incoming early = false
is_incoming established = false
is_incoming terminated = false
is_incoming transfer = false
is_incoming unknown = false

abbrev pub is_established : CallState → Bool
is_established idle = false
is_established incoming = false
is_established outgoing = false
is_established ringing = false
is_established early = false
is_established established = true
is_established terminated = false
is_established transfer = false
is_established unknown = false

abbrev pub is_transfer : CallState → Bool
is_transfer idle = false
is_transfer incoming = false
is_transfer outgoing = false
is_transfer ringing = false
is_transfer early = false
is_transfer established = false
is_transfer terminated = false
is_transfer transfer = true
is_transfer unknown = false

abbrev pub say : Call → Output → Call
say call out = record call { log = out ∷ call.log }

-- `set_state`.
abbrev pub set_state : Call → CallState → Call
set_state call st = record call { state = st }

-- `call_event_handler`.
abbrev pub call_event_handler : Call → CallEvent → Call
call_event_handler call ev = say call (event ev)

abbrev pub on_stream : (Stream → Stream) → Option Stream → Option Stream
on_stream f none = none
on_stream f (some strm) = some (f strm)

-- `call_timer_start`.
unfoldable pub call_timer_start : Call → Outside → Call
call_timer_start call out = record call { tmr_inv = false; time_start = out.time }

-- `call_stream_stop`.
unfoldable pub call_stream_stop : Call → Outside → Call
call_stream_stop call out = record call {
  time_stop = out.time;
  tmr_inv = false;
  log = stream_stop ∷ call.log;
}

-- `call_set_mdir`: without a display, video is at most sent.
unfoldable pub call_set_mdir : Call → Outside → SdpDir → SdpDir → Call
call_set_mdir call out a v =
    let v' : SdpDir = if out.has_display then v else dir_and v sendonly in
    record call {
      audio = on_stream (λ s. stream_set_ldir s a) call.audio;
      video = on_stream (λ s. stream_set_ldir s v') call.video;
    }

-- `call_set_media_estdir`.
unfoldable pub call_set_media_estdir : Call → SdpDir → SdpDir → Call
call_set_media_estdir call a v = record call {
  estadir = a;
  estvdir = if call.use_video then v else inactive;
}

-- `call_set_media_direction`.
unfoldable pub call_set_media_direction : Call → Outside → SdpDir → SdpDir → Call
call_set_media_direction call out a v = call_set_mdir (call_set_media_estdir call a v) out a v

-- `stream_ldir`, also of no stream.
abbrev pub stream_ldir : Option Stream → SdpDir
stream_ldir none = inactive
stream_ldir (some strm) = strm.ldir

-- `call_get_mdir`: without a stream, the caller's direction stays.
abbrev pub mdir_or : Option Stream → SdpDir → SdpDir
mdir_or none dir = dir
mdir_or (some strm) dir = strm.ldir

-- `call_need_modify`.
unfoldable pub call_need_modify : Call → Bool
call_need_modify call =
    not (dir_eq (stream_ldir call.audio) call.estadir)
    || not (dir_eq (stream_ldir call.video) call.estvdir)

-- `call_duration` and `call_setup_duration`, as `uint32_t`; the times are not negative.
unfoldable call_duration : Call → ℕ → ℕ
call_duration call now =
    if call.time_start == 0 then 0 else (now + 2 ^ 64 - call.time_start) % 2 ^ 32

unfoldable call_setup_duration : Call → ℕ
call_setup_duration call =
    if call.time_conn == 0 then 0 else (call.time_start + 2 ^ 64 - call.time_conn) % 2 ^ 32
