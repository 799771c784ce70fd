-- ===== src/Uag/Tests.antt =====
-- src/uag.c: a group of two user agents.
use baresip.Prelude.{
  ℕ, ◌≡◌, ◌≤◌, ◌-◌, refl, true, false, ◌&&◌, none, some, List, [], ◌∷◌, arith, if◌then◌else◌,
}
use baresip.Stream.{sendrecv, dir_and}
use baresip.Stream as Streams
use baresip.Call.{Call, CallState, AnswerMode, DtmfMode, Outside}
use baresip.Ua.{Ua}
use baresip.Uag.{uag_hold_resume, uag_hold_others}
use baresip.Uag.Find.{
  Af, Uri, Request, find_ua, or_else, registers, uag_find_msg, uag_find_requri, uri_only_user,
}
use baresip.Uag.Choice.{
  is_local, is_local_to, is_fitting, uag_find_msg_prefers, uag_find_requri_prefers,
}
use baresip.Uag.Active.{active, count_active, active-uag_hold_resume}
use baresip.Uag.Others.{active_but, count_but, active_but-uag_hold_others}

abbrev active_call : Call
active_call = record {
  state = CallState.established;
  sess = true;
  sub = false;
  not_ = false;
  xcall = none;
  audio = none;
  video = none;
  id = none;
  tmr_inv = false;
  tmr_answ = false;
  tmr_reinv = false;
  tmr_dtmf = false;
  remote_hold = false;
  time_start = 1;
  time_conn = 1;
  time_stop = 0;
  outgoing = false;
  answered = true;
  got_offer = true;
  on_hold = false;
  ans_queued = false;
  progr_queued = false;
  mnat_wait = false;
  scode = 0;
  supports_replaces = false;
  local_timeout = 0;
  rtp_timeout_ms = 0;
  linenum = 1;
  estadir = sendrecv;
  estvdir = sendrecv;
  use_video = false;
  acc_mnat = false;
  answermode = AnswerMode.manual;
  dtmfmode = DtmfMode.rtp_event;
  dtmfh = false;
  log = [];
}

abbrev held_call : Call
held_call = record active_call { on_hold = true; linenum = 2 }

abbrev agent : ℕ → List Call → Ua
agent regint calls = record {
  acc = record {
    client = record { rwait = 0; fbregint = 0; tcpsrcport = 0 };
    regint = regint;
    outbound = false;
    outboundv = [];
    rel100 = false;
    check_origin = true;
    inreq_allowed = true;
    catchall = true;
    aor = [];
    user = [];
    host = [];
  };
  regl = [];
  calls = calls;
  extensionv = [];
  cuser = [];
  log = [];
}

abbrev strm : Streams.Stream
strm = record {
  ldir = sendrecv;
  sdp = record {
    ldir = sendrecv;
    rdir = sendrecv;
    disabled = false;
    has_media = true;
    rformat = none;
  };
  hold = false;
  terminated = false;
  mnat_wait = false;
  mnat_connected = false;
  menc_wait = false;
  menc_secure = false;
  raddr_isset = true;
  pt_enc = none;
  tx_enabled = false;
  rx_enabled = false;
  rtp_timeout = 0;
  tmr_rtp = false;
  ts_last = 0;
  errorh = true;
}

abbrev agreed : Outside
agreed = record {
  sdp_media_dir = λ m. dir_and m.ldir m.rdir;
  refresh_allowed = true;
  awaiting_prack = false;
  sdp_decode = 0;
  decoded_audio = λ m. m;
  decoded_video = λ m. m;
  sdp_encode = 0;
  raddr_isset = true;
  start_menc = none;
  mnat_update = none;
  bevent = 0;
  sipsess = 0;
  set_redirect = 0;
  set_prack = 0;
  sipevent = 0;
  audio_update = 0;
  video_update = 0;
  audio_send_digit = 0;
  alloc_streams = 0;
  new_audio = strm;
  new_video = none;
  has_display = false;
  strdup = 0;
  time = 1000;
  jiffies = 5000;
}

abbrev group : List Ua
group = agent 0 (held_call ∷ []) ∷ agent 600 (active_call ∷ []) ∷ []

abbrev v4 : Uri
v4 = record { af = Af.inet; transport = some 1; sa_set = true; linklocal = false }

abbrev request : Request
request = record {
  is_cuser = λ ua. false;
  is_local_cuser = λ ua. false;
  is_user = λ ua. false;
  luri = λ ua. v4;
  uri = v4;
  tp = 1;
  cfg_transp = 1;
  same_host = λ ua. true;
  host_set = true;
  user_set = true;
  host_is_ip = false;
}

active-uag_hold_resume_example : active (uag_hold_resume group none agreed agreed).0 ≤ 1
unfolding active count_active
active-uag_hold_resume_example =
    active-uag_hold_resume group none agreed agreed ((refl, tt), ((refl, tt), tt)) (omega arith)

uag_find_msg_prefers_example :
    uag_find_msg group request
    ≡ or_else (find_ua (λ ua. registers ua && request.is_local_cuser ua) group) (
        or_else (find_ua (λ ua. is_local request ua && request.is_user ua) group) (
          or_else
            (find_ua (λ ua. registers ua && ua.acc.catchall) group)
            (find_ua (λ ua. is_local request ua && ua.acc.catchall) group)))
uag_find_msg_prefers_example = uag_find_msg_prefers group request

uag_find_requri_prefers_example :
    uag_find_requri (λ ua. true) group request
    ≡ or_else (find_ua (is_fitting (λ ua. true) request) group) (
        or_else
          (find_ua (is_local_to request) group)
          (if uri_only_user request then none else some (agent 0 (held_call ∷ []))))
uag_find_requri_prefers_example =
    uag_find_requri_prefers (λ ua. true) (agent 0 (held_call ∷ []))
      (agent 600 (active_call ∷ []) ∷ []) request

active_but-uag_hold_others_example :
    active_but (uag_hold_others group true (some (0, 0)) agreed).0 (some (0, 0))
    ≡ active_but group (some (0, 0)) - 1
active_but-uag_hold_others_example =
    active_but-uag_hold_others group true (some (0, 0)) agreed ((refl, tt), ((refl, tt), tt))

-- One call is active beside the one at the head.
other_active : active_but group (some (0, 0)) ≡ 1
unfolding active_but count_but active count_active
other_active = refl
