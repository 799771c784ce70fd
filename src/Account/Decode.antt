-- ===== src/Account/Decode.antt =====
-- src/account.c: the decoders of the parameters, less the codecs.
use baresip.Prelude.{
  ℕ, ◌+◌, Bool, true, ◌&&◌, not, Option, none, some, ◌==◌, ltb, leb, if◌then◌else◌,
}
use baresip.Call.{AnswerMode, DtmfMode}
use Prim.Native.Nat.{bit_or, bit_and}
use baresip.Account.{
  Str, Params, Libre, Account, einval, Rel100Mode, rel100_disabled, rel100_enabled, rel100_required,
  SipAnsBeep, beep_off, beep_on, beep_local, InreqMode, inreq_off, inreq_on, n_answermode,
  n_answerdelay, n_100rel, n_sip_autoanswer, n_sip_autoanswer_beep, n_dtmfmode, n_inreq_allowed,
  n_uas_user, n_uas_pass, n_regint, n_prio, n_rwait, n_fbregint, n_pubint, n_tcpsrcport, n_regq,
  n_outbound1, n_outbound2, n_outbound, n_check_origin, n_sipnat, n_auth_user, n_mwi,
  n_call_transfer, n_sip_autoredirect, n_mediaenc, n_medianat, n_ptime, n_rtcp_mux, n_natpinhole,
}
use baresip.Account.Words.{
  manual_str, early_str, early_video_str, early_audio_str, auto_str, no_str, yes_str, required_str,
  on_str, off_str, local_str, info_str, outbound_str,
}

module _ (libre : Libre) where
  -- `param_dstr`, `param_u32`, `param_bool`: the value that is kept where there is no parameter.
  unfoldable pub param_dstr : Option Str → Option Str → Option Str
  param_dstr old none = old
  param_dstr old (some v) = some v

  unfoldable pub param_u32 : ℕ → Option Str → ℕ
  param_u32 old none = old
  param_u32 old (some v) = libre.u32 v

  unfoldable pub param_bool : Bool → Option Str → Bool × ℕ
  param_bool old none = (old, 0)
  param_bool old (some v) = elim (libre.bool v) [ none ↦ (old, einval) | some b ↦ (b, 0) ]

  -- `answermode_decode`.
  unfoldable pub answermode_of : Option Str → AnswerMode
  answermode_of none = AnswerMode.manual
  answermode_of (some amode) =
      if libre.strcasecmp amode manual_str
      then AnswerMode.manual
      else if libre.strcasecmp amode early_str
      then AnswerMode.early
      else if libre.strcasecmp amode early_video_str
      then AnswerMode.early_video
      else if libre.strcasecmp amode early_audio_str
      then AnswerMode.early_audio
      else if libre.strcasecmp amode auto_str
      then AnswerMode.auto
      else AnswerMode.manual

  unfoldable pub answermode_decode : Account → Params → Account
  answermode_decode acc prm = record acc {
    answermode = answermode_of (prm n_answermode);
    adelay = param_u32 acc.adelay (prm n_answerdelay);
  }

  -- `rel100_decode`.
  unfoldable pub rel100_of : Option Str → Rel100Mode
  rel100_of none = rel100_disabled
  rel100_of (some rmode) =
      if libre.strcasecmp rmode no_str
      then rel100_disabled
      else if libre.strcasecmp rmode yes_str
      then rel100_enabled
      else if libre.strcasecmp rmode required_str
      then rel100_required
      else rel100_disabled

  unfoldable pub rel100_decode : Account → Params → Account
  rel100_decode acc prm = record acc { rel100_mode = rel100_of (prm n_100rel) }

  -- `autoanswer_decode`.
  unfoldable pub beep_of : SipAnsBeep → Option Str → SipAnsBeep
  beep_of old none = old
  beep_of old (some v) =
      if libre.strcasecmp v on_str
      then beep_on
      else if libre.strcasecmp v off_str
      then beep_off
      else if libre.strcasecmp v local_str
      then beep_local
      else old

  unfoldable pub autoanswer_decode : Account → Params → Account
  autoanswer_decode acc prm =
      let (sipans, err) = param_bool acc.sipans (prm n_sip_autoanswer) in
      record acc {
        sipans = sipans;
        sipansbeep =
            if err == 0 then beep_of acc.sipansbeep (prm n_sip_autoanswer_beep) else acc.sipansbeep;
      }

  -- `dtmfmode_decode`.
  unfoldable pub dtmfmode_of : DtmfMode → Option Str → DtmfMode
  dtmfmode_of old none = old
  dtmfmode_of old (some mode) =
      if libre.strcasecmp mode info_str
      then DtmfMode.sip_info
      else if libre.strcasecmp mode auto_str
      then DtmfMode.dtmf_auto
      else DtmfMode.rtp_event

  unfoldable pub dtmfmode_decode : Account → Params → Account
  dtmfmode_decode acc prm = record acc { dtmfmode = dtmfmode_of acc.dtmfmode (prm n_dtmfmode) }

  -- `inreq_mode_decode`.
  unfoldable pub inreq_of : Option Str → InreqMode
  inreq_of none = inreq_on
  inreq_of (some mode) =
      if libre.strcasecmp mode no_str
      then inreq_off
      else if libre.strcasecmp mode yes_str
      then inreq_on
      else inreq_on

  unfoldable pub inreq_mode_decode : Account → Params → Account
  inreq_mode_decode acc prm = record acc { inreq_mode = inreq_of (prm n_inreq_allowed) }

  -- `uasauth_decode`.
  unfoldable pub uasauth_decode : Account → Params → Account
  uasauth_decode acc prm = record acc {
    uas_user = param_dstr acc.uas_user (prm n_uas_user);
    uas_pass = elim (prm n_uas_user) [
      | none ↦ acc.uas_pass
      | some user ↦ param_dstr acc.uas_pass (prm n_uas_pass)
    ];
  }

  -- `account_set_sipnat`: only outbound is known.
  unfoldable pub account_set_sipnat : Account → Option Str → Account × ℕ
  account_set_sipnat acc none = (record acc { sipnat = none }, 0)
  account_set_sipnat acc (some sipnat) =
      if libre.strcasecmp sipnat outbound_str
      then (record acc { sipnat = some sipnat }, 0)
      else (acc, einval)

  -- The share of the expiry time after which a registration is renewed, in percent, as
  -- `sip_params_decode` limits it.
  unfoldable pub limit_rwait : ℕ → ℕ
  limit_rwait rwait =
      if ltb 95 rwait then 95 else if not (rwait == 0) && ltb rwait 5 then 5 else rwait

  unfoldable pub source_port : ℕ → ℕ → ℕ
  source_port old u32 = if not (u32 == 0) && leb u32 65535 then u32 else old

  -- The first outbound proxy, also under its old name.
  unfoldable pub first_outbound : Option Str → Params → Option Str
  first_outbound old prm = elim (param_dstr old (prm n_outbound1)) [
    | none ↦ param_dstr none (prm n_outbound)
    | some ob ↦ some ob
  ]

  -- `sip_params_decode`; `random` is the draw of a number. The copies of the strings are taken to
  -- find memory. The error is that of the three Boolean parameters.
  unfoldable pub sip_params_decode : Account → Params → ℕ → Account × ℕ
  sip_params_decode acc prm random =
      let (outbound1, outbound2) = acc.outboundv in
      let nat = account_set_sipnat acc (prm n_sipnat) in
      let (mwi, e1) = param_bool true (prm n_mwi) in
      let (refer, e2) = param_bool true (prm n_call_transfer) in
      let (redirect, e3) = param_bool acc.autoredirect (prm n_sip_autoredirect) in
      (
        record acc {
          regint = param_u32 (3600 + bit_and random 255) (prm n_regint);
          prio = param_u32 acc.prio (prm n_prio);
          rwait = limit_rwait (param_u32 acc.rwait (prm n_rwait));
          fbregint = param_u32 acc.fbregint (prm n_fbregint);
          pubint = param_u32 0 (prm n_pubint);
          tcpsrcport = source_port acc.tcpsrcport (param_u32 0 (prm n_tcpsrcport));
          regq = param_dstr acc.regq (prm n_regq);
          outboundv = (first_outbound outbound1 prm, param_dstr outbound2 (prm n_outbound2));
          check_origin = (param_bool acc.check_origin (prm n_check_origin)).0;
          sipnat = nat.0.sipnat;
          auth_user = param_dstr acc.auth_user (prm n_auth_user);
          mwi = mwi;
          refer = refer;
          autoredirect = redirect;
        },
        bit_or (bit_or e1 e2) e3,
      )

  -- `media_decode`.
  unfoldable pub media_decode : Account → Params → Account × ℕ
  media_decode acc prm =
      let (rtcp_mux, e1) = param_bool acc.rtcp_mux (prm n_rtcp_mux) in
      let (pinhole, e2) = param_bool acc.pinhole (prm n_natpinhole) in
      (
        record acc {
          mencid = param_dstr acc.mencid (prm n_mediaenc);
          mnatid = param_dstr acc.mnatid (prm n_medianat);
          ptime = param_u32 acc.ptime (prm n_ptime);
          rtcp_mux = rtcp_mux;
          pinhole = pinhole;
        },
        bit_or e1 e2,
      )
