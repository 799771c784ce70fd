-- ===== src/Account.antt =====
-- src/account.c: the parameters of an account, from the address that configures it.
-- The parameters of the address are libre's lookup of a name in them: `Params` is the value, and
-- `Exists` whether the name is there, with a value or without one.
use baresip.Prelude.{ℕ, Bool, Option, List}
use baresip.Call.{AnswerMode, DtmfMode}
pub mod Words
pub mod Decode
pub mod Codecs
pub mod Complete
pub mod Modes
pub mod Limits
mod Tests

abbrev pub Str : Type 0
Str = List ℕ

-- The names of the parameters.
pub data Name : Type 0 where
  n_answermode n_answerdelay n_100rel n_sip_autoanswer n_sip_autoanswer_beep n_dtmfmode
        n_inreq_allowed n_uas_user n_uas_pass n_regint n_prio n_rwait n_fbregint n_pubint
        n_tcpsrcport n_regq n_outbound1 n_outbound2 n_outbound n_check_origin n_sipnat n_auth_user
        n_mwi n_call_transfer n_sip_autoredirect n_mediaenc n_medianat n_ptime n_rtcp_mux
        n_natpinhole n_audio_codecs n_video_codecs :
      Name

abbrev pub Params : Type 0
Params = Name → Option Str

abbrev pub Exists : Type 0
Exists = Name → Bool

-- `enum rel100_mode`, `enum sipansbeep`, `enum inreq_mode`.
pub data Rel100Mode : Type 0 where
  rel100_disabled rel100_enabled rel100_required : Rel100Mode

pub data SipAnsBeep : Type 0 where
  beep_off beep_on beep_local : SipAnsBeep

pub data InreqMode : Type 0 where
  inreq_off inreq_on : InreqMode

-- What `re_regex` finds with the two patterns for codecs: a name with what surrounds it, and the
-- parts of "codec/srate/ch".
pub record CslMatch : Type 0 where
  pub ws : Str
  pub val : Str
  pub ws2 : Str
  pub cma : Str

pub record CodecMatch : Type 0 where
  pub name : Str
  pub srate : Str
  pub ch : Str

-- What is taken from libre: the comparison of strings without case, a number and a Boolean in a
-- string, `re_regex` with each of the two patterns, and `pl_strcpy` into a buffer of a size.
pub record Libre : Type 0 where
  pub strcasecmp : Str → Str → Bool
  pub u32 : Str → ℕ
  pub bool : Str → Option Bool
  pub re_csl : Str → Option CslMatch
  pub re_codec : Str → Option CodecMatch
  pub pl_strcpy : Str → ℕ → Str

-- The registered codecs, of `struct aucodec` and `struct vidcodec` what is compared here.
pub record Aucodec : Type 0 where
  pub name : Str
  pub srate : ℕ
  pub ch : ℕ

pub record Vidcodec : Type 0 where
  pub name : Str

-- The parts of `struct account` that are decoded here.
pub record Account : Type 0 where
  pub answermode : AnswerMode
  pub adelay : ℕ
  pub rel100_mode : Rel100Mode
  pub sipans : Bool
  pub sipansbeep : SipAnsBeep
  pub dtmfmode : DtmfMode
  pub inreq_mode : InreqMode
  pub uas_user : Option Str
  pub uas_pass : Option Str
  pub regint : ℕ
  pub prio : ℕ
  pub rwait : ℕ
  pub fbregint : ℕ
  pub pubint : ℕ
  pub tcpsrcport : ℕ
  pub regq : Option Str
  pub outboundv : Option Str × Option Str
  pub check_origin : Bool
  pub sipnat : Option Str
  pub auth_user : Option Str
  pub mwi : Bool
  pub refer : Bool
  pub autoredirect : Bool
  pub mencid : Option Str
  pub mnatid : Option Str
  pub ptime : ℕ
  pub rtcp_mux : Bool
  pub pinhole : Bool
  pub aucodecl : List Aucodec
  pub vidcodecl : List Vidcodec
  pub videoen : Bool

abbrev pub einval : ℕ
einval = 22
