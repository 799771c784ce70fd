-- ===== src/Account/Words.antt =====
-- src/account.c: the words for the modes.
use baresip.Prelude.{[], ◌∷◌}
use baresip.Call.{AnswerMode, DtmfMode}
use baresip.Account.{
  Str, Rel100Mode, rel100_disabled, rel100_enabled, rel100_required, SipAnsBeep, beep_off, beep_on,
  beep_local, InreqMode, inreq_off, inreq_on,
}

-- The values of parameters.
abbrev pub manual_str : Str
manual_str = b'm' ∷ b'a' ∷ b'n' ∷ b'u' ∷ b'a' ∷ b'l' ∷ []

abbrev pub early_str : Str
early_str = b'e' ∷ b'a' ∷ b'r' ∷ b'l' ∷ b'y' ∷ []

abbrev pub early_video_str : Str
early_video_str = b'e' ∷ b'a' ∷ b'r' ∷ b'l' ∷ b'y' ∷ b'-' ∷ b'v' ∷ b'i' ∷ b'd' ∷ b'e' ∷ b'o' ∷ []

abbrev pub early_audio_str : Str
early_audio_str = b'e' ∷ b'a' ∷ b'r' ∷ b'l' ∷ b'y' ∷ b'-' ∷ b'a' ∷ b'u' ∷ b'd' ∷ b'i' ∷ b'o' ∷ []

abbrev pub auto_str : Str
auto_str = b'a' ∷ b'u' ∷ b't' ∷ b'o' ∷ []

abbrev pub no_str : Str
no_str = b'n' ∷ b'o' ∷ []

abbrev pub yes_str : Str
yes_str = b'y' ∷ b'e' ∷ b's' ∷ []

abbrev pub required_str : Str
required_str = b'r' ∷ b'e' ∷ b'q' ∷ b'u' ∷ b'i' ∷ b'r' ∷ b'e' ∷ b'd' ∷ []

abbrev pub on_str : Str
on_str = b'o' ∷ b'n' ∷ []

abbrev pub off_str : Str
off_str = b'o' ∷ b'f' ∷ b'f' ∷ []

abbrev pub local_str : Str
local_str = b'l' ∷ b'o' ∷ b'c' ∷ b'a' ∷ b'l' ∷ []

abbrev pub info_str : Str
info_str = b'i' ∷ b'n' ∷ b'f' ∷ b'o' ∷ []

abbrev pub rtpevent_str : Str
rtpevent_str = b'r' ∷ b't' ∷ b'p' ∷ b'e' ∷ b'v' ∷ b'e' ∷ b'n' ∷ b't' ∷ []

abbrev pub outbound_str : Str
outbound_str = b'o' ∷ b'u' ∷ b't' ∷ b'b' ∷ b'o' ∷ b'u' ∷ b'n' ∷ b'd' ∷ []

-- `answermode_str`, `rel100_mode_str`, `dtmfmode_str`, `sipansbeep_str`, `inreq_mode_str`.
unfoldable pub answermode_str : AnswerMode → Str
answermode_str AnswerMode.manual = manual_str
answermode_str AnswerMode.early = early_str
answermode_str AnswerMode.auto = auto_str
answermode_str AnswerMode.early_audio = early_audio_str
answermode_str AnswerMode.early_video = early_video_str

unfoldable pub rel100_mode_str : Rel100Mode → Str
rel100_mode_str rel100_enabled = yes_str
rel100_mode_str rel100_disabled = no_str
rel100_mode_str rel100_required = required_str

unfoldable pub dtmfmode_str : DtmfMode → Str
dtmfmode_str DtmfMode.rtp_event = rtpevent_str
dtmfmode_str DtmfMode.sip_info = info_str
dtmfmode_str DtmfMode.dtmf_auto = auto_str

unfoldable pub sipansbeep_str : SipAnsBeep → Str
sipansbeep_str beep_off = off_str
sipansbeep_str beep_on = on_str
sipansbeep_str beep_local = local_str

unfoldable pub inreq_mode_str : InreqMode → Str
inreq_mode_str inreq_off = no_str
inreq_mode_str inreq_on = yes_str
