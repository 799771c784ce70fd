-- ===== src/Account/Modes.antt =====
-- src/account.c: the modes of an account are printed in the words in which they are configured.
use baresip.Prelude.{ℕ, ◌≡◌, refl, ◌+◌, ◌&&◌, some, map, leb, if◌then◌else◌}
use baresip.Call.{AnswerMode, DtmfMode}
use baresip.Call.Lines.{same_text}
use baresip.Account.{
  Str, Libre, Rel100Mode, rel100_disabled, rel100_enabled, rel100_required, SipAnsBeep, beep_off,
  beep_on, beep_local, InreqMode, inreq_off, inreq_on,
}
use baresip.Account.Words.{
  answermode_str, rel100_mode_str, dtmfmode_str, sipansbeep_str, inreq_mode_str, manual_str,
  early_str, early_video_str, early_audio_str, auto_str, no_str, yes_str, required_str, on_str,
  off_str, local_str, info_str, rtpevent_str,
}
use baresip.Account.Decode.{answermode_of, rel100_of, beep_of, dtmfmode_of, inreq_of}

-- A letter in lower case.
abbrev pub tolower : ℕ → ℕ
tolower c = if leb 65 c && leb c 90 then c + 32 else c

module _ (libre : Libre)
    (compares : (a b : Str)
      → libre.strcasecmp a b ≡ same_text (map tolower a) (map tolower b)) where
  answermode_back : (m : AnswerMode) → answermode_of libre (some (answermode_str m)) ≡ m
  unfolding answermode_of answermode_str
  answermode_back AnswerMode.manual = rw (compares manual_str manual_str) refl
  answermode_back AnswerMode.early =
      rw (compares early_str manual_str, compares early_str early_str) refl
  answermode_back AnswerMode.auto =
      rw
        (
          compares auto_str manual_str,
          compares auto_str early_str,
          compares auto_str early_video_str,
          compares auto_str early_audio_str,
          compares auto_str auto_str,
        )
        refl
  answermode_back AnswerMode.early_audio =
      rw
        (
          compares early_audio_str manual_str,
          compares early_audio_str early_str,
          compares early_audio_str early_video_str,
          compares early_audio_str early_audio_str,
        )
        refl
  answermode_back AnswerMode.early_video =
      rw
        (
          compares early_video_str manual_str,
          compares early_video_str early_str,
          compares early_video_str early_video_str,
        )
        refl

  rel100_back : (m : Rel100Mode) → rel100_of libre (some (rel100_mode_str m)) ≡ m
  unfolding rel100_of rel100_mode_str
  rel100_back rel100_disabled = rw (compares no_str no_str) refl
  rel100_back rel100_enabled = rw (compares yes_str no_str, compares yes_str yes_str) refl
  rel100_back rel100_required =
      rw
        (
          compares required_str no_str,
          compares required_str yes_str,
          compares required_str required_str,
        )
        refl

  beep_back : (old m : SipAnsBeep) → beep_of libre old (some (sipansbeep_str m)) ≡ m
  unfolding beep_of sipansbeep_str
  beep_back old beep_on = rw (compares on_str on_str) refl
  beep_back old beep_off = rw (compares off_str on_str, compares off_str off_str) refl
  beep_back old beep_local =
      rw (compares local_str on_str, compares local_str off_str, compares local_str local_str) refl

  dtmf_back : (old m : DtmfMode) → dtmfmode_of libre old (some (dtmfmode_str m)) ≡ m
  unfolding dtmfmode_of dtmfmode_str
  dtmf_back old DtmfMode.sip_info = rw (compares info_str info_str) refl
  dtmf_back old DtmfMode.dtmf_auto =
      rw (compares auto_str info_str, compares auto_str auto_str) refl
  dtmf_back old DtmfMode.rtp_event =
      rw (compares rtpevent_str info_str, compares rtpevent_str auto_str) refl

  inreq_back : (m : InreqMode) → inreq_of libre (some (inreq_mode_str m)) ≡ m
  unfolding inreq_of inreq_mode_str
  inreq_back inreq_off = rw (compares no_str no_str) refl
  inreq_back inreq_on = rw (compares yes_str no_str, compares yes_str yes_str) refl

  -- Each mode is read back from the word in which it is printed, whatever was set before, if
  -- strings are compared letter by letter without case.
  pub decode-str :
      (mode : AnswerMode) (rel100 : Rel100Mode) (beep beep' : SipAnsBeep) (dtmf dtmf' : DtmfMode)
      (inreq : InreqMode)
      → (answermode_of libre (some (answermode_str mode)) ≡ mode)
        × (rel100_of libre (some (rel100_mode_str rel100)) ≡ rel100)
        × (beep_of libre beep' (some (sipansbeep_str beep)) ≡ beep)
        × (dtmfmode_of libre dtmf' (some (dtmfmode_str dtmf)) ≡ dtmf)
        × (inreq_of libre (some (inreq_mode_str inreq)) ≡ inreq)
  decode-str mode rel100 beep beep' dtmf dtmf' inreq = (
    answermode_back mode,
    rel100_back rel100,
    beep_back beep' beep,
    dtmf_back dtmf' dtmf,
    inreq_back inreq,
  )
