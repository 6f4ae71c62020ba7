-- ===== src/V3.antt =====
-- The version 3 protocol (src/v3.cc, include/trtc_asr/v3.h): its constants and the records it shares.
pub mod Checks
pub mod Api
pub mod Sentence
pub mod Task
pub mod Status
pub mod Realtime
pub mod Handshake
pub mod Client
pub mod Reader
mod Tests
pub mod Requests
pub mod Results
pub mod Ending
use trtc_asr_sdk_cpp.Common.{ℕ, ℤ, pos, Bytes}
use trtc_asr_sdk_cpp.Credential.{Credential}

abbrev pub source_type_url : ℤ
source_type_url = pos 0

abbrev pub source_type_data : ℤ
source_type_data = pos 1

abbrev pub speaker_diarization_off : ℤ
speaker_diarization_off = pos 0

abbrev pub speaker_diarization_voiceprint : ℤ
speaker_diarization_voiceprint = pos 3

abbrev pub speaker_context_off : ℤ
speaker_context_off = pos 0

abbrev pub speaker_context_sync : ℤ
speaker_context_sync = pos 1

abbrev pub speaker_context_async : ℤ
speaker_context_async = pos 2

pub record SpeakerRole : Type 0 where
  pub role_name : Bytes
  pub audio_url : Bytes

pub record AudioUrlItem : Type 0 where
  pub index : ℤ
  pub url : Bytes
  pub label : Bytes
