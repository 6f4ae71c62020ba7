-- ===== src/V3/Realtime/Setters.antt =====
-- The plain setters of the version 3 client (include/trtc_asr/v3.h).
use trtc_asr_sdk_cpp.Common.{ℤ, Bytes, some, List}
use trtc_asr_sdk_cpp.Params.Doubles.{Double}
use trtc_asr_sdk_cpp.V3.{SpeakerRole}
use trtc_asr_sdk_cpp.V3.Realtime.{Options}

abbrev pub set_endpoint : Bytes → Options → Options
set_endpoint value o = record o { endpoint = value }

abbrev pub set_voice_format : ℤ → Options → Options
set_voice_format value o = record o { voice_format = value }

abbrev pub set_need_vad : ℤ → Options → Options
set_need_vad value o = record o { need_vad = value }

abbrev pub set_convert_num_mode : ℤ → Options → Options
set_convert_num_mode value o = record o { convert_num_mode = value }

abbrev pub set_hotword_id : Bytes → Options → Options
set_hotword_id value o = record o { hotword_id = value }

abbrev pub set_hotword_list : Bytes → Options → Options
set_hotword_list value o = record o { hotword_list = value }

abbrev pub set_filter_dirty : ℤ → Options → Options
set_filter_dirty value o = record o { filter_dirty = value }

abbrev pub set_filter_modal : ℤ → Options → Options
set_filter_modal value o = record o { filter_modal = value }

abbrev pub set_filter_punc : ℤ → Options → Options
set_filter_punc value o = record o { filter_punc = value }

abbrev pub set_filter_empty_result : ℤ → Options → Options
set_filter_empty_result value o = record o { filter_empty_result = some value }

abbrev pub set_word_info : ℤ → Options → Options
set_word_info value o = record o { word_info = value }

abbrev pub set_word_with_space : ℤ → Options → Options
set_word_with_space value o = record o { word_with_space = value }

abbrev pub set_vad_silence_time : ℤ → Options → Options
set_vad_silence_time value o = record o { vad_silence_time = value }

abbrev pub set_vad_level : ℤ → Options → Options
set_vad_level value o = record o { vad_level = some value }

abbrev pub set_noise_threshold : Double → Options → Options
set_noise_threshold value o = record o { noise_threshold = some value }

abbrev pub set_max_speak_time : ℤ → Options → Options
set_max_speak_time value o = record o { max_speak_time = value }

abbrev pub set_input_sample_rate : ℤ → Options → Options
set_input_sample_rate value o = record o { input_sample_rate = value }

abbrev pub set_speaker_diarization : ℤ → Options → Options
set_speaker_diarization value o = record o { speaker_diarization = value }

abbrev pub set_speaker_number : ℤ → Options → Options
set_speaker_number value o = record o { speaker_number = value }

abbrev pub set_speaker_roles : List SpeakerRole → Options → Options
set_speaker_roles value o = record o { speaker_roles = value }

abbrev pub set_voiceprint_ids : List Bytes → Options → Options
set_voiceprint_ids value o = record o { voiceprint_ids = value }

abbrev pub set_enable_speaker_context : ℤ → Options → Options
set_enable_speaker_context value o = record o { enable_speaker_context = value }

abbrev pub set_voice_id : Bytes → Options → Options
set_voice_id value o = record o { voice_id = value }

abbrev pub set_language : Bytes → Options → Options
set_language value o = record o { language = value }
