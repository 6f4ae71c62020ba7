-- ===== src/Credential.antt =====
-- Sites, endpoints and credentials (include/trtc_asr/credential.h).
pub mod Trim
use mathlib.Core.List.{map}
use trtc_asr_sdk_cpp.Common.{
  ℕ, ◌+◌, ◌≡◌, refl, Bool, true, false, ◌&&◌, ◌||◌, List, [], ◌∷◌, ◌++◌, ℤ, Bytes, codes, is_empty,
  bytes_eq, leb, ◌==◌, if◌then◌else◌, Result, ok, throw, asr_error, err_invalid_param, ◌>>=◌,
  to_string,
}

-- `std::isspace` and `std::tolower` in the C locale.
abbrev pub is_space : ℕ → Bool
is_space c = c == 0x20 || (leb 0x9 c && leb c 0xd)

abbrev pub to_lower : ℕ → ℕ
to_lower c = if leb b'A' c && leb c b'Z' then c + 32 else c

-- The two loops that erase spaces at the ends.
pub trim_front : Bytes → Bytes
trim_front [] = []
trim_front (c ∷ s) = let rest = trim_front s in if is_space c then rest else c ∷ s

pub trim_back : Bytes → Bytes
trim_back [] = []
trim_back (c ∷ s) = let rest = trim_back s in if is_empty rest && is_space c then [] else c ∷ rest

unfoldable pub trim : Bytes → Bytes
unfolding trim_front trim_back
trim s = trim_back (trim_front s)

abbrev pub host_cn : Bytes
host_cn = codes "asr.cloud-rtc.com"

abbrev pub host_intl : Bytes
host_intl = codes "asr-intl.cloud-rtc.com"

unfoldable pub host_of_name : Bytes → Bytes → Result Bytes
unfolding bytes_eq
host_of_name original site =
    if is_empty site || bytes_eq site (codes "cn")
    then ok host_cn
    else if bytes_eq site (codes "intl")
    then ok host_intl
    else throw (
        asr_error err_invalid_param
          (codes "unsupported site \"" ++ (original ++ codes "\", want \"cn\" or \"intl\"")))

unfoldable pub host_for_site : Bytes → Result Bytes
unfolding host_of_name trim
host_for_site site = host_of_name site (map to_lower (trim site))

abbrev pub ws_endpoint_for_site : Bytes → Result Bytes
ws_endpoint_for_site site = do host ← host_for_site site; ok (codes "wss://" ++ host)

abbrev pub http_endpoint_for_site : Bytes → Result Bytes
http_endpoint_for_site site = do host ← host_for_site site; ok (codes "https://" ++ host)

abbrev pub resolve_ws_endpoint : Bytes → Bytes → Result Bytes
resolve_ws_endpoint override_ep site =
    if is_empty override_ep then ws_endpoint_for_site site else ok override_ep

abbrev pub resolve_http_endpoint : Bytes → Bytes → Result Bytes
resolve_http_endpoint override_ep site =
    if is_empty override_ep then http_endpoint_for_site site else ok override_ep

pub record Credential : Type 0 where
  pub app_id : ℤ
  pub sdk_app_id : ℤ
  pub secret_key : Bytes
  pub user_sig : Bytes
  pub site : Bytes

abbrev pub new_credential : ℤ → ℤ → Bytes → Credential
new_credential app_id sdk_app_id secret_key = record {
  app_id = app_id;
  sdk_app_id = sdk_app_id;
  secret_key = secret_key;
  user_sig = [];
  site = [];
}

abbrev pub set_user_sig : Bytes → Credential → Credential
set_user_sig user_sig c = record c { user_sig = user_sig }

abbrev pub set_site : Bytes → Credential → Credential
set_site site c = record c { site = site }

intl_in_capitals : host_for_site (codes " INTL ") ≡ ok host_intl
unfolding host_for_site
intl_in_capitals = refl
