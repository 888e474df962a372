-- ===== src/Hardware.antt =====
-- internal/hardware/hardware.go: which encoder a job uses, where its video is decoded, and what is
-- tried after a failure. A probe's entries are data; the time of the probe is left out.
pub mod Remediation
pub mod Laws
use codarr.Prelude.{
  ℕ, String, Bool, true, false, not, ◌&&◌, List, [], ◌∷◌, ◌++◌, Option, none, some, find_first,
  is_empty, str_eq, join, ◌<>◌, if◌then◌else◌,
}
use codarr.Domain.Plan.{
  Encoder, no_encoder, qsv, vaapi, software, encoder_name, DecodePath, on_hardware, in_software,
}
use codarr.Decide.Policy.{hardware_decodable}

-- domain.HWCapability: one probed path.
pub record HwCapability : Type 0 where
  pub backend : String
  pub codec : String
  pub profile : String
  pub direction : String
  pub works : Bool
  pub error : String

pub data Backend : Type 0 where
  backend_qsv backend_vaapi : Backend

pub data Profile : Type 0 where
  main main10 : Profile

pub data Direction : Type 0 where
  encode decode : Direction

abbrev pub backend_name : Backend → String
backend_name backend_qsv = "qsv"
backend_name backend_vaapi = "vaapi"

abbrev pub profile_name : Profile → String
profile_name main = "main"
profile_name main10 = "main10"

abbrev direction_name : Direction → String
direction_name encode = "encode"
direction_name decode = "decode"

abbrev pub codec_hevc : String
codec_hevc = "hevc"

abbrev codec_vp9 : String
codec_vp9 = "vp9"

abbrev pub profile_for : Bool → Profile
profile_for hdr = if hdr then main10 else main

unfoldable pub encoder_for : Backend → Encoder
encoder_for backend_qsv = qsv
encoder_for backend_vaapi = vaapi

unfoldable pub backend_of : Encoder → Option Backend
backend_of qsv = some backend_qsv
backend_of vaapi = some backend_vaapi
backend_of software = none
backend_of no_encoder = none

pub record Capabilities : Type 0 where
  pub device : String
  pub ffmpeg_version : String
  pub entries : List HwCapability

abbrev pub probed : Capabilities → Bool
probed c = not (is_empty c.entries)

unfoldable pub entry : Capabilities → Backend → Direction → String → String → Option HwCapability
entry c b d codec profile =
    find_first
      (λ e.
        str_eq e.backend (backend_name b)
        && (str_eq e.direction (direction_name d)
            && (str_eq e.codec codec && str_eq e.profile profile)))
      c.entries

unfoldable pub works : Capabilities → Backend → Direction → String → String → Bool
unfolding entry
works c b d codec profile = elim (entry c b d codec profile) [ none ↦ false | some e ↦ e.works ]

unfoldable pub encodes : Capabilities → Backend → Profile → Bool
unfolding works
encodes c b p = works c b encode codec_hevc (profile_name p)

unfoldable pub decodes : Capabilities → Backend → String → Bool
unfolding works
decodes c b codec = works c b decode codec ""

unfoldable pub decodes_vp9 : Capabilities → Backend → Bool
unfolding decodes
decodes_vp9 c b = decodes c b codec_vp9

pub record Selection : Type 0 where
  pub encoder : Encoder
  pub profile : Profile
  pub fell_back : Bool
  pub software_only : Bool
  pub reason : String

software_reason : Capabilities → Profile → String
software_reason c p =
    if not (probed c)
    then "hardware has not been probed, so no accelerated encoder can be trusted for HEVC "
      <> profile_name p
      <> "; libx265 is many times slower"
    else "neither QSV nor VAAPI encodes HEVC "
      <> profile_name p
      <> " on this host; libx265 is many times slower"

unfoldable pub select : Capabilities → Bool → Selection
unfolding encodes software_reason
select c hdr =
    let p = profile_for hdr in
    if encodes c backend_qsv p
    then record {
      encoder = qsv;
      profile = p;
      fell_back = false;
      software_only = false;
      reason = "";
    }
    else if encodes c backend_vaapi p
    then record {
      encoder = vaapi;
      profile = p;
      fell_back = true;
      software_only = false;
      reason = "QSV does not encode HEVC " <> profile_name p <> " on this host";
    }
    else record {
      encoder = software;
      profile = p;
      fell_back = true;
      software_only = true;
      reason = software_reason c p;
    }

abbrev to_software : Encoder → Profile → Selection
to_software current p = record {
  encoder = software;
  profile = p;
  fell_back = true;
  software_only = true;
  reason = encoder_name current <> " failed at runtime and no other hardware encoder works";
}

-- The encoder to try after `current` failed.
unfoldable pub next : Capabilities → Encoder → Bool → Option Selection
unfolding encodes
next c qsv hdr =
    if encodes c backend_vaapi (profile_for hdr)
    then some (record {
      encoder = vaapi;
      profile = profile_for hdr;
      fell_back = true;
      software_only = false;
      reason = "hevc_qsv failed at runtime";
    })
    else some (to_software qsv (profile_for hdr))
next c vaapi hdr = some (to_software vaapi (profile_for hdr))
next c software hdr = none
next c no_encoder hdr = none

unfoldable pub decode_path : Capabilities → Encoder → String → DecodePath
unfolding backend_of decodes_vp9 hardware_decodable
decode_path c enc source_codec = elim (backend_of enc) [
  | none ↦ in_software
  | some b ↦
      if not (hardware_decodable source_codec)
      then in_software
      else if str_eq source_codec codec_vp9 && not (decodes_vp9 c b)
      then in_software
      else on_hardware
]

abbrev pub retry_reason : String
retry_reason = "hardware decode failed; retrying once with software decode plus hwupload"

-- `RetryInSoftware`: the reason of the retry, where one is due.
unfoldable pub retry_in_software : DecodePath → Bool → Option String
retry_in_software on_hardware already = if already then none else some retry_reason
retry_in_software in_software already = none
