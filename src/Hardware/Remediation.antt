-- ===== src/Hardware/Remediation.antt =====
-- internal/hardware/hardware.go, Remediation: the advice for what a probe found not to work.
use codarr.Prelude.{
  String, Bool, true, false, not, ◌&&◌, List, [], ◌∷◌, ◌++◌, none, some, str_eq, join, ◌<>◌,
  if◌then◌else◌,
}
use codarr.Hardware.{
  backend_qsv, backend_vaapi, main, main10, encode, Backend, Direction, backend_name, codec_hevc,
  Capabilities, probed, entry, encodes, decodes_vp9,
}

abbrev device_name : Capabilities → String
device_name c = if str_eq c.device "" then "the render node" else c.device

unfoldable pub err_suffix : Capabilities → Backend → Direction → String → String → String
unfolding entry
err_suffix c b d codec profile = elim (entry c b d codec profile) [
  | none ↦ ""
  | some e ↦ if str_eq e.error "" then "" else ": " <> e.error
]

encode_advice : Capabilities → Backend → Bool → Bool → List String
unfolding err_suffix
encode_advice c b false false =
    (backend_name b
      <> " does not encode HEVC at all on this host"
      <> err_suffix c b encode codec_hevc "main"
      <> ". Check that "
      <> device_name c
      <> " is present in the container and that the process is a member of the render group.")
    ∷ []
encode_advice c b true false =
    (backend_name b
      <> " encodes HEVC Main but not Main10"
      <> err_suffix c b encode codec_hevc "main10"
      <> ". On Gen 9.5 the silicon supports Main10, so this is the driver stack rather than "
      <> "the hardware: install intel-media-va-driver-non-free and confirm vainfo lists "
      <> "VAProfileHEVCMain10.")
    ∷ []
encode_advice c b false true =
    (backend_name b
      <> " encodes HEVC Main10 but not Main"
      <> err_suffix c b encode codec_hevc "main"
      <> ", which is backwards and points at the driver stack.")
    ∷ []
encode_advice c b true true = []

decode_advice : Backend → List String
decode_advice b =
    (backend_name b
      <> " did not decode VP9, so VP9 sources decode in software. "
      <> "That costs CPU on a rare source format and is otherwise correct; nothing to fix.")
    ∷ []

unfoldable pub backend_remediation : Capabilities → Backend → List String
unfolding encodes decodes_vp9 encode_advice decode_advice
backend_remediation c b =
    encode_advice c b (encodes c b main) (encodes c b main10)
    ++ (if not (decodes_vp9 c b) then decode_advice b else [])

encoderless : List String
encoderless =
    ("No hardware encoder works, so every full job runs on libx265. "
      <> "Expect several times the wall-clock time per file.")
    ∷ []

unfoldable pub remediation_lines : Capabilities → List String
unfolding backend_remediation encoderless
remediation_lines c =
    backend_remediation c backend_qsv
    ++ (backend_remediation c backend_vaapi
        ++ (if not (encodes c backend_qsv main)
              && (not (encodes c backend_vaapi main)
                  && (not (encodes c backend_qsv main10) && not (encodes c backend_vaapi main10)))
            then encoderless
            else []))

unfoldable pub remediation : Capabilities → String
unfolding remediation_lines
remediation c =
    if not (probed c)
    then "Hardware has not been probed yet. Run the probe from the hardware page."
    else join "\n" (remediation_lines c)
