-- ===== src/Ffmpeg/Argv/Laws.antt =====
-- The decode path of an argument vector.
use codarr.Prelude.{
  true, false, List, none, ok, ◌≡◌, refl, sym, arith, Bool-cases, Option-cases, inl, inr, ◌∙◌, ◌⊎◌,
  str_eq,
}
use codarr.Domain.Plan.{
  is_software, Encoder, no_encoder, qsv, vaapi, software, encoder_name, needs_write, on_hardware,
}
use codarr.Ffmpeg.Argv.{
  Request, Command, OutStream, output_streams, encodes_video, decode_path, build, validate,
  validate_encode,
}

-- What a command that was built rests on.
build-ok :
    (req : Request) {cmd : Command}
    → build req ≡ ok cmd
    → (validate req (output_streams req.plan.streams) ≡ none) × (cmd.decode_path ≡ decode_path req)
unfolding build
build-ok req {cmd} e = elim (Bool-cases (needs_write req.plan)) [
  | inr q ↦ absurd (cc (rw q at e))
  | inl q ↦ elim (Option-cases (validate req (output_streams req.plan.streams))) [
    | inr (x, v) ↦ absurd (cc (rw (q, v) at e))
    | inl v ↦ (v, ground (arith, rw (q, v) at e))
  ]
]

decode_path-on_hardware :
    (req : Request)
    → decode_path req ≡ on_hardware
    → (encodes_video req.plan ≡ true) × (is_software req.encoder ≡ false)
unfolding decode_path
decode_path-on_hardware req d = ground (arith, d)

validate-has_encoder :
    (req : Request) (outs : List OutStream)
    → validate req outs ≡ none
    → encodes_video req.plan ≡ true
    → str_eq (encoder_name req.encoder) "" ≡ false
unfolding validate validate_encode
validate-has_encoder req outs v k = ground (arith, v, k)

hardware_encoder :
    (e : Encoder)
    → is_software e ≡ false
    → str_eq (encoder_name e) "" ≡ false
    → (e ≡ qsv) ⊎ (e ≡ vaapi)
hardware_encoder qsv h k = inl refl
hardware_encoder vaapi h k = inr refl
hardware_encoder software h k = absurd (cc h)
hardware_encoder no_encoder h k = absurd (cc k)

-- A command that decodes on the hardware encodes with one of the two hardware encoders.
pub build-on_hardware :
    (req : Request) {cmd : Command}
    → build req ≡ ok cmd
    → cmd.decode_path ≡ on_hardware
    → (req.encoder ≡ qsv) ⊎ (req.encoder ≡ vaapi)
build-on_hardware req e d =
    let (valid, same) = build-ok req e in
    let (encoded, hard) = decode_path-on_hardware req (sym same ∙ d) in
    hardware_encoder req.encoder hard (validate-has_encoder req _ valid encoded)
