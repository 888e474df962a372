-- ===== src/Decide/Video/Laws.antt =====
-- What the verdict of video.go means for the stream.
use codarr.Prelude.{
  ◌≤◌, ◌<◌, String, true, false, ◌≡◌, ◌≢◌, refl, ◌⊎◌, ◌↔◌, contains, arith, Bool-cases, inl, inr,
  List, [], ◌∷◌, ◌++◌, ℤ, pos, negsuc, if◌then◌else◌, ◌<>◌, zero, suc, contains-any, str_eq,
}
use codarr.Domain.Plan.{Scan, is_interlaced}
use codarr.Probe.{Stream, level_value, chroma}
use codarr.Probe.Chroma.{is_420}
use codarr.Decide.Policy.{video_copy_codecs, h264_copy_profiles, hevc_copy_profiles}
use codarr.Decide.Video.{
  CopyFailure, copy_failures, profile_failure, level_failure, chroma_failure, scan_failure,
  FailureKind, fail_codec, fail_profile, fail_chroma, fail_scan, only_level, fail_level,
  codec_name_of,
}

-- The copy test of the policy, said of the stream.
abbrev pub allowed_profiles : String → List String
allowed_profiles codec = if str_eq codec "h264" then h264_copy_profiles else hevc_copy_profiles

-- The level of an H.264 stream as ffprobe prints it, in tenths.
abbrev pub IsLevelFit : ℤ → Type 0
IsLevelFit (pos n) = (0 < n) × (n ≤ 42)
IsLevelFit (negsuc n) = ⊥

pub record IsCopyable (s : Stream) (scan : Scan) : Type 0 where
  pub codec : contains video_copy_codecs s.codec_name ≡ true
  pub profile : contains (allowed_profiles s.codec_name) s.profile ≡ true
  pub level : str_eq s.codec_name "h264" ≡ true → IsLevelFit s.level
  pub chroma_fits : is_420 (chroma s) ≡ true
  pub progressive_scan : is_interlaced scan ≡ false

not_blank :
    (codec profile : String)
    → contains (allowed_profiles codec) profile ≡ true
    → str_eq profile "" ≡ false
not_blank codec profile h = elim (Bool-cases (str_eq codec "h264")) [
  | inl e ↦ contains-any (λ t. str_eq t "") h264_copy_profiles profile refl (rw e at h)
  | inr e ↦ contains-any (λ t. str_eq t "") hevc_copy_profiles profile refl (rw e at h)
]

profile_failure-nil :
    (s : Stream)
    → (profile_failure s ≡ []) ↔ (contains (allowed_profiles s.codec_name) s.profile ≡ true)
unfolding profile_failure
profile_failure-nil s = ground (arith, not_blank s.codec_name s.profile)

level_failure_at :
    (s : Stream) (l : ℤ)
    → s.level ≡ l
    → str_eq s.codec_name "h264" ≡ true
    → (level_failure s ≡ []) ↔ IsLevelFit l
unfolding level_failure level_value
level_failure_at s (pos zero) e h = ground arith
level_failure_at s (pos (suc n)) e h = ground arith
level_failure_at s (negsuc n) e h = ground arith

level_failure-nil :
    (s : Stream) → (level_failure s ≡ []) ↔ (str_eq s.codec_name "h264" ≡ true → IsLevelFit s.level)
unfolding level_failure
level_failure-nil s = elim (Bool-cases (str_eq s.codec_name "h264")) [
  | inl e ↦
      let at_level = level_failure_at s s.level refl e in
      (λ h _. at_level.0 h, λ fit. at_level.1 (fit e))
  | inr e ↦ (λ _ k. cc, λ _. ground arith)
]

chroma_failure-nil : (s : Stream) → (chroma_failure s ≡ []) ↔ (is_420 (chroma s) ≡ true)
unfolding chroma_failure
chroma_failure-nil s = ground arith

scan_failure-nil : (scan : Scan) → (scan_failure scan ≡ []) ↔ (is_interlaced scan ≡ false)
unfolding scan_failure
scan_failure-nil scan = ground arith

append-nil_iff {ℓ} : {A : Type ℓ} (xs ys : List A) → (xs ++ ys ≡ []) ↔ ((xs ≡ []) × (ys ≡ []))
append-nil_iff [] ys = ground arith
append-nil_iff (x ∷ xs) ys = ground arith

-- A list of at most one failure, of one kind.
abbrev AtMostOne : FailureKind → List CopyFailure → Type 0
AtMostOne k fails = (fails ≡ []) ⊎ ((t : String) × (fails ≡ record { kind = k; text = t } ∷ []))

module _ (s : Stream) where
  profile_shape : AtMostOne fail_profile (profile_failure s)
  unfolding profile_failure
  profile_shape = ground arith

  level_shape :
      (level_failure s ≡ [])
      ⊎ ((t : String) × (level_failure s ≡ record { kind = fail_level; text = t } ∷ [])
          × (str_eq s.codec_name "h264" ≡ true))
  unfolding level_failure
  level_shape = ground arith

  chroma_shape : AtMostOne fail_chroma (chroma_failure s)
  unfolding chroma_failure
  chroma_shape = ground arith

scan_shape : (scan : Scan) → AtMostOne fail_scan (scan_failure scan)
unfolding scan_failure
scan_shape scan = ground arith

module _ (s : Stream) (scan : Scan) where
  listed-copy_failures :
      contains video_copy_codecs s.codec_name ≡ true
      → copy_failures s scan
        ≡ profile_failure s ++ (level_failure s ++ (chroma_failure s ++ scan_failure scan))
  unfolding copy_failures
  listed-copy_failures h = rw (h, copy_failures)

  unlisted-copy_failures :
      contains video_copy_codecs s.codec_name ≡ false
      → copy_failures s scan
        ≡ record {
          kind = fail_codec;
          text = "codec " <> codec_name_of s <> " is not on the copy list";
        }
          ∷ scan_failure scan
  unfolding copy_failures
  unlisted-copy_failures h = rw (h, copy_failures)

-- The tests that a stream failing only on its level has passed.
only_level_parts :
    (p l c sc : List CopyFailure)
    → AtMostOne fail_profile p
    → AtMostOne fail_level l
    → AtMostOne fail_chroma c
    → AtMostOne fail_scan sc
    → only_level (p ++ (l ++ (c ++ sc))) ≡ true
    → (p ≡ []) × (c ≡ []) × (sc ≡ []) × (l ≢ [])
only_level_parts p l c sc hp hl hc hs h = ground arith

-- A stream passes the copy test exactly when its codec and profile are listed, its level is known and
-- at most 4.2 where it is H.264, its chroma is 4:2:0 and it is progressive.
pub copy_failures-nil_iff :
    (s : Stream) (scan : Scan) → (copy_failures s scan ≡ []) ↔ IsCopyable s scan
copy_failures-nil_iff s scan = elim (Bool-cases (contains video_copy_codecs s.codec_name)) [
  | inl e ↦ rw (listed-copy_failures s scan e) (
    λ h.
        let (p, h₁) = (append-nil_iff _ _).0 h in
        let (l, h₂) = (append-nil_iff _ _).0 h₁ in
        let (c, sc) = (append-nil_iff _ _).0 h₂ in
        record {
          codec = e;
          profile = (profile_failure-nil s).0 p;
          level = (level_failure-nil s).0 l;
          chroma_fits = (chroma_failure-nil s).0 c;
          progressive_scan = (scan_failure-nil scan).0 sc;
        },
    λ fits. (append-nil_iff _ _).1 (
      (profile_failure-nil s).1 fits.profile,
      (append-nil_iff _ _).1 (
        (level_failure-nil s).1 fits.level,
        (append-nil_iff _ _).1 (
          (chroma_failure-nil s).1 fits.chroma_fits,
          (scan_failure-nil scan).1 fits.progressive_scan,
        ),
      ),
    ),
  )
  | inr e ↦
      rw (unlisted-copy_failures s scan e) (λ h. cc, λ fits. absurd (ground (arith, fits.codec)))
]

one_level : (s : Stream) → AtMostOne fail_level (level_failure s)
one_level s = elim (level_shape s) [ inl e ↦ inl e | inr (t, e, _) ↦ inr (t, e) ]

level_h264 : (s : Stream) → level_failure s ≢ [] → str_eq s.codec_name "h264" ≡ true
level_h264 s some_level = elim (level_shape s) [ inl e ↦ absurd (some_level e) | inr (_, _, e) ↦ e ]

-- What is left of the copy test where only the level failed.
pub only_level_cases :
    (s : Stream) (scan : Scan)
    → only_level (copy_failures s scan) ≡ true
    → (contains video_copy_codecs s.codec_name ≡ true)
      × (str_eq s.codec_name "h264" ≡ true)
      × (contains (allowed_profiles s.codec_name) s.profile ≡ true)
      × (is_420 (chroma s) ≡ true)
      × (is_interlaced scan ≡ false)
only_level_cases s scan h = elim (Bool-cases (contains video_copy_codecs s.codec_name)) [
  | inl e ↦
      let (p, c, sc, some_level) =
        only_level_parts _ _ _ _ (profile_shape s) (one_level s) (chroma_shape s) (scan_shape scan)
          (rw (listed-copy_failures s scan e) at h) in
      (
        e,
        level_h264 s some_level,
        (profile_failure-nil s).0 p,
        (chroma_failure-nil s).0 c,
        (scan_failure-nil scan).0 sc,
      )
  | inr e ↦ absurd (
      ground (
        arith,
        scan_shape scan,
        let k : only_level (copy_failures s scan) ≡ true = h in
            rw (unlisted-copy_failures s scan e) at k,
      ))
]
