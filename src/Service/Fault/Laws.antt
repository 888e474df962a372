-- ===== src/Service/Fault/Laws.antt =====
-- What a failed job carries.
use codarr.Prelude.{
  String, true, false, ◌||◌, some, str_eq, ◌<>◌, ◌≡◌, ◌≢◌, refl, sym, ◌∙◌, arith, Bool-cases,
  Option-cases, inl, inr, eq_iff,
}
use package.text.Mathlib.TextLemmas.{append-ne-nil_of_right_ne-nil, append-eq-nil_iff}
use codarr.Promote.Types
use codarr.Jobs.Types.{Failed}
use codarr.Jobs.Queue.{is_code}
use codarr.Service.Fault.{
  Fault, own, own_wrap, promoting, wrapped, joined, sentinel, other, spent, classify, own_of,
  promoting_of, by_sentinel, text, is_caused_by, ffmpeg_failed, ffmpeg_start, probe_failed,
  unreadable, job_code,
}

-- A failure that the store takes: it has a code and a message.
abbrev pub IsTold : Failed → Type 0
IsTold f = (is_code f.code ≡ true) × (str_eq f.message "" ≡ false)

-- Every error of the service's own in the chain has a code and a message, every promotion error a
-- message.
unfoldable pub IsCoded : Fault → Type 0
IsCoded (own c m tail) = (is_code c ≡ true) × (str_eq m "" ≡ false)
IsCoded (own_wrap c m tail e) = (is_code c ≡ true) × IsCoded e
IsCoded (promoting c m) = str_eq m "" ≡ false
IsCoded (wrapped m e) = IsCoded e
IsCoded (joined m e f) = IsCoded e × IsCoded f
IsCoded (sentinel s) = Unit
IsCoded (other m) = Unit
IsCoded spent = Unit

pub told : (s : String) → s ≢ "" → str_eq s "" ≡ false
told s ne = elim (Bool-cases (str_eq s "")) [ inl e ↦ absurd (ne ((eq_iff s "").0 e)) | inr e ↦ e ]

full : (s : String) → str_eq s "" ≡ false → s ≢ ""
full s h e = absurd (cc (sym ((eq_iff s "").1 e) ∙ h))

-- A text with a part that is not empty.
pub told_after : (m t : String) → str_eq t "" ≡ false → str_eq (m <> t) "" ≡ false
told_after m t h = told (m <> t) (append-ne-nil_of_right_ne-nil m (full t h))

pub told_before : (m t : String) → str_eq m "" ≡ false → str_eq (m <> t) "" ≡ false
told_before m t h = told (m <> t) (λ e. full m h (append-eq-nil_iff.0 e).0)

colon-told : (m t : String) → str_eq (m <> ": " <> t) "" ≡ false
colon-told m t = told_after m (": " <> t) (told_before ": " t refl)

own_of-IsTold : (e : Fault) {f : Failed} → IsCoded e → own_of e ≡ some f → IsTold f
unfolding own_of IsCoded
own_of-IsTold (own c m tail) h e = ground (arith, h, e)
own_of-IsTold (own_wrap c m tail x) h e = ground (arith, h, e, colon-told m (text x))
own_of-IsTold (wrapped m x) h e = own_of-IsTold x h e
own_of-IsTold (joined m x y) (hx, hy) e = elim (Option-cases (own_of x)) [
  | inl n ↦ own_of-IsTold y hy (rw n at e)
  | inr (g, q) ↦ own_of-IsTold x hx (q ∙ (rw q at e))
]
own_of-IsTold (promoting c m) h e = ground (arith, e)
own_of-IsTold (sentinel s) h e = ground (arith, e)
own_of-IsTold (other m) h e = ground (arith, e)
own_of-IsTold spent h e = ground (arith, e)

code_told : (c : Types.FailureCode) → is_code (job_code c) ≡ true
code_told c = ground arith

promoting_of-IsTold : (e : Fault) {f : Failed} → IsCoded e → promoting_of e ≡ some f → IsTold f
unfolding promoting_of IsCoded
promoting_of-IsTold (promoting c m) h e = ground (arith, h, e, code_told c)
promoting_of-IsTold (own_wrap c m tail x) h e = promoting_of-IsTold x h.1 e
promoting_of-IsTold (wrapped m x) h e = promoting_of-IsTold x h e
promoting_of-IsTold (joined m x y) (hx, hy) e = elim (Option-cases (promoting_of x)) [
  | inl n ↦ promoting_of-IsTold y hy (rw n at e)
  | inr (g, q) ↦ promoting_of-IsTold x hx (q ∙ (rw q at e))
]
promoting_of-IsTold (own c m tail) h e = ground (arith, e)
promoting_of-IsTold (sentinel s) h e = ground (arith, e)
promoting_of-IsTold (other m) h e = ground (arith, e)
promoting_of-IsTold spent h e = ground (arith, e)

by_sentinel-IsTold : (e : Fault) → IsTold (by_sentinel e)
unfolding by_sentinel
by_sentinel-IsTold e =
    elim (Bool-cases (is_caused_by ffmpeg_failed e || is_caused_by ffmpeg_start e)) [
      | inl p ↦ rw (by_sentinel, p) (refl, colon-told _ (text e))
      | inr p ↦ elim (Bool-cases (is_caused_by probe_failed e || is_caused_by unreadable e)) [
        | inl q ↦ rw (by_sentinel, p, q) (refl, colon-told _ (text e))
        | inr q ↦ rw (by_sentinel, p, q) (refl, colon-told _ (text e))
      ]
    ]

-- Whatever error a job stops on, the code and the message that it is classified by are such that
-- the store takes them, if the errors of the service and of promotion in its chain have them.
pub classify-IsTold : (e : Fault) → IsCoded e → IsTold (classify e)
unfolding classify
classify-IsTold e h = elim (Option-cases (own_of e)) [
  | inr (f, q) ↦ rw (classify, q) (own_of-IsTold e h q)
  | inl n ↦ elim (Option-cases (promoting_of e)) [
    | inr (f, q) ↦ rw (classify, n, q) (promoting_of-IsTold e h q)
    | inl m ↦ rw (classify, n, m) (by_sentinel-IsTold e)
  ]
]
