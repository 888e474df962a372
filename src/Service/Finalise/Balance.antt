-- ===== src/Service/Finalise/Balance.antt =====
-- internal/job/execute.go, finalise: promotions that rename against those that are recorded.
use mathlib.Core.Path.{subst}
use codarr.Prelude.{
  ℕ, ◌+◌, Bool, true, false, not, [], ◌∷◌, Option, none, some, Result, ok, err, ◌≡◌, refl, sym,
  arith, inl, inr, is_empty, ◌<>◌, if◌then◌else◌,
}
use codarr.Promote.Effects.Laws.{Result-cases}
use codarr.Promote.Types.{Request}
use codarr.Service.Types.{Task}
use codarr.Service.Fault.{Fault, wrapped}
use codarr.Service.Effects.{
  World, Trace, Event, did, replaced, record_promotion, set_blocked_by, Replaced, Promotion, Action,
  ◌>>=◌, ◌>>◌, return, throw, write,
}
use codarr.Service.Effects.Laws.{Fails}
use codarr.Service.Effects.Sound.{
  IsTracked, AnswersWith, Sound, is_plain, is_plain_call, if-Sound, attempt-Sound,
}
use codarr.Service.Finalise.{
  promote_request, block, promote, record_result, settle, conclude, clear_blocked,
}
use codarr.Service.Finalise.Laws.{block-Sound}

unfoldable pub is_rename : Event → Bool
is_rename e = elim e [ replaced req b ↦ b | _ ↦ false ]

unfoldable pub is_record : Event → Bool
is_record e = elim e [ did c b ↦ elim c [ record_promotion p ↦ true | _ ↦ false ] | _ ↦ false ]

unfoldable pub count : (Event → Bool) → Trace → ℕ
count p [] = 0
count p (e ∷ h) = (if p e then 1 else 0) + count p h

-- How often a promotion renamed, and how often the record of one was written, or tried to be.
unfoldable pub renames : Trace → ℕ
unfolding is_rename count
renames h = count is_rename h

unfoldable pub records : Trace → ℕ
unfolding is_record count
records h = count is_record h

-- As many renames as records were added.
abbrev pub Balanced : Trace → Trace → Type 0
Balanced h h' = records h' + renames h ≡ renames h' + records h

abbrev pub Anything : Fault → Type 0
Anything e = Unit

plain-Balanced : (e : Event) (h : Trace) → is_plain e ≡ true → Balanced h (e ∷ h)
unfolding is_plain is_plain_call renames records is_rename is_record count
plain-Balanced e h q = ground (arith, q)

pub Balanced-IsTracked : IsTracked Balanced Anything
Balanced-IsTracked = record {
  same = λ h. omega arith;
  join = λ x y z p q. omega (arith, p, q);
  plain = plain-Balanced;
  made = λ c m tail p q. tt;
  coded = λ c m tail e p q. tt;
  passed = λ m e p. tt;
  foreign = λ m. tt;
  out_of_fuel = tt;
}

-- One record more than renames.
abbrev Recorded : Trace → Trace → Type 0
Recorded h h' = records h' + renames h ≡ 1 + renames h' + records h

record-Recorded :
    (p : Promotion) (b : Bool) (h : Trace) → Recorded h (did (record_promotion p) b ∷ h)
unfolding renames records is_rename is_record count
record-Recorded p b h = omega arith

module _ (S Q U : Trace → Trace → Type 0) (join : (a b c : Trace) → S a b → Q b c → U a c)
    (stop : (a b : Trace) → S a b → U a b) where
  bind-trace :
      {A B : Type 0} (m : Action A) (f : A → Action B)
      → ((h : Trace) → S h (m h).1)
      → ((x : A) (h : Trace) → Q h (f x h).1)
      → (h : Trace) → U h ((m >>= f) h).1
  unfolding ◌>>=◌
  bind-trace m f pm pf h = elim (Result-cases (m h).0) [
    | inl (x, r) ↦ rw (◌>>=◌, r) (join h (m h).1 (f x (m h).1).1 (pm h) (pf x (m h).1))
    | inr (e, r) ↦ rw (◌>>=◌, r) (stop h (m h).1 (pm h))
  ]

-- What follows a record adds neither.
then-Recorded :
    {A B : Type 0} (m : Action A) (f : A → Action B)
    → ((h : Trace) → Recorded h (m h).1)
    → ((x : A) (h : Trace) → Balanced h (f x h).1)
    → (h : Trace) → Recorded h ((m >>= f) h).1
then-Recorded =
    bind-trace Recorded Balanced Recorded (λ a b c p q. omega (arith, p, q)) (λ a b p. p)

record_result-Recorded :
    (w : World) (t : Task) (res : Replaced) (h : Trace) → Recorded h (record_result w t res h).1
unfolding record_result write
record_result-Recorded w t res h = record-Recorded _ _ h

settle-Recorded :
    (w : World) (t : Task) (res : Replaced) (h : Trace) → Recorded h (settle w t res h).1
unfolding settle ◌>>◌ is_plain_call
settle-Recorded w t res =
    then-Recorded (record_result w t res) (λ x. clear_blocked w t res)
      (record_result-Recorded w t res)
      (λ x h.
        (if-Sound Balanced Anything Balanced-IsTracked (is_empty res.blocked_by) (return true) _
          (λ h'. (Balanced-IsTracked.same h', tt))
          (attempt-Sound Balanced Anything Balanced-IsTracked w (set_blocked_by t.job.id "") refl)
          h).0)

-- A promoter whose result without an error has renamed.
abbrev pub IsHonest : World → Type 0
IsHonest w =
    (h : Trace) (req : Request)
    → (w.promote h req).failure ≡ none
    → (w.promote h req).renamed ≡ true

rename-Owed :
    (req : Request) (h : Trace)
    → records (replaced req true ∷ h) + renames h + 1 ≡ renames (replaced req true ∷ h) + records h
unfolding renames records is_rename is_record count
rename-Owed req h = omega arith

kept-Balanced : (req : Request) (h : Trace) → Balanced h (replaced req false ∷ h)
unfolding renames records is_rename is_record count
kept-Balanced req h = omega arith

-- `conclude`, with the answer whether the file was renamed as an argument.
abbrev concluded : World → Task → Replaced → Bool → Option Fault → Action Bool
concluded w t res b none = settle w t res
concluded w t res b (some e) =
    let stop = throw (wrapped ("promoting " <> t.media.path) e) in
    if not b then stop else settle w t res >> stop

conclude-concluded :
    (w : World) (t : Task) (res : Replaced) (f : Option Fault)
    → conclude w t res f ≡ concluded w t res res.renamed f
unfolding conclude
conclude-concluded w t res none = refl
conclude-concluded w t res (some e) = refl

concluded-Balanced :
    (w : World) (t : Task) (res : Replaced) (h : Trace) (b : Bool) (f : Option Fault)
    → (f ≡ none → b ≡ true)
    → Balanced h (concluded w t res b f (replaced (promote_request t) b ∷ h)).1
unfolding ◌>>◌
concluded-Balanced w t res h true none honest =
    let h' = replaced (promote_request t) true ∷ h in
    omega (arith, settle-Recorded w t res h', rename-Owed (promote_request t) h)
concluded-Balanced w t res h true (some e) honest =
    let h' = replaced (promote_request t) true ∷ h in
    let stopped =
      then-Recorded (settle w t res)
        (λ x. throw {A = Bool} (wrapped ("promoting " <> t.media.path) e)) (settle-Recorded w t res)
        (λ x h''. Balanced-IsTracked.same h'') h' in
    omega (arith, stopped, rename-Owed (promote_request t) h)
concluded-Balanced w t res h false none honest = absurd (cc (honest refl))
concluded-Balanced w t res h false (some e) honest = kept-Balanced (promote_request t) h

conclude-Balanced :
    (w : World) (t : Task) (res : Replaced) (h : Trace)
    → (res.failure ≡ none → res.renamed ≡ true)
    → Balanced h (conclude w t res res.failure (replaced (promote_request t) res.renamed ∷ h)).1
conclude-Balanced w t res h honest =
    subst (λ m. Balanced h (m (replaced (promote_request t) res.renamed ∷ h)).1)
      (sym (conclude-concluded w t res res.failure))
      (concluded-Balanced w t res h res.renamed res.failure honest)

Fails-Anything : {A : Type 0} (r : Result Fault A) → Fails Anything r
Fails-Anything (ok a) = tt
Fails-Anything (err e) = tt

pub closing-Balanced :
    (w : World) (t : Task)
    → AnswersWith Anything w
    → IsHonest w
    → Sound Balanced Anything (promote w t >>= λ res. conclude w t res res.failure)
unfolding ◌>>=◌ promote
closing-Balanced w t a honest h =
    let res = w.promote h (promote_request t) in
    let blocked = (block-Sound Balanced Anything Balanced-IsTracked w a t res.blocked_by h).0 in
    let closed = conclude-Balanced w t res (block w t res.blocked_by h).1 (honest h _) in
    (omega (arith, blocked, closed), Fails-Anything _)

pub Anything-AnswersWith : (w : World) → AnswersWith Anything w
Anything-AnswersWith w = record {
  parse = λ s. Fails-Anything _;
  settings = λ h. Fails-Anything _;
  media = λ h id. Fails-Anything _;
  preflight = λ h req. Fails-Anything _;
  sample = λ h p d. Fails-Anything _;
  probe = λ h p. Fails-Anything _;
  capabilities = λ h. Fails-Anything _;
  answer = λ h c e q. tt;
  run = λ h argv e q. tt;
  promote = λ h req e q. tt;
}
