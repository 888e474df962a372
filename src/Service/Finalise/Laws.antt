-- ===== src/Service/Finalise/Laws.antt =====
-- Every rename is recorded, and nothing else is.
use codarr.Prelude.{String, Bool, not, List, [], ◌∷◌, Option, none, some, ◌≡◌, refl, is_empty, ◌<>◌}
use codarr.Promote.Types.{Request}
use codarr.Jobs.Types.{JobState, verifying, promoting, fail_internal, fail_probe}
use codarr.Service.Types.{Task}
use codarr.Service.Fault.{Fault, wrapped}
use codarr.Service.Effects.{
  World, Trace, did, replaced, record_promotion, Replaced, Promotion, ◌>>=◌, throw,
}
use codarr.Service.Effects.Sound.{
  IsTracked, AnswersWith, Sound, is_plain_call, bind-Sound, then-Sound, if-Sound, throw-Sound,
  ask-Sound, write-Sound, any_write-Sound, attempt-Sound,
}
use codarr.Service.Finalise.{
  move_to, promote_request, block, promote, record_result, settle, conclude, finalise, measured,
  clear_blocked,
}

module _ (R : Trace → Trace → Type 0) (P : Fault → Type 0) (k : IsTracked R P) (w : World)
    (a : AnswersWith P w) where
  move_to-Sound : (t : Task) (s : JobState) → Sound R P (move_to w t s)
  unfolding move_to is_plain_call
  move_to-Sound t s = write-Sound R P k w _ _ a refl (λ e p. k.coded fail_internal _ "" e refl p)

  pub block-Sound : (t : Task) (reasons : List String) → Sound R P (block w t reasons)
  unfolding block is_plain_call
  block-Sound t [] = λ h. (k.same h, tt)
  block-Sound t (r ∷ rs) =
      then-Sound R P k _ _
        (then-Sound R P k _ _ (attempt-Sound R P k w _ refl) (attempt-Sound R P k w _ refl))
        (block-Sound t rs)

  -- The end of a job, given that of its promotion.
  pub finalise-Sound :
      (t : Task)
      → ((t' : Task) → Sound R P (promote w t' >>= λ res. conclude w t' res res.failure))
      → Sound R P (finalise w t)
  unfolding finalise
  finalise-Sound t closing = then-Sound R P k _ _ (move_to-Sound t verifying) (
      bind-Sound R P k _ _
        (ask-Sound R P k _ _ _ (λ h. a.probe h t.staging.path)
          (λ e p. k.coded fail_probe _ "" e refl p))
        (λ out. then-Sound R P k _ _ (move_to-Sound t promoting) (closing (measured t out))))

module _ (R : Trace → Trace → Type 0) (P : Fault → Type 0) (k : IsTracked R P) (w : World)
    (a : AnswersWith P w)
    (recording : (p : Promotion) (b : Bool) (h : Trace)
      → R h (did (record_promotion p) b ∷ h)) where
  settle-Sound : (t : Task) (res : Replaced) → Sound R P (settle w t res)
  unfolding settle record_result is_plain_call
  settle-Sound t res =
      then-Sound R P k (record_result w t res) (clear_blocked w t res)
        (λ h.
          any_write-Sound R P k w _ _ a (recording _) (λ e p. k.coded fail_internal _ "" e refl p)
            h)
        (if-Sound R P k (is_empty res.blocked_by) _ _ (λ h. (k.same h, tt))
          (attempt-Sound R P k w _ refl))

  conclude-Sound :
      (t : Task) (res : Replaced) (f : Option Fault)
      → ((e : Fault) → f ≡ some e → P e)
      → Sound R P (conclude w t res f)
  unfolding conclude
  conclude-Sound t res none p = settle-Sound t res
  conclude-Sound t res (some e) p =
      let stop : Sound R P (throw {A = Bool} (wrapped ("promoting " <> t.media.path) e)) =
        throw-Sound R P k Bool _ (k.passed _ e (p e refl)) in
      if-Sound R P k (not res.renamed) _ _ stop (then-Sound R P k _ _ (settle-Sound t res) stop)

  -- The end of a promotion, for a relation that its events keep.
  pub closing-Sound :
      (t : Task)
      → ((req : Request) (b : Bool) (h : Trace) → R h (replaced req b ∷ h))
      → Sound R P (promote w t >>= λ res. conclude w t res res.failure)
  unfolding ◌>>=◌ promote
  closing-Sound t replacing h =
      let res = w.promote h (promote_request t) in
      let h₁ = (block w t res.blocked_by h).1 in
      let h₂ = replaced (promote_request t) res.renamed ∷ h₁ in
      let blocked = (block-Sound R P k w a t res.blocked_by h).0 in
      let (trace, fault) = conclude-Sound t res res.failure (a.promote h _) h₂ in
      (k.join h h₂ _ (k.join h h₁ h₂ blocked (replacing _ _ h₁)) trace, fault)
