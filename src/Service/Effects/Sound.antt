-- ===== src/Service/Effects/Sound.antt =====
-- What an action does to the trace, and which errors it ends with, at once: a relation on traces that
-- every plain event keeps, and a predicate on errors that wrapping keeps.
use codarr.Prelude.{
  ℕ, String, Bool, true, false, List, ◌∷◌, some, Result, Rat, str_eq, ◌≡◌, refl, Option-cases, inl,
  inr, if◌then◌else◌,
}
use codarr.Promote.Types.{PreflightRequest, Request}
use codarr.Promote.Effects.Laws.{Result-cases}
use codarr.Jobs.Types.{FailureCode}
use codarr.Jobs.Queue.{is_code}
use codarr.Service.Fault.{Fault, own, own_wrap, wrapped, other, spent}
use codarr.Service.Effects.{
  World, Action, Trace, Event, looked, did, replaced, Call, record_promotion, fail_row, ◌>>=◌, ◌>>◌,
  throw, lift, catch, ask, write, attempt,
}
use codarr.Service.Effects.Laws.{Fails, Meets}

-- The writes that neither record a promotion nor end a job.
unfoldable pub is_plain_call : Call → Bool
is_plain_call c = elim c [ record_promotion p ↦ false | fail_row id f ↦ false | _ ↦ true ]

unfoldable pub is_plain : Event → Bool
unfolding is_plain_call
is_plain e = elim e [ replaced req b ↦ false | did c b ↦ is_plain_call c | _ ↦ true ]

-- The errors that the dependencies answer with satisfy `P`.
pub record AnswersWith (P : Fault → Type 0) (w : World) : Type 0 where
  pub parse : (s : String) → Fails P (w.parse s)
  pub settings : (h : Trace) → Fails P (w.settings h)
  pub media : (h : Trace) (id : ℕ) → Fails P (w.media h id)
  pub preflight : (h : Trace) (req : PreflightRequest) → Fails P (w.preflight h req)
  pub sample : (h : Trace) (p : String) (d : Rat) → Fails P (w.sample h p d)
  pub probe : (h : Trace) (p : String) → Fails P (w.probe h p)
  pub capabilities : (h : Trace) → Fails P (w.capabilities h)
  pub answer : (h : Trace) (c : Call) (e : Fault) → w.answer h c ≡ some e → P e
  pub run : (h : Trace) (argv : List String) (e : Fault) → (w.run h argv).1 ≡ some e → P e
  pub promote : (h : Trace) (req : Request) (e : Fault) → (w.promote h req).failure ≡ some e → P e

pub record IsTracked (R : Trace → Trace → Type 0) (P : Fault → Type 0) : Type 0 where
  pub same : (h : Trace) → R h h
  pub join : (a b c : Trace) → R a b → R b c → R a c
  pub plain : (e : Event) (h : Trace) → is_plain e ≡ true → R h (e ∷ h)
  pub made :
      (c : FailureCode) (m tail : String)
      → is_code c ≡ true
      → str_eq m "" ≡ false
      → P (own c m tail)
  pub coded :
      (c : FailureCode) (m tail : String) (e : Fault)
      → is_code c ≡ true
      → P e
      → P (own_wrap c m tail e)
  pub passed : (m : String) (e : Fault) → P e → P (wrapped m e)
  pub foreign : (m : String) → P (other m)
  pub out_of_fuel : P spent

abbrev pub Sound : {A : Type 0} → (Trace → Trace → Type 0) → (Fault → Type 0) → Action A → Type 0
Sound R P m = (h : Trace) → R h (m h).1 × Fails P (m h).0

abbrev pub Yields :
    {A : Type 0} → (A → Type 0) → (Trace → Trace → Type 0) → (Fault → Type 0) → Action A → Type 0
Yields Q R P m = (h : Trace) → R h (m h).1 × Meets Q P (m h).0

module _ (R : Trace → Trace → Type 0) (P : Fault → Type 0) (k : IsTracked R P) where
  pub bind-Sound :
      {A B : Type 0} (m : Action A) (f : A → Action B)
      → Sound R P m
      → ((a : A) → Sound R P (f a))
      → Sound R P (m >>= f)
  unfolding ◌>>=◌
  bind-Sound m f pm pf h = elim (Result-cases (m h).0) [
    | inl (a, r) ↦
        let (t, e) = pf a (m h).1 in
        rw (◌>>=◌, Fails, r) (k.join h (m h).1 (f a (m h).1).1 (pm h).0 t, e)
    | inr (x, r) ↦ rw (◌>>=◌, Fails, r) ((pm h).0, rw (Fails, r) at ((pm h).1))
  ]

  pub then-Sound :
      {A B : Type 0} (m : Action A) (n : Action B) → Sound R P m → Sound R P n → Sound R P (m >> n)
  unfolding ◌>>◌
  then-Sound m n pm pn = bind-Sound m (λ _. n) pm (λ _. pn)

  pub if-Sound :
      {A : Type 0} (b : Bool) (x y : Action A)
      → Sound R P x
      → Sound R P y
      → Sound R P (if b then x else y)
  if-Sound true x y px py = px
  if-Sound false x y px py = py

  pub throw-Sound : (A : Type 0) (e : Fault) → P e → Sound R P (throw {A = A} e)
  throw-Sound A e p h = (k.same h, p)

  pub lift-Sound : {A : Type 0} (r : Result Fault A) → Fails P r → Sound R P (lift r)
  lift-Sound r p h = (k.same h, p)

  pub caught-Sound :
      {A B : Type 0} (m : Action A) (f : Result Fault A → Action B)
      → Sound R P m
      → ((r : Result Fault A) → Fails P r → Sound R P (f r))
      → Sound R P (catch m >>= f)
  unfolding ◌>>=◌
  caught-Sound m f pm pf h =
      let (t, e) = pf (m h).0 (pm h).1 (m h).1 in
      (k.join h (m h).1 (f (m h).0 (m h).1).1 (pm h).0 t, e)

  pub ask-Sound :
      {A : Type 0} (name : String) (read : Trace → Result Fault A) (f : Fault → Fault)
      → ((h : Trace) → Fails P (read h))
      → ((e : Fault) → P e → P (f e))
      → Sound R P (ask name read f)
  unfolding ask is_plain
  ask-Sound name read f p pf h = elim (Result-cases (read h)) [
    | inl (a, r) ↦ rw (Fails, r) (k.plain (looked name) h refl, tt)
    | inr (x, r) ↦ rw (Fails, r) (k.plain (looked name) h refl, pf x (rw (Fails, r) at (p h)))
  ]

  -- A write, whatever it writes.
  pub any_write-Sound :
      (w : World) (c : Call) (f : Fault → Fault)
      → AnswersWith P w
      → ((b : Bool) (h : Trace) → R h (did c b ∷ h))
      → ((e : Fault) → P e → P (f e))
      → Sound R P (write w c f)
  unfolding write
  any_write-Sound w c f p q pf h = elim (Option-cases (w.answer h c)) [
    | inl r ↦ rw (Fails, r) (q true h, tt)
    | inr (x, r) ↦ rw (Fails, r) (q false h, pf x (p.answer h c x r))
  ]

  pub write-Sound :
      (w : World) (c : Call) (f : Fault → Fault)
      → AnswersWith P w
      → is_plain_call c ≡ true
      → ((e : Fault) → P e → P (f e))
      → Sound R P (write w c f)
  unfolding is_plain is_plain_call
  write-Sound w c f p q pf = any_write-Sound w c f p (λ b h. k.plain (did c b) h q) pf

  pub attempt-Sound : (w : World) (c : Call) → is_plain_call c ≡ true → Sound R P (attempt w c)
  unfolding attempt is_plain is_plain_call
  attempt-Sound w c q h = (k.plain (did c _) h q, tt)

  pub yield-Sound :
      {A B : Type 0} (Q : A → Type 0) (m : Action A) (f : A → Action B)
      → Yields Q R P m
      → ((a : A) → Q a → Sound R P (f a))
      → Sound R P (m >>= f)
  unfolding ◌>>=◌
  yield-Sound Q m f pm pf h = elim (Result-cases (m h).0) [
    | inl (a, r) ↦
        let (t, e) = pf a (rw (Meets, r) at ((pm h).1)) (m h).1 in
        rw (◌>>=◌, Fails, r) (k.join h (m h).1 (f a (m h).1).1 (pm h).0 t, e)
    | inr (x, r) ↦ rw (◌>>=◌, Fails, r) ((pm h).0, rw (Meets, r) at ((pm h).1))
  ]
