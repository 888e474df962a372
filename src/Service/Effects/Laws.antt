-- ===== src/Service/Effects/Laws.antt =====
-- Which errors an action can end with.
use codarr.Prelude.{
  String, Bool, true, false, some, Result, ok, err, ◌≡◌, refl, Option-cases, inl, inr,
}
use codarr.Promote.Effects.Laws.{Result-cases}
use codarr.Service.Fault.{Fault}
use codarr.Service.Effects.{
  World, Action, Trace, Call, ◌>>=◌, ◌>>◌, return, throw, lift, ask, write, attempt,
}

abbrev pub Fails : {A : Type 0} → (Fault → Type 0) → Result Fault A → Type 0
Fails P (ok a) = Unit
Fails P (err e) = P e

-- Every error that `m` ends with satisfies `P`.
abbrev pub Raises : {A : Type 0} → (Fault → Type 0) → Action A → Type 0
Raises P m = (h : Trace) → Fails P (m h).0

module _ (P : Fault → Type 0) where
  pub bind-Raises :
      {A B : Type 0} (m : Action A) (f : A → Action B)
      → Raises P m
      → ((a : A) → Raises P (f a))
      → Raises P (m >>= f)
  unfolding ◌>>=◌
  bind-Raises m f pm pf h = elim (Result-cases (m h).0) [
    | inl (a, r) ↦ rw (Fails, r) (pf a (m h).1)
    | inr (x, r) ↦ rw (Fails, r) (rw (Fails, r) at (pm h))
  ]

  pub then-Raises :
      {A B : Type 0} (m : Action A) (k : Action B) → Raises P m → Raises P k → Raises P (m >> k)
  unfolding ◌>>◌
  then-Raises m k pm pk = bind-Raises m (λ _. k) pm (λ _. pk)

  pub if-Raises :
      {A : Type 0} (b : Bool) (x y : Action A)
      → Raises P x
      → Raises P y
      → Raises P (elim b [ false ↦ y | true ↦ x ])
  if-Raises true x y px py = px
  if-Raises false x y px py = py

  pub return-Raises : {A : Type 0} (a : A) → Raises P (return a)
  return-Raises a h = tt

  pub throw-Raises : (A : Type 0) (f : Fault) → P f → Raises P (throw {A = A} f)
  throw-Raises A f p h = p

  pub ask-Raises :
      {A : Type 0} (name : String) (read : Trace → Result Fault A) (f : Fault → Fault)
      → ((h : Trace) → Fails (λ e. P (f e)) (read h))
      → Raises P (ask name read f)
  unfolding ask
  ask-Raises name read f p h = elim (Result-cases (read h)) [
    | inl (a, r) ↦ rw r tt
    | inr (x, r) ↦ rw r (rw r at (p h))
  ]

  pub write-Raises :
      (w : World) (c : Call) (f : Fault → Fault)
      → ((h : Trace) (e : Fault) → w.answer h c ≡ some e → P (f e))
      → Raises P (write w c f)
  unfolding write
  write-Raises w c f p h = elim (Option-cases (w.answer h c)) [
    | inl r ↦ rw r tt
    | inr (x, r) ↦ rw r (p h x r)
  ]

  pub attempt-Raises : (w : World) (c : Call) → Raises P (attempt w c)
  unfolding attempt
  attempt-Raises w c h = tt

abbrev pub Meets : {A : Type 0} → (A → Type 0) → (Fault → Type 0) → Result Fault A → Type 0
Meets Q P (ok a) = Q a
Meets Q P (err e) = P e

-- A value of `m` satisfies `Q`, an error `P`.
abbrev pub Ensures : {A : Type 0} → (A → Type 0) → (Fault → Type 0) → Action A → Type 0
Ensures Q P m = (h : Trace) → Meets Q P (m h).0

module _ (P : Fault → Type 0) where
  pub bind-Ensures :
      {A B : Type 0} (Q : A → Type 0) (R : B → Type 0) (m : Action A) (f : A → Action B)
      → Ensures Q P m
      → ((a : A) → Q a → Ensures R P (f a))
      → Ensures R P (m >>= f)
  unfolding ◌>>=◌
  bind-Ensures Q R m f pm pf h = elim (Result-cases (m h).0) [
    | inl (a, r) ↦ rw (Meets, r) (pf a (rw (Meets, r) at (pm h)) (m h).1)
    | inr (x, r) ↦ rw (Meets, r) (rw (Meets, r) at (pm h))
  ]

  pub ensured-Raises :
      {A B : Type 0} (Q : A → Type 0) (m : Action A) (f : A → Action B)
      → Ensures Q P m
      → ((a : A) → Q a → Raises P (f a))
      → Raises P (m >>= f)
  unfolding ◌>>=◌
  ensured-Raises Q m f pm pf h = elim (Result-cases (m h).0) [
    | inl (a, r) ↦ rw (Fails, r) (pf a (rw (Meets, r) at (pm h)) (m h).1)
    | inr (x, r) ↦ rw (Fails, r) (rw (Meets, r) at (pm h))
  ]

  pub lift-Raises :
      {A B : Type 0} (r : Result Fault A) (f : A → Action B)
      → Fails P r
      → ((a : A) → r ≡ ok a → Raises P (f a))
      → Raises P (lift r >>= f)
  unfolding ◌>>=◌
  lift-Raises (ok a) f p pf h = pf a refl h
  lift-Raises (err e) f p pf h = p
