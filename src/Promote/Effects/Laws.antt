-- ===== src/Promote/Effects/Laws.antt =====
-- What the trace of an action says: how often a file was replaced, and that each rename follows an
-- answer that the file is free.
use codarr.Prelude.{
  ℕ, ◌+◌, String, Bool, true, false, ◌&&◌, [], ◌∷◌, Option, none, some, Result, ok, err, str_eq,
  ◌≡◌, refl, arith, if◌then◌else◌, ◌⊎◌, inl, inr, Bool-cases, Option-cases,
}
use codarr.Promote.Types.{FailureCode, Cause}
use codarr.Promote.Effects.{
  Guard, free, Call, rename, Event, did, asked, looked, Trace, World, Action, ◌>>=◌, ◌>>◌, look,
  call, return, fail,
}

pub Result-cases :
    {E A : Type 0} (r : Result E A) → ((a : A) × (r ≡ ok a)) ⊎ ((e : E) × (r ≡ err e))
Result-cases (ok a) = inl (a, refl)
Result-cases (err e) = inr (e, refl)

-- The destination of a rename, and whether the rename succeeded.
unfoldable pub renaming : Event → Option (String × Bool)
renaming e = elim e [ did c x ↦ elim c [ rename a b ↦ some (b, x) | _ ↦ none ] | _ ↦ none ]

is_free : Guard → Bool
is_free g = elim g [ free ↦ true | _ ↦ false ]

-- The last call found that `dest` is free.
unfoldable pub just_free : String → Trace → Bool
unfolding is_free
just_free dest [] = false
just_free dest (e ∷ h) = elim e [ asked path g ↦ str_eq path dest && is_free g | _ ↦ false ]

guards : Option (String × Bool) → Trace → Bool
unfolding just_free
guards none h = true
guards (some p) h = just_free p.0 h

-- Each rename follows at once on an answer that its destination is free.
unfoldable pub guarded : Trace → Bool
unfolding renaming guards
guarded [] = true
guarded (e ∷ h) = guards (renaming e) h && guarded h

count_one : Option (String × Bool) → ℕ
count_one none = 0
count_one (some p) = if p.1 then 1 else 0

-- How often a rename succeeded.
unfoldable pub replacements : Trace → ℕ
unfolding renaming count_one
replacements [] = 0
replacements (e ∷ h) = count_one (renaming e) + replacements h

-- A trace that grew with `n` more replacements, no rename unguarded.
pub record Grown (h h' : Trace) (n : ℕ) : Type 0 where
  pub count : replacements h' ≡ n + replacements h
  pub safe : guarded h ≡ true → guarded h' ≡ true

abbrev pub IsQuiet : {A : Type 0} → Action A → Type 0
IsQuiet {A} m = (h : Trace) → Grown h (m h).1 0

pub Grown-same : (h : Trace) → Grown h h 0
Grown-same h = record { count = omega arith; safe = λ g. g }

pub Grown-then : (h h₁ h₂ : Trace) (n : ℕ) → Grown h h₁ 0 → Grown h₁ h₂ n → Grown h h₂ n
Grown-then h h₁ h₂ n a b = record {
  count = ground (arith, a.count, b.count);
  safe = λ g. b.safe (a.safe g);
}

pub Grown-last : (h h₁ h₂ : Trace) (n : ℕ) → Grown h h₁ n → Grown h₁ h₂ 0 → Grown h h₂ n
Grown-last h h₁ h₂ n a b = record {
  count = ground (arith, a.count, b.count);
  safe = λ g. b.safe (a.safe g);
}

-- A call that is not a rename.
pub Grown-event : (e : Event) (h : Trace) → renaming e ≡ none → Grown h (e ∷ h) 0
unfolding guarded replacements
Grown-event e h q = record { count = rw (q); safe = λ g. rw (q, g) }

pub bind-IsQuiet :
    {A B : Type 0} (m : Action A) (f : A → Action B)
    → IsQuiet m
    → ((a : A) → IsQuiet (f a))
    → IsQuiet (m >>= f)
bind-IsQuiet m f qm qf h = elim (Result-cases (m h).0) [
  | inl (a, e) ↦ rw (◌>>=◌, e) (Grown-then h (m h).1 (f a (m h).1).1 0 (qm h) (qf a (m h).1))
  | inr (x, e) ↦ rw (◌>>=◌, e) (qm h)
]

pub look-IsQuiet :
    {A : Type 0} (read : Trace → String → Option A) (path : String) (c : FailureCode)
    (cause : Cause)
    → IsQuiet (look read path c cause)
unfolding renaming
look-IsQuiet read path c cause h = elim (Option-cases (read h path)) [
  | inl e ↦ rw (look, e) (Grown-event (looked path) h refl)
  | inr (a, e) ↦ rw (look, e) (Grown-event (looked path) h refl)
]

pub call-IsQuiet :
    (w : World) (c : Call) (code : FailureCode) (cause : Cause)
    → renaming (did c true) ≡ none
    → renaming (did c false) ≡ none
    → IsQuiet (call w c code cause)
call-IsQuiet w c code cause t f h = elim (Bool-cases (w.succeeds h c)) [
  | inl e ↦ rw (call, e) (Grown-event (did c true) h t)
  | inr e ↦ rw (call, e) (Grown-event (did c false) h f)
]

pub then-IsQuiet :
    {A B : Type 0} (m : Action A) (k : Action B) → IsQuiet m → IsQuiet k → IsQuiet (m >> k)
then-IsQuiet m k qm qk = bind-IsQuiet m (λ _. k) qm (λ _. qk)

pub split-IsQuiet :
    {A : Type 0} (b : Bool) (x y : Action A)
    → IsQuiet x
    → IsQuiet y
    → IsQuiet (elim b [ false ↦ x | true ↦ y ])
split-IsQuiet false x y qx qy = qx
split-IsQuiet true x y qx qy = qy

pub return-IsQuiet : {A : Type 0} (a : A) → IsQuiet (return a)
return-IsQuiet a h = Grown-same h

pub fail-IsQuiet : (A : Type 0) (c : FailureCode) (cause : Cause) → IsQuiet {A = A} (fail c cause)
fail-IsQuiet A c cause h = Grown-same h

pub if-IsQuiet :
    {A : Type 0} (b : Bool) (x y : Action A) → IsQuiet x → IsQuiet y → IsQuiet (if b then x else y)
if-IsQuiet false x y qx qy = qy
if-IsQuiet true x y qx qy = qx
