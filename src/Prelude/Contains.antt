-- ===== src/Prelude/Contains.antt =====
-- Lemmas on membership in a list of texts.
use mathlib.Core.Path.{◌≡◌, refl, subst}
use mathlib.Core.Logic.{◌⊎◌, inl, inr}
use mathlib.Core.Bool.{Bool, true, false, ◌||◌}
use mathlib.Core.List.{List, [], ◌∷◌}
use Prim.Native.String.{String}
use text.Mathlib.TextEquality.{eq_iff}
use native.Mathlib.Omega.{arith}
use codarr.Prelude.Lists.{any}
use codarr.Prelude.Text.{contains, str_eq}

pub or_cases : (a b : Bool) → (a || b) ≡ true → (a ≡ true) ⊎ (b ≡ true)
or_cases true b h = inl refl
or_cases false b h = inr h

pub or_false : (a b : Bool) → (a || b) ≡ false → (a ≡ false) × (b ≡ false)
or_false a b h = ground arith

-- What holds of every listed text holds of a text that is found in the list.
pub contains-any :
    (p : String → Bool) (xs : List String) (s : String)
    → any p xs ≡ false
    → contains xs s ≡ true
    → p s ≡ false
contains-any p [] s h k = ground arith
contains-any p (x ∷ xs) s h k =
    let (here, later) = or_false (p x) (any p xs) h in
    elim (or_cases (str_eq x s) (contains xs s) k) [
      | inl e ↦ subst (λ t. p t ≡ false) ((eq_iff x s).0 e) here
      | inr m ↦ contains-any p xs s later m
    ]

-- Two lists with no text in common.
pub contains_disjoint :
    (xs ys : List String) (s : String)
    → any (contains ys) xs ≡ false
    → contains xs s ≡ true
    → contains ys s ≡ false
contains_disjoint xs ys s = contains-any (contains ys) xs s
