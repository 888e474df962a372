-- ===== src/Ffmpeg/Stderr/Keep.antt =====
-- internal/ffmpeg/progress.go, StderrRing: the last elements of a list, which the ring keeps.
use mathlib.Core.Path.{subst}
use codarr.Prelude.{
  ℕ, zero, suc, ◌+◌, ◌-◌, ◌≤◌, List, [], ◌∷◌, ◌++◌, ◌≡◌, refl, sym, ap, ◌∙◌, arith, length,
  length-append,
}
use codarr.Ffmpeg.Stderr.{take, drop, set_at}

module _ {ℓ} {A : Type ℓ} where
  -- The last `n` elements.
  unfoldable pub keep_last : ℕ → List A → List A
  keep_last n xs = drop (length xs - n) xs

  pub take-front : (u w : List A) → take (length u) (u ++ w) ≡ u
  take-front [] w = refl
  take-front (x ∷ u) w = ap (◌∷◌ x) (take-front u w)

  pub drop-front : (u w : List A) → drop (length u) (u ++ w) ≡ w
  drop-front [] w = refl
  drop-front (x ∷ u) w = drop-front u w

  pub set_at-front :
      (u : List A) (b x : A) (v : List A) → set_at (length u) x (u ++ b ∷ v) ≡ u ++ x ∷ v
  set_at-front [] b x v = refl
  set_at-front (y ∷ u) b x v = ap (◌∷◌ y) (set_at-front u b x v)

  drop_none : (n : ℕ) (xs : List A) → n ≡ 0 → drop n xs ≡ xs
  drop_none zero xs e = refl
  drop_none (suc n) xs e = absurd (omega (arith, e))

  pub keep_last-all : (n : ℕ) (xs : List A) → length xs ≤ n → keep_last n xs ≡ xs
  unfolding keep_last
  keep_last-all n xs le = drop_none (length xs - n) xs (omega (arith, le))

  -- Of one element too many, the first goes.
  pub keep_last-cons : (n : ℕ) (x : A) (xs : List A) → length xs ≡ n → keep_last n (x ∷ xs) ≡ xs
  unfolding keep_last
  keep_last-cons n x xs e = subst (λ k. drop k (x ∷ xs) ≡ xs) {x = 1} (omega (arith, e)) refl

  drop-append : (d : ℕ) (xs ys : List A) → d ≤ length xs → drop d xs ++ ys ≡ drop d (xs ++ ys)
  drop-append zero xs ys le = refl
  drop-append (suc d) [] ys le = absurd (omega (arith, le))
  drop-append (suc d) (x ∷ xs) ys le = drop-append d xs ys (omega (arith, le))

  drop_nil : (n : ℕ) → drop {A = A} n [] ≡ []
  drop_nil zero = refl
  drop_nil (suc n) = refl

  drop-drop : (a b : ℕ) (xs : List A) → drop a (drop b xs) ≡ drop (b + a) xs
  drop-drop a zero xs = subst (λ n. drop a xs ≡ drop n xs) {x = a} (omega arith) refl
  drop-drop a (suc b) [] = drop_nil a ∙ sym (drop_nil (suc b + a))
  drop-drop a (suc b) (x ∷ xs) =
      subst (λ n. drop a (drop b xs) ≡ drop n (x ∷ xs)) {x = suc (b + a)} (omega arith)
        (drop-drop a b xs)

  length-drop : (d : ℕ) (xs : List A) → length (drop d xs) ≡ length xs - d
  length-drop zero xs = omega arith
  length-drop (suc d) [] = omega arith
  length-drop (suc d) (x ∷ xs) = omega (arith, length-drop d xs)

  -- Keeping the last elements twice.
  pub keep_last-twice :
      (n : ℕ) (xs ys : List A) → keep_last n (keep_last n xs ++ ys) ≡ keep_last n (xs ++ ys)
  unfolding keep_last
  keep_last-twice n xs ys =
      let d = length xs - n in
      ap (λ l. drop (length l - n) l) (drop-append d xs ys (omega arith))
      ∙ drop-drop (length (drop d (xs ++ ys)) - n) d (xs ++ ys)
      ∙ ap (λ k. drop k (xs ++ ys)) (omega (arith, length-drop d (xs ++ ys), length-append xs ys))
