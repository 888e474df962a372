-- ===== src/Ffmpeg/Stderr/Laws.antt =====
-- The ring refines a list that keeps the last lines of all that was written.
use Prim.Native.Char.{code}
use native.Mathlib.Nat.{mod-eq_of_lt, mod_self}
use mathlib.Core.List.{append-nil, append_assoc}
use mathlib.Core.Path.{subst}
use codarr.Prelude.{
  ℕ, zero, suc, ◌+◌, ◌%◌, ◌≤◌, String, Bool, true, false, ◌||◌, List, [], ◌∷◌, ◌++◌, ◌≡◌, refl, sym,
  ap, ◌∙◌, arith, length, length-append, ◌==◌, ◌<>◌, Bool-cases, inl, inr, if◌then◌else◌,
}
use codarr.Ffmpeg.Stderr.Keep.{
  keep_last, take-front, drop-front, set_at-front, keep_last-all, keep_last-cons, keep_last-twice,
}
use codarr.Ffmpeg.Stderr.{
  blank, StderrRing, new_ring, push, trim_cr, end_line, extend, write_byte, write, unterminated,
  retained, lines,
}

-- A ring cut at the position that is written next.
abbrev ring : List String → String → List String → Bool → String → StderrRing
ring u b v full tail = record {
  buf = u ++ b ∷ v;
  next = length u;
  full = full;
  tail = tail;
  limit = length u + suc (length v);
}

abbrev wrapped : List String → String → String → StderrRing
wrapped u x tail = record {
  buf = u ++ x ∷ [];
  next = 0;
  full = true;
  tail = tail;
  limit = length u + 1;
}

or_true : (b : Bool) → (b || true) ≡ true
or_true b = ground arith

or_false : (b : Bool) → (b || false) ≡ b
or_false b = ground arith

push-last :
    (u : List String) (b : String) (full : Bool) (tail x : String)
    → push (ring u b [] full tail) x ≡ wrapped u x tail
unfolding push
push-last u b full tail x =
    let large : (length u + 1 == 0) ≡ false = ground arith in
    rw (large, set_at-front u b x [], mod_self (length u + 1), or_true full) refl

push-inner :
    (u : List String) (b c : String) (v : List String) (full : Bool) (tail x : String)
    → push (ring u b (c ∷ v) full tail) x ≡ ring (u ++ x ∷ []) c v full tail
unfolding push
push-inner u b c v full tail x =
    let large : (length u + suc (suc (length v)) == 0) ≡ false = ground arith in
    let small : (length u + 1) % (length u + suc (suc (length v))) ≡ length u + 1 =
      mod-eq_of_lt (omega arith) in
    let some_left : (length u + 1 == 0) ≡ false = ground arith in
    let longer : length (u ++ x ∷ []) ≡ length u + 1 = length-append u (x ∷ []) in
    rw
      (
        large,
        set_at-front u b x (c ∷ v),
        small,
        some_left,
        or_false full,
        longer,
        append_assoc u (x ∷ []) (c ∷ v),
      )
      (ap
        (λ n. record (ring u b (c ∷ v) full tail) {
          buf = u ++ x ∷ c ∷ v;
          next = length u + 1;
          limit = n;
        })
        (omega arith))

retained-ring :
    (u : List String) (b : String) (v : List String) (full : Bool) (tail : String)
    → retained (ring u b v full tail) ≡ (if full then b ∷ v else []) ++ u
unfolding retained
retained-ring u b v full tail = rw (take-front u (b ∷ v), drop-front u (b ∷ v)) refl

retained-wrapped : (u : List String) (x tail : String) → retained (wrapped u x tail) ≡ u ++ x ∷ []
unfolding retained
retained-wrapped u x tail = append-nil (u ++ x ∷ [])

-- A ring with a position to write, or one that keeps nothing.
pub data IsValid : StderrRing → Type 0 where
  cut :
      (u : List String) (b : String) (v : List String) (full : Bool) (tail : String)
      → IsValid (ring u b v full tail)
  empty :
      (tail : String)
      → IsValid (record { buf = []; next = 0; full = false; tail = tail; limit = 0 })

wrapped-IsValid : (u : List String) (x tail : String) → IsValid (wrapped u x tail)
wrapped-IsValid [] x tail = cut [] x [] true tail
wrapped-IsValid (y ∷ u) x tail =
    subst (λ n. IsValid (record (wrapped (y ∷ u) x tail) { limit = n }))
      {x = 0 + suc (length (u ++ x ∷ []))} (omega (arith, length-append u (x ∷ [])))
      (cut [] y (u ++ x ∷ []) true tail)

push-IsValid : (r : StderrRing) (x : String) → IsValid r → IsValid (push r x)
unfolding push
push-IsValid r x (cut u b [] full tail) =
    subst IsValid (sym (push-last u b full tail x)) (wrapped-IsValid u x tail)
push-IsValid r x (cut u b (c ∷ v) full tail) =
    subst IsValid (sym (push-inner u b c v full tail x)) (cut (u ++ x ∷ []) c v full tail)
push-IsValid r x (empty tail) = empty tail

-- One line more, of which the ring keeps the last.
push-refines :
    (r : StderrRing) (x : String)
    → IsValid r
    → retained (push r x) ≡ keep_last r.limit (retained r ++ x ∷ [])
unfolding keep_last retained push
push-refines r x (cut u b [] true tail) =
    ap retained (push-last u b true tail x)
    ∙ retained-wrapped u x tail
    ∙ sym (
        ap (λ l. keep_last (length u + 1) (l ++ x ∷ [])) (retained-ring u b [] true tail)
        ∙ keep_last-cons (length u + 1) b (u ++ x ∷ []) (length-append u (x ∷ [])))
push-refines r x (cut u b [] false tail) =
    ap retained (push-last u b false tail x)
    ∙ retained-wrapped u x tail
    ∙ sym (
        ap (λ l. keep_last (length u + 1) (l ++ x ∷ [])) (retained-ring u b [] false tail)
        ∙ keep_last-all (length u + 1) (u ++ x ∷ []) (omega (arith, length-append u (x ∷ []))))
push-refines r x (cut u b (c ∷ v) true tail) =
    ap retained (push-inner u b c v true tail x)
    ∙ retained-ring (u ++ x ∷ []) c v true tail
    ∙ sym (
        ap (λ l. keep_last (length u + suc (suc (length v))) (l ++ x ∷ []))
          (retained-ring u b (c ∷ v) true tail)
        ∙ keep_last-cons _ b (c ∷ (v ++ u) ++ x ∷ [])
            (omega (arith, length-append (v ++ u) (x ∷ []), length-append v u))
        ∙ ap (◌∷◌ c) (append_assoc v u (x ∷ [])))
push-refines r x (cut u b (c ∷ v) false tail) =
    ap retained (push-inner u b c v false tail x)
    ∙ retained-ring (u ++ x ∷ []) c v false tail
    ∙ sym (
        ap (λ l. keep_last (length u + suc (suc (length v))) (l ++ x ∷ []))
          (retained-ring u b (c ∷ v) false tail)
        ∙ keep_last-all _ (u ++ x ∷ []) (omega (arith, length-append u (x ∷ []))))
push-refines r x (empty tail) = refl

limit-push : (r : StderrRing) (x : String) → (push r x).limit ≡ r.limit
unfolding push
limit-push r x = elim (Bool-cases (r.limit == 0)) [ inl e ↦ rw (e) refl | inr e ↦ rw (e) refl ]

tail-push : (r : StderrRing) (x : String) → (push r x).tail ≡ r.tail
unfolding push
tail-push r x = elim (Bool-cases (r.limit == 0)) [ inl e ↦ rw (e) refl | inr e ↦ rw (e) refl ]

retained-le : (r : StderrRing) → IsValid r → length (retained r) ≤ r.limit
unfolding retained
retained-le r (cut u b v true tail) =
    omega (arith, ap length (retained-ring u b v true tail), length-append (b ∷ v) u)
retained-le r (cut u b v false tail) = omega (arith, ap length (retained-ring u b v false tail))
retained-le r (empty tail) = omega arith

-- The lines of a text that ended, and what follows the last of them, after a line begun with `tail`.
unfoldable pub split_from : String → String → List String × String
split_from tail String.[] = ([], tail)
split_from tail (String.◌∷◌ c s) =
    let (ended, open_line) = split_from "" s in
    let longer = split_from (tail <> String.◌∷◌ c "") s in
    if code c == b'\n' then (trim_cr tail ∷ ended, open_line) else longer

set_tail-IsValid : (r : StderrRing) (t : String) → IsValid r → IsValid (record r { tail = t })
set_tail-IsValid r t (cut u b v full tail) = cut u b v full t
set_tail-IsValid r t (empty tail) = empty t

-- A line more, and those after it.
line-refines :
    (r : StderrRing) (x : String) (ys : List String)
    → IsValid r
    → keep_last (push r x).limit (retained (push r x) ++ ys)
      ≡ keep_last r.limit (retained r ++ x ∷ ys)
line-refines r x ys v =
    ap (λ n. keep_last n (retained (push r x) ++ ys)) (limit-push r x)
    ∙ ap (λ l. keep_last r.limit (l ++ ys)) (push-refines r x v)
    ∙ keep_last-twice r.limit (retained r ++ x ∷ []) ys
    ∙ ap (keep_last r.limit) (append_assoc (retained r) (x ∷ []) ys)

write-refines :
    (s : String) (r : StderrRing)
    → IsValid r
    → (retained (write s r) ≡ keep_last r.limit (retained r ++ (split_from r.tail s).0))
      × ((write s r).tail ≡ (split_from r.tail s).1)
unfolding write split_from write_byte retained
write-refines String.[] r v = (
  sym (
      ap (keep_last r.limit) (append-nil (retained r))
      ∙ keep_last-all r.limit (retained r) (retained-le r v)),
  refl,
)
write-refines (String.◌∷◌ c s) r v = elim (Bool-cases (code c == b'\n')) [
  | inl e ↦
      let x = trim_cr r.tail in
      let valid = set_tail-IsValid (push r x) "" (push-IsValid r x v) in
      let (kept, left) = write-refines s (end_line r) valid in
      rw (write, write_byte, e) (kept ∙ line-refines r x (split_from "" s).0 v, left)
  | inr e ↦
      rw (write, write_byte, e)
        (write-refines s (extend c r) (set_tail-IsValid r (r.tail <> String.◌∷◌ c "") v))
]

length-blank : (n : ℕ) → length (blank n) ≡ n
length-blank zero = refl
length-blank (suc n) = ap suc (length-blank n)

new_ring-IsValid : (n : ℕ) → IsValid (new_ring n)
unfolding new_ring
new_ring-IsValid zero = empty ""
new_ring-IsValid (suc n) =
    subst (λ k. IsValid (record (new_ring (suc n)) { limit = k })) {x = 0 + suc (length (blank n))}
      (omega (arith, length-blank n)) (cut [] "" (blank n) false "")

-- A fresh ring of `n` lines to which a text was written holds the last `n`
-- lines of it that ended, oldest first, and what follows the last of these.
pub lines-write :
    (n : ℕ) (s : String)
    → lines (write s (new_ring n))
      ≡ keep_last n (split_from "" s).0 ++ unterminated (split_from "" s).1
unfolding lines new_ring retained
lines-write n s =
    let (kept, left) = write-refines s (new_ring n) (new_ring-IsValid n) in
    ap (λ l. l ++ unterminated (write s (new_ring n)).tail) kept
    ∙ ap (λ t. keep_last n (split_from "" s).0 ++ unterminated t) left
