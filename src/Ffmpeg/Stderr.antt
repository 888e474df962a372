-- ===== src/Ffmpeg/Stderr.antt =====
-- internal/ffmpeg/progress.go, StderrRing: the last lines that ffmpeg wrote, in a ring of fixed size.
-- A text is read by its characters; the newline that ends a line is the same byte in both.
pub mod Keep
pub mod Laws
use Prim.Native.Char.{Char, code}
use Prim.Native.String
use codarr.Prelude.{
  ℕ, zero, suc, ◌+◌, ◌-◌, ◌%◌, String, Bool, true, false, ◌&&◌, ◌||◌, List, [], ◌∷◌, ◌++◌, str_eq,
  join, ◌==◌, ◌<>◌, if◌then◌else◌,
}

-- `make([]string, n)`
abbrev pub blank : ℕ → List String
blank zero = []
blank (suc n) = "" ∷ blank n

module _ {ℓ} {A : Type ℓ} where
  -- `xs[:n]` and `xs[n:]`
  abbrev pub take : ℕ → List A → List A
  take zero xs = []
  take (suc n) [] = []
  take (suc n) (x ∷ xs) = x ∷ take n xs

  abbrev pub drop : ℕ → List A → List A
  drop zero xs = xs
  drop (suc n) [] = []
  drop (suc n) (x ∷ xs) = drop n xs

  -- `xs[i] = a`
  abbrev pub set_at : ℕ → A → List A → List A
  set_at i a [] = []
  set_at zero a (x ∷ xs) = a ∷ xs
  set_at (suc i) a (x ∷ xs) = x ∷ set_at i a xs

pub record StderrRing : Type 0 where
  pub buf : List String
  pub next : ℕ
  pub full : Bool
  pub tail : String
  pub limit : ℕ

unfoldable pub new_ring : ℕ → StderrRing
new_ring n = record { buf = blank n; next = 0; full = false; tail = ""; limit = n }

unfoldable pub push : StderrRing → String → StderrRing
push r line =
    let next = (r.next + 1) % r.limit in
    if r.limit == 0
    then r
    else record r { buf = set_at r.next line r.buf; next = next; full = r.full || next == 0 }

-- `strings.TrimRight(line, "\r")`
unfoldable pub trim_cr : String → String
trim_cr String.[] = ""
trim_cr (String.◌∷◌ c s) =
    let rest = trim_cr s in if str_eq rest "" && code c == b'\r' then "" else String.◌∷◌ c rest

abbrev pub end_line : StderrRing → StderrRing
end_line r = record (push r (trim_cr r.tail)) { tail = "" }

abbrev pub extend : Char → StderrRing → StderrRing
extend c r = record r { tail = r.tail <> String.◌∷◌ c "" }

unfoldable pub write_byte : Char → StderrRing → StderrRing
unfolding push trim_cr
write_byte c r = if code c == b'\n' then end_line r else extend c r

unfoldable pub write : String → StderrRing → StderrRing
unfolding write_byte
write String.[] r = r
write (String.◌∷◌ c s) r = write s (write_byte c r)

abbrev pub unterminated : String → List String
unterminated tail = if str_eq tail "" then [] else tail ∷ []

-- The lines of the ring, oldest first, without the one that has not ended.
unfoldable pub retained : StderrRing → List String
retained r = (if r.full then drop r.next r.buf else []) ++ take r.next r.buf

unfoldable pub lines : StderrRing → List String
unfolding retained
lines r = retained r ++ unterminated r.tail

unfoldable pub tail_text : StderrRing → String
unfolding lines
tail_text r = join "\n" (lines r)
