-- ===== src/Promote/Effects.antt =====
-- The calls that internal/promote makes on its dependencies (`Deps` of promote.go). Their answers are
-- the fields of `World`, which sees everything that was called before: a file, a mount or a stream
-- may change between two calls. The trace holds the calls, the newest first.
pub mod Laws
use codarr.Prelude.{
  ℕ, String, Bool, true, false, List, [], ◌∷◌, ◌++◌, map, Option, none, some, Result, ok, err,
  if◌then◌else◌, split_on, join, starts, ◌<>◌, str_eq, is_empty,
}
use mathlib.Core.List.{reverse}
use codarr.Promote.Types.{FailureCode, Cause, Failure, Output}

-- fsx.FileInfo
pub record FileInfo : Type 0 where
  pub size : ℕ
  pub mode : ℕ
  pub mtime : ℕ
  pub uid : ℕ
  pub gid : ℕ
  pub nlink : ℕ
  pub device : ℕ
  pub is_dir : Bool

-- What Plex says of a path; `unanswerable` is an error.
pub data Guard : Type 0 where
  free : Guard
  streaming : String → Guard
  unanswerable : Guard

pub data Call : Type 0 where
  create close remove sync_file sync_dir : String → Call
  copy rename : String → String → Call
  chown : String → ℕ → ℕ → Call
  chmod chtimes : String → ℕ → Call
  notify : String → Call
  wait : Call

pub data Event : Type 0 where
  looked : String → Event
  asked : String → Guard → Event
  did : Call → Bool → Event
  reported : Event

abbrev pub Trace : Type 0
Trace = List Event

pub record World : Type 0 where
  pub probe : Trace → String → Option Output
  pub stat : Trace → String → Option FileInfo
  pub free_bytes : Trace → String → Option ℕ
  pub sparse : Trace → String → Option String
  pub full : Trace → String → Option String
  pub guard : Trace → String → Guard
  pub succeeds : Trace → Call → Bool
  pub now : Trace → ℕ

abbrev pub Action : Type 0 → Type 0
Action A = Trace → Result Failure A × Trace

infixl 5 ◌>>=◌ ◌>>◌
abbrev pub ◌>>=◌ : {A B : Type 0} → Action A → (A → Action B) → Action B
◌>>=◌ m f h = let (r, h') = m h in elim r [ ok a ↦ f a h' | err e ↦ (err e, h') ]

abbrev pub ◌>>◌ : {A B : Type 0} → Action A → Action B → Action B
m >> k = m >>= λ _. k

abbrev pub return : {A : Type 0} → A → Action A
return a h = (ok a, h)

abbrev pub fail : {A : Type 0} → FailureCode → Cause → Action A
fail c cause h = (err (record { code = c; cause = cause }), h)

-- One look at a file: the answer, or the failure that the caller wraps it in.
abbrev pub look :
    {A : Type 0} → (Trace → String → Option A) → String → FailureCode → Cause → Action A
look read path c cause h = elim (read h path) [
  | none ↦ (err (record { code = c; cause = cause }), looked path ∷ h)
  | some a ↦ (ok a, looked path ∷ h)
]

-- One call that answers with an error or nothing: whether it succeeded.
abbrev pub try : World → Call → Action Bool
try w c h = (ok (w.succeeds h c), did c (w.succeeds h c) ∷ h)

abbrev pub call : World → Call → FailureCode → Cause → Action Bool
call w c code cause = try w c >>= λ done. if done then return true else fail code cause

-- `filepath.Dir`, `filepath.Join` and `filepath.IsAbs`, on clean paths.
abbrev drop_last : List String → List String
drop_last [] = []
drop_last (s ∷ []) = []
drop_last (s ∷ t ∷ ss) = s ∷ drop_last (t ∷ ss)

abbrev pub dir : String → String
dir p = let d = join "/" (drop_last (split_on b'/' p)) in if str_eq d "" then "/" else d

abbrev pub join_path : String → String → String
join_path d name = if str_eq d "/" then "/" <> name else d <> "/" <> name

abbrev pub is_abs : String → Bool
is_abs p = starts p "/"
