-- ===== src/Promote/Preflight/Laws.antt =====
-- What a passed preflight says of the disk.
use mathlib.Core.Path.{subst}
use codarr.Prelude.{
  ◌⊎◌, String, Bool, true, false, not, ◌&&◌, ◌∷◌, Option, none, some, ok, ◌≡◌, refl, sym, ap, ◌∙◌,
  ◌==◌, arith, str_eq, if◌then◌else◌, inl, inr, Option-cases, Bool-cases,
}
use codarr.Promote.Types.{
  PreflightRequest, Staging, Cause, fail_preflight, source_gone, source_unread, fingerprint_changed,
  device_split,
}
use codarr.Promote.Effects.{
  World, Trace, Action, FileInfo, ◌>>=◌, ◌>>◌, look, looked, fail, return, dir, is_abs, join_path,
}
use codarr.Promote.Effects.Laws.{Result-cases}
use codarr.Promote.Preflight.Room.{IsRoomy, choose_staging-room}
use codarr.Promote.Preflight.{
  changed, check_source_unchanged, check_writable, choose_staging, cross_device, preflight, refuse,
}

-- The first error of a chain is the chain's: a chain that succeeds has steps that do.
bind-ok :
    {A B : Type 0} (m : Action A) (f : A → Action B) (h : Trace) (b : B)
    → ((m >>= f) h).0 ≡ ok b
    → (a : A) × ((m h).0 ≡ ok a) × ((f a (m h).1).0 ≡ ok b)
bind-ok m f h b q = elim (Result-cases (m h).0) [
  | inl (a, e) ↦ (a, e, rw (◌>>=◌, e) at q)
  | inr (x, e) ↦ absurd (cc (rw (◌>>=◌, e) at q))
]

-- After a first step that succeeds, a chain goes on as the rest of it does.
bind-after :
    {A B : Type 0} (m : Action A) (f : A → Action B) (h : Trace) (a : A)
    → (m h).0 ≡ ok a
    → (m >>= f) h ≡ f a (m h).1
bind-after m f h a e = rw (◌>>=◌, e) refl

-- The file as analysis recorded it, and replaceable: one link, and no directory.
pub record IsUnchanged (req : PreflightRequest) (info : FileInfo) : Type 0 where
  pub file : info.is_dir ≡ false
  pub one_link : info.nlink ≡ 1
  pub same_size : info.size ≡ req.source.size_bytes
  pub same_mtime : info.mtime ≡ req.source.mtime

changed-none :
    (req : PreflightRequest) (info : FileInfo) → changed req info ≡ none → IsUnchanged req info
unfolding changed
changed-none req info q = record {
  file = ground (arith, q);
  one_link = ground (arith, q);
  same_size = ground (arith, q);
  same_mtime = ground (arith, q);
}

refuse-ok : (c : Option Cause) (h : Trace) (b : Bool) → (refuse c h).0 ≡ ok b → c ≡ none
refuse-ok none h b q = refl
refuse-ok (some c) h b q = absurd (cc q)

look-ok :
    {A : Type 0} (w : World) (read : Trace → String → Option A) (path : String) (cause : Cause)
    (h : Trace) (a : A)
    → (look read path fail_preflight cause h).0 ≡ ok a
    → read h path ≡ some a
look-ok w read path cause h a q = ground (arith, q)

check_source_unchanged-ok :
    (w : World) (req : PreflightRequest) (h : Trace) (b : Bool)
    → (check_source_unchanged w req h).0 ≡ ok b
    → (info : FileInfo) × (w.stat h req.source_path ≡ some info) × IsUnchanged req info
unfolding check_source_unchanged
check_source_unchanged-ok w req h b q =
    let read = look w.stat req.source_path fail_preflight source_gone in
    let known =
      if str_eq req.source.fingerprint ""
      then return true
      else (look w.sparse req.source_path fail_preflight source_unread >>= λ current.
          if str_eq current req.source.fingerprint
          then return true
          else fail fail_preflight fingerprint_changed) in
    let (info, e, k) = bind-ok read (λ i. refuse (changed req i) >> known) h b q in
    let (c, r, rest) = bind-ok (refuse (changed req info)) (λ _. known) (read h).1 b k in
    (
      info,
      look-ok w w.stat req.source_path source_gone h info e,
      changed-none req info (refuse-ok (changed req info) (read h).1 c r),
    )

settled_staging : Staging → Bool → Action Staging
settled_staging st crosses =
    if crosses && not st.used_temp_dir
    then fail fail_preflight device_split
    else return (record {
      path = st.path;
      final_path = st.final_path;
      used_temp_dir = st.used_temp_dir;
      cross_device = crosses;
    })

settled_staging-ok :
    (st : Staging) (x : Bool) (s : Staging) (h : Trace)
    → (settled_staging st x h).0 ≡ ok s
    → (s.path ≡ st.path)
      × (s.cross_device ≡ x)
      × (x ≡ true → st.used_temp_dir ≡ true)
      × ((settled_staging st x h).1 ≡ h)
unfolding settled_staging
settled_staging-ok st x s h q =
    (ground (arith, q), ground (arith, q), λ c. ground (arith, q, c), ground (arith, q))

-- What the device test looked at, from a trace `g`.
record Compared (w : World) (staging_dir dest_dir : String) (g : Trace) (crosses : Bool)
    : Type 0 where
  staging : FileInfo
  dest : FileInfo
  staging_stat : w.stat g staging_dir ≡ some staging
  dest_stat : w.stat (looked staging_dir ∷ g) dest_dir ≡ some dest
  told : crosses ≡ not (staging.device == dest.device)
  after : (cross_device w staging_dir dest_dir g).1 ≡ looked dest_dir ∷ looked staging_dir ∷ g

cross_device-ok :
    (w : World) (staging_dir dest_dir : String) (g : Trace) (x : Bool)
    → (cross_device w staging_dir dest_dir g).0 ≡ ok x
    → Compared w staging_dir dest_dir g x
unfolding cross_device
cross_device-ok w sd dd g x q = elim (Option-cases (w.stat g sd)) [
  | inl e ↦ absurd (ground (arith, e, q))
  | inr (a, e) ↦ elim (Option-cases (w.stat (looked sd ∷ g) dd)) [
    | inl k ↦ absurd (ground (arith, e, k, q))
    | inr (b, k) ↦ record {
      staging = a;
      dest = b;
      staging_stat = e;
      dest_stat = k;
      told = ground (arith, e, k, q);
      after = ground (arith, e, k);
    }
  ]
]

-- The directory of the staging path and that of the source were found, one look after the other, to
-- be on one device, or else the staging path lies in the temporary directory.
pub IsOneDevice : World → String → PreflightRequest → Staging → Trace → Type 0
IsOneDevice w temp_dir req s g =
    (a : FileInfo) × (b : FileInfo) × (w.stat g (dir s.path) ≡ some a)
    × (w.stat (looked (dir s.path) ∷ g) (dir req.source_path) ≡ some b)
    × (s.cross_device ≡ not (a.device == b.device))
    × ((a.device ≡ b.device) ⊎ ((name : String) × (s.path ≡ join_path temp_dir name)))

in_temp :
    (w : World) (temp_dir : String) (req : PreflightRequest) (dest : String) (h : Trace)
    (st : Staging)
    → (choose_staging w temp_dir req dest h).0 ≡ ok st
    → st.used_temp_dir ≡ true
    → (name : String) × (st.path ≡ join_path temp_dir name)
unfolding IsRoomy
in_temp w temp_dir req dest h st e used =
    let (name, room, final, roomy, enough) = choose_staging-room w temp_dir req dest h st e in
    elim roomy [ inl b ↦ absurd (cc (b.1, used)) | inr t ↦ (name, t.0) ]

-- The chosen staging path, with the answers of the device test.
split_device :
    (w : World) (temp_dir : String) (req : PreflightRequest) (dest : String) (h g : Trace)
    (st : Staging) (x : Bool) (s : Staging) (h' : Trace)
    → (choose_staging w temp_dir req dest h).0 ≡ ok st
    → (cross_device w (dir st.path) (dir req.source_path) g).0 ≡ ok x
    → (settled_staging st x h').0 ≡ ok s
    → IsOneDevice w temp_dir req s g
unfolding IsOneDevice
split_device w temp_dir req dest h g st x s h' chosen compared settled =
    let (path, crosses, used, same) = settled_staging-ok st x s h' settled in
    let k = cross_device-ok w (dir st.path) (dir req.source_path) g x compared in
    (
      k.staging,
      k.dest,
      subst (λ p. w.stat g (dir p) ≡ some k.staging) (sym path) k.staging_stat,
      subst (λ p. w.stat (looked (dir p) ∷ g) (dir req.source_path) ≡ some k.dest) (sym path)
          k.dest_stat,
      crosses ∙ k.told,
      elim (Bool-cases x) [
        | inl y ↦
            let (name, where_) = in_temp w temp_dir req dest h st chosen (used y) in
            inr (name, path ∙ where_)
        | inr y ↦ inl (ground (arith, k.told, y))
      ],
    )

-- When a preflight passes, the source path is absolute, the source is a file with one link and the
-- recorded size and modification time, and by the last two looks of the preflight, at the directories
-- of the staging path and of the source, the two are on one device, as the result says, or else the
-- staging path lies in the configured temporary directory.
pub preflight-ok :
    (w : World) (temp_dir : String) (req : PreflightRequest) (h : Trace) (s : Staging)
    → (preflight w temp_dir req h).0 ≡ ok s
    → (is_abs req.source_path ≡ true)
      × ((g : Trace) × ((preflight w temp_dir req h).1
            ≡ looked (dir req.source_path) ∷ looked (dir s.path) ∷ g)
          × IsOneDevice w temp_dir req s g)
      × ((info : FileInfo) × (w.stat h req.source_path ≡ some info) × IsUnchanged req info)
unfolding preflight settled_staging
preflight-ok w temp_dir req h s q = elim (Bool-cases (is_abs req.source_path)) [
  | inr n ↦ absurd (ground (arith, n, q))
  | inl a ↦
      let dest = dir req.source_path in
      let fourth = λ (st : Staging). cross_device w (dir st.path) dest >>= settled_staging st in
      let third = choose_staging w temp_dir req dest >>= fourth in
      let second = check_writable w req.job_id dest >> third in
      let start = check_source_unchanged w req >> second in
      let (b, e₁, r₁) = bind-ok (check_source_unchanged w req) (λ _. second) h s (rw a at q) in
      let (c, e₂, r₂) = bind-ok (check_writable w req.job_id dest) (λ _. third) _ s r₁ in
      let (st, e₃, r₃) = bind-ok (choose_staging w temp_dir req dest) fourth _ s r₂ in
      let (x, e₄, r₄) = bind-ok (cross_device w (dir st.path) dest) (settled_staging st) _ s r₃ in
      let (path, _, _, same) = settled_staging-ok st x s _ r₄ in
      let end =
        bind-after (check_source_unchanged w req) (λ _. second) h b e₁
        ∙ bind-after (check_writable w req.job_id dest) (λ _. third) _ c e₂
        ∙ bind-after (choose_staging w temp_dir req dest) fourth _ st e₃
        ∙ bind-after (cross_device w (dir st.path) dest) (settled_staging st) _ x e₄ in
      let checked = (check_writable w req.job_id dest (check_source_unchanged w req h).1).1 in
      let g = (choose_staging w temp_dir req dest checked).1 in
      let compared = cross_device-ok w (dir st.path) dest g x e₄ in
      (
        a,
        (
          g,
          rw a (
              ap (λ y. y.1) end
              ∙ same
              ∙ compared.after
              ∙ ap (λ y. looked dest ∷ looked (dir y) ∷ g) (sym path)),
          split_device w temp_dir req dest _ _ st x s _ e₃ e₄ r₄,
        ),
        check_source_unchanged-ok w req h b e₁,
      )
]
