-- ===== src/Decide/Force/Laws.antt =====
-- What a forced encode does to a plan.
use codarr.Prelude.{
  String, true, false, ◌&&◌, List, [], ◌∷◌, none, some, ◌++◌, ap, ◌≡◌, refl, ◌↔◌, ◌⊎◌, arith, inl,
  inr, any, find_first, ◌==◌, Bool-cases, ◌∙◌, Option-cases,
}
use codarr.Domain.Kind
use codarr.Domain.Kind.Laws.{has_video-kind_of}
use codarr.Domain.Plan.{StreamPlan, Plan, is_kept_video, video_stream, encodes_video}
use codarr.Decide.Engine.{derive_kind, encodes}
use codarr.Decide.Force.{force_first, force_video_encode, forced, with_streams}

-- The kind of a plan has the video label exactly when its video stream is encoded.
pub derive_kind-video :
    (p : Plan) → Kind.has (derive_kind p) Kind.label_video ≡ encodes (video_stream p)
unfolding derive_kind
derive_kind-video p = has_video-kind_of _ ∙ ground arith

force_first-none :
    (reason : String) (ss : List StreamPlan)
    → (force_first reason ss ≡ none) ↔ (find_first is_kept_video ss ≡ none)
unfolding force_first
force_first-none reason [] = (λ _. refl, λ _. refl)
force_first-none reason (s ∷ ss) = ground (arith, force_first-none reason ss)

-- The stream that a forced encode changes, between those that it leaves alone.
pub record Change (reason : String) (before after : List StreamPlan) : Type 0 where
  pub front : List StreamPlan
  pub stream : StreamPlan
  pub back : List StreamPlan
  pub was : before ≡ front ++ stream ∷ back
  pub becomes : after ≡ front ++ forced reason stream ∷ back
  pub first_kept : is_kept_video stream ≡ true
  pub none_before : any is_kept_video front ≡ false

force_first-Change :
    (reason : String) (ss ss' : List StreamPlan)
    → force_first reason ss ≡ some ss'
    → Change reason ss ss'
unfolding force_first
force_first-Change reason [] ss' h = absurd (cc h)
force_first-Change reason (s ∷ ss) ss' h = elim (Bool-cases (is_kept_video s)) [
  | inl e ↦ record {
    front = [];
    stream = s;
    back = ss;
    was = refl;
    becomes = ground (arith, h);
    first_kept = e;
    none_before = refl;
  }
  | inr e ↦ elim (Option-cases (force_first reason ss)) [
    | inl k ↦ absurd (ground (arith, h))
    | inr (ss₁, k) ↦
        let c = force_first-Change reason ss ss₁ k in
        record {
          front = s ∷ c.front;
          stream = c.stream;
          back = c.back;
          was = ap (λ l. s ∷ l) c.was;
          becomes = ground (arith, h, c.becomes);
          first_kept = c.first_kept;
          none_before = rw (e, c.none_before);
        }
  ]
]

first-Change :
    (front : List StreamPlan) (s : StreamPlan) (back : List StreamPlan)
    → is_kept_video s ≡ true
    → any is_kept_video front ≡ false
    → find_first is_kept_video (front ++ s ∷ back) ≡ some s
first-Change [] s back h k = rw h
first-Change (f ∷ front) s back h k = ground (arith, first-Change front s back h)

some_eq {ℓ} : {A : Type ℓ} {a b : A} → some a ≡ some b → b ≡ a
some_eq h = cc

kept_if_forced :
    (reason : String) (s : StreamPlan)
    → is_kept_video s ≡ true
    → is_kept_video (forced reason s) ≡ true
kept_if_forced reason s h = ground arith

Change-encodes :
    {reason : String} {ss ss' : List StreamPlan}
    → Change reason ss ss'
    → encodes (find_first is_kept_video ss') ≡ true
Change-encodes {reason} c = rw c.becomes (
    ap encodes
      (first-Change c.front _ c.back (kept_if_forced reason c.stream c.first_kept) c.none_before))

with_streams-encodes_video :
    (reason : String) (p : Plan) (ss : List StreamPlan)
    → encodes_video (with_streams reason p ss) ≡ encodes (find_first is_kept_video ss)
unfolding encodes_video video_stream
with_streams-encodes_video reason p ss =
    derive_kind-video (record p { streams = ss; level_rewrite = false })

force_video_encode-streams :
    (p q : Plan) (reason : String)
    → force_video_encode p reason ≡ some q
    → (ss : List StreamPlan) × (force_first reason p.streams ≡ some ss)
      × (q ≡ with_streams reason p ss)
      × ((p.dolby_vision && p.dolby_vision_profile == 5) ≡ false)
unfolding force_video_encode
force_video_encode-streams p q reason h =
    elim (Bool-cases (p.dolby_vision && p.dolby_vision_profile == 5)) [
      | inl e ↦
          absurd (
            cc
              (let k : force_video_encode p reason ≡ some q = h in rw (e, force_video_encode) at k))
      | inr e ↦ elim (Option-cases (force_first reason p.streams)) [
        | inl k ↦ absurd (
            cc (
              let k' : force_video_encode p reason ≡ some q = h in
              rw (e, k, force_video_encode) at k'))
        | inr (ss, k) ↦ (
          ss,
          k,
          some_eq (
              let k' : force_video_encode p reason ≡ some q = h in
              rw (e, k, force_video_encode) at k'),
          e,
        )
      ]
    ]

-- A forced plan changes one stream, the first kept video stream, which it encodes for the given reason;
-- it encodes video, rewrites no level flag, and is not made for Dolby Vision profile 5.
pub force_video_encode-Change :
    (p q : Plan) (reason : String)
    → force_video_encode p reason ≡ some q
    → Change reason p.streams q.streams
      × (encodes_video q ≡ true)
      × (q.level_rewrite ≡ false)
      × ((p.dolby_vision && p.dolby_vision_profile == 5) ≡ false)
force_video_encode-Change p q reason h =
    let (ss, k, e, dv) = force_video_encode-streams p q reason h in
    let c = force_first-Change reason p.streams ss k in
    rw e (c, with_streams-encodes_video reason p ss ∙ Change-encodes c, refl, dv)

-- There is no forced plan exactly for Dolby Vision profile 5 and for a plan that keeps no video.
pub force_video_encode-none_iff :
    (p : Plan) (reason : String)
    → (force_video_encode p reason ≡ none)
      ↔ (((p.dolby_vision && p.dolby_vision_profile == 5) ≡ true) ⊎ (video_stream p ≡ none))
unfolding force_video_encode video_stream
force_video_encode-none_iff p reason = ground (arith, force_first-none reason p.streams)
