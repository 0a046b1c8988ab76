-- ===== src/Group/Walk/Agree.antt =====
-- The gap walk against its specification: it emits the maximal runs of close shots, in order.
use mathlib.Core.List.{append-nil, append_assoc}
use choix.Base.{
  Option, some, none, List, [], ◌∷◌, ◌++◌, true, false, not, ◌≡◌, refl, sym, ap, ◌∙◌, concat, map,
  inl, inr, Option-cases, Bool-cases,
}
use choix.Base.Int.{ℤ, ◌-ℤ◌, ltb_ℤ}
use choix.Group.Walk.{Walk, flush, step, walk_from, walk}
use choix.Group.Walk.Runs.{
  close, runs, start_of, runs-nil, runs-single, runs_head, attach_far, attach_untimed, attach_near,
}

module _ {A D : Type 0} (emit : Option ℤ → List A → List D) (bucket_sec : ℤ)
    (captured_at : A → Option ℤ) where
  abbrev pub bucket : List A → List D
  bucket r = emit (start_of bucket_sec captured_at r) r

  abbrev pub buckets : List (List A) → List D
  buckets rs = concat (map bucket rs)

  abbrev front : List A → List (List A) → List (List A)
  front cs [] = []
  front cs (r ∷ rs) = (cs ++ r) ∷ rs

  abbrev state : List A → Option ℤ → Option ℤ → List D → Walk A D
  state curr start prev defs = record { curr = curr; start = start; prev = prev; defs = defs }

  start_of-append :
      (cs r : List A) (l : A)
      → start_of bucket_sec captured_at ((cs ++ l ∷ []) ++ r)
        ≡ start_of bucket_sec captured_at (cs ++ l ∷ [])
  start_of-append [] r l = refl
  start_of-append (c ∷ cs) r l = refl

  flush_snoc :
      (cs : List A) (l : A) (s p : Option ℤ) (d : List D)
      → (flush emit bucket_sec captured_at (state (cs ++ l ∷ []) s p d)).defs
        ≡ d ++ emit s (cs ++ l ∷ [])
  unfolding flush
  flush_snoc [] l s p d = refl
  flush_snoc (c ∷ cs) l s p d = refl

  abbrev step_on : A → Walk A D → Walk A D
  step_on = step emit bucket_sec captured_at

  step_none :
      (f : A) (c : List A) (s p : Option ℤ) (d : List D)
      → captured_at f ≡ none
      → step_on f (state c s p d)
        ≡ state [] s none
            ((flush emit bucket_sec captured_at (state c s p d)).defs ++ emit none (f ∷ []))
  unfolding step
  step_none f c s p d e = rw (e, step)

  step_first :
      (f : A) (c : List A) (s : Option ℤ) (t : ℤ) (d : List D)
      → captured_at f ≡ some t
      → step_on f (state c s none d) ≡ state (f ∷ []) (some t) (some t) d
  unfolding step
  step_first f c s t d e = rw (e, step)

  step_far :
      (f : A) (c : List A) (s : Option ℤ) (t u : ℤ) (d : List D)
      → captured_at f ≡ some u
      → ltb_ℤ bucket_sec (u -ℤ t) ≡ true
      → step_on f (state c s (some t) d)
        ≡ state
            (f ∷ [])
            (some u)
            (some u)
            (flush emit bucket_sec captured_at (state c s (some t) d)).defs
  unfolding step
  step_far f c s t u d e h = rw (e, step) (rw h)

  step_near :
      (f : A) (c : List A) (s : Option ℤ) (t u : ℤ) (d : List D)
      → captured_at f ≡ some u
      → ltb_ℤ bucket_sec (u -ℤ t) ≡ false
      → step_on f (state c s (some t) d) ≡ state (c ++ f ∷ []) s (some u) d
  unfolding step
  step_near f c s t u d e h = rw (e, step) (rw h)

  front-nil : (rs : List (List A)) → front [] rs ≡ rs
  front-nil [] = refl
  front-nil (r ∷ rs) = refl

  close_times :
      (f g : A) (t u : ℤ)
      → captured_at f ≡ some t
      → captured_at g ≡ some u
      → close bucket_sec captured_at f g ≡ not (ltb_ℤ bucket_sec (u -ℤ t))
  unfolding close
  close_times f g t u e k = rw (e, close) (rw (k, close))

  close-none :
      (f g : A) (t : ℤ)
      → captured_at f ≡ some t
      → captured_at g ≡ none
      → close bucket_sec captured_at f g ≡ false
  unfolding close
  close-none f g t e k = rw (e, close) (rw (k, close))

  abbrev runs_of : List A → List (List A)
  runs_of = runs bucket_sec captured_at

  abbrev from : List A → Walk A D → List D
  from = walk_from emit bucket_sec captured_at

  mutual
    unfolding walk_from

    walk_empty :
        (fs : List A) (s : Option ℤ) (d : List D)
        → from fs (state [] s none d) ≡ d ++ buckets (runs_of fs)
    walk_empty [] s d = rw (runs-nil bucket_sec captured_at) (sym (append-nil d))
    walk_empty (f ∷ fs) s d = elim (Option-cases (captured_at f)) [
      | inl e ↦
          rw (step_none f [] s none d e, attach_untimed bucket_sec captured_at f fs e)
            (walk_empty fs s (d ++ emit none (f ∷ []))
              ∙ append_assoc d (emit none (f ∷ [])) (buckets (runs_of fs))
              ∙ ap (λ c. d ++ (emit c (f ∷ []) ++ buckets (runs_of fs))) (sym e))
      | inr (t, e) ↦ rw (step_first f [] s t d e) (
          walk_open fs [] f (some t) t d e (sym e)
          ∙ ap (λ rs. d ++ buckets rs) (front-nil (runs_of (f ∷ fs))))
    ]

    walk_open :
        (fs : List A) (cs : List A) (l : A) (s : Option ℤ) (t : ℤ) (d : List D)
        → captured_at l ≡ some t
        → s ≡ start_of bucket_sec captured_at (cs ++ l ∷ [])
        → from fs (state (cs ++ l ∷ []) s (some t) d) ≡ d ++ buckets (front cs (runs_of (l ∷ fs)))
    walk_open [] cs l s t d e q = rw (runs-single bucket_sec captured_at l) (
        flush_snoc cs l s (some t) d
        ∙ ap (λ c. d ++ emit c (cs ++ l ∷ [])) q
        ∙ ap (◌++◌ d) (sym (append-nil (bucket (cs ++ l ∷ [])))))
    walk_open (f ∷ fs) cs l s t d e q = elim (Option-cases (captured_at f)) [
      | inl k ↦
          rw
            (
              step_none f (cs ++ l ∷ []) s (some t) d k,
              attach_far bucket_sec captured_at l f fs (close-none l f t e k),
              attach_untimed bucket_sec captured_at f fs k,
              flush_snoc cs l s (some t) d,
            )
            (walk_empty fs s ((d ++ emit s (cs ++ l ∷ [])) ++ emit none (f ∷ []))
              ∙ append_assoc (d ++ emit s (cs ++ l ∷ [])) (emit none (f ∷ []))
                  (buckets (runs_of fs))
              ∙ append_assoc d (emit s (cs ++ l ∷ [])) (emit none (f ∷ []) ++ buckets (runs_of fs))
              ∙ ap (λ c. d ++ (emit s (cs ++ l ∷ []) ++ (emit c (f ∷ []) ++ buckets (runs_of fs))))
                  (sym k)
              ∙ ap (λ c. d ++ (emit c (cs ++ l ∷ []) ++ (bucket (f ∷ []) ++ buckets (runs_of fs))))
                  q)
      | inr (u, k) ↦ elim (Bool-cases (ltb_ℤ bucket_sec (u -ℤ t))) [
        | inl h ↦
            rw
              (
                step_far f (cs ++ l ∷ []) s t u d k h,
                attach_far bucket_sec captured_at l f fs (close_times l f t u e k ∙ ap not h),
                flush_snoc cs l s (some t) d,
              )
              (walk_open fs [] f (some u) u (d ++ emit s (cs ++ l ∷ [])) k (sym k)
                ∙ ap (λ rs. (d ++ emit s (cs ++ l ∷ [])) ++ buckets rs)
                    (front-nil (runs_of (f ∷ fs)))
                ∙ append_assoc d (emit s (cs ++ l ∷ [])) (buckets (runs_of (f ∷ fs)))
                ∙ ap (λ c. d ++ (emit c (cs ++ l ∷ []) ++ buckets (runs_of (f ∷ fs)))) q)
        | inr h ↦
            let (r, rs, m) = runs_head bucket_sec captured_at f fs in
            rw
              (
                step_near f (cs ++ l ∷ []) s t u d k h,
                attach_near bucket_sec captured_at l f fs r rs (close_times l f t u e k ∙ ap not h)
                    m,
              )
              (walk_open fs (cs ++ l ∷ []) f s u d k (q ∙ sym (start_of-append cs (f ∷ []) l))
                ∙ ap (λ rs. d ++ buckets (front (cs ++ l ∷ []) rs)) m
                ∙ ap (λ c. d ++ (bucket c ++ buckets rs)) (append_assoc cs (l ∷ []) (f ∷ r)))
      ]
    ]

  -- The gap walk emits exactly the maximal runs of close shots, in order, each with the time of its
  -- first shot.
  pub walk-runs : (seq : List A) → walk emit bucket_sec captured_at seq ≡ buckets (runs_of seq)
  unfolding walk
  walk-runs seq = walk_empty seq none []
