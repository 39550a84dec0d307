-- ===== src/Offline/Attempts.antt =====
-- src/sastt/application/offline_pipeline.py: a region whose separation fails is transcribed as a
-- mixture, and its failure does not end the job.
use speaker_attributed_stt.Prelude.{
  ℕ, String, Bool, true, false, not, ◌&&◌, ◌||◌, ◌≡◌, refl, inl, inr, Option, none, some, List, [],
  ◌∷◌, ◌++◌, Bool-cases, if-elim, arith,
}
use speaker_attributed_stt.Prelude.Dict.{is_some}
use speaker_attributed_stt.Errors.{Result, ok, err, Error, value_error, raise_if, Result-cases}
use speaker_attributed_stt.Errors
use speaker_attributed_stt.Exec.{Exec, lift, ◌>>=◌}
use speaker_attributed_stt.Audio.Interval.{TimeInterval, make, pad}
use speaker_attributed_stt.Transcript.{Word}
use speaker_attributed_stt.Fusion.{WordGroup}
use speaker_attributed_stt.Router.{RouteDecision, runs_separation}
use speaker_attributed_stt.Offline.Regions.{OverlapRegion}
use speaker_attributed_stt.Offline.Overlaps.{
  is_separation_failed, Recognized, Ports, Handled, mixture_of, mixture_fallback, fall_back,
  attempted, attempt, with_separator, separator_for, separate_if, handle_overlap_region,
}

module _ {X : Type 0} where
  -- What was returned has the property; what was raised is no failure of the separation.
  abbrev pub Outcome : (X → Type 0) → Result X → Type 0
  Outcome Q (ok x) = Q x
  Outcome Q (err e) = is_separation_failed e ≡ false

  abbrev pub Yields {ℓ} : {S : Type ℓ} → (X → Type 0) → (S → Result X × S) → Type ℓ
  Yields {S = S} Q m = (s : S) → Outcome Q (m s).0

abbrev pub Anything : {X : Type 0} → X → Type 0
Anything x = Unit

raise_if-Outcome :
    {X : Type 0} (b : Bool) (e : Error) (x : X)
    → is_separation_failed e ≡ false
    → Outcome Anything (Errors.◌>>◌ (raise_if b e) (ok x))
raise_if-Outcome true e x h = h
raise_if-Outcome false e x h = tt

module _ {S X Y : Type 0} where
  >>=-Yields :
      (Q : X → Type 0) (R : Y → Type 0) (m : Exec S X) (k : X → Exec S Y)
      → Yields Q m
      → ((x : X) → Q x → Yields R (k x))
      → Yields R (m >>= k)
  >>=-Yields Q R m k h j s =
      let first = h s in
      elim (Result-cases (m s).0) [
        | inl (e, q) ↦ let raised = rw q at first in rw q raised
        | inr (x, q) ↦ let made = rw q at first in rw q (j x made (m s).1)
      ]

-- A decision that is degraded makes the region degraded.
abbrev pub IsMarked : {F : Type 0} → RouteDecision F → Handled F → Type 0
IsMarked decision handled = (decision.degraded && not handled.degraded) ≡ false

module _ {S B Sep F : Type 0} (p : Ports S B Sep F)
    (crops : (i : TimeInterval) → Outcome Anything (p.crop_ms i))
    (transcribes : (b : B) → Yields Anything (p.transcribe b))
    (detects : (b : B) → Yields Anything (p.detect b)) where
  mixture_of-Yields :
      (region : OverlapRegion F) (decision : RouteDecision F) (warnings : List String) (crop : B)
      (result : Recognized F) (words : List (Word F))
      → Yields Anything (mixture_of p region decision warnings crop result words)
  unfolding mixture_of
  mixture_of-Yields region decision warnings crop result [] = λ s. tt
  mixture_of-Yields region decision warnings crop result (w ∷ ws) =
      >>=-Yields Anything Anything (p.detect crop) _ (detects crop) (λ speech h s. tt)

  mixture_fallback-Yields :
      (region : OverlapRegion F) (decision : RouteDecision F) (warnings : List String)
      → Yields Anything (mixture_fallback p region decision warnings)
  unfolding mixture_fallback
  mixture_fallback-Yields region decision warnings =
      >>=-Yields Anything Anything (lift (p.crop_ms region.interval)) _ (λ s. crops region.interval)
        (λ crop h.
          >>=-Yields Anything Anything (p.transcribe crop) _ (transcribes crop)
            (λ result k. mixture_of-Yields region decision warnings crop result _))

  fall_back-Yields :
      (region : OverlapRegion F) (decision : RouteDecision F) (warnings : List String)
      (degraded : Bool)
      → (decision.degraded && not degraded) ≡ false
      → Yields (IsMarked decision) (fall_back p region decision warnings degraded)
  unfolding fall_back
  fall_back-Yields region decision warnings degraded marked =
      >>=-Yields Anything (IsMarked decision) (mixture_fallback p region decision warnings) _
        (mixture_fallback-Yields region decision warnings) (λ made h s. marked)

  attempted-Outcome :
      (decision : RouteDecision F) (otherwise : Exec S (Handled F))
      (r : Result (List (WordGroup F) × (List String × Bool))) (s : S)
      → Yields (IsMarked decision) otherwise
      → Outcome (IsMarked decision) (attempted p decision otherwise r s).0
  unfolding attempted
  attempted-Outcome decision otherwise (ok made) s h = ground arith
  attempted-Outcome decision otherwise (err e) s h = elim (Bool-cases (is_separation_failed e)) [
    | inl failed ↦ rw failed (h s)
    | inr other ↦ rw other other
  ]

  attempt-Yields :
      (decision : RouteDecision F) (separation : Exec S (List (WordGroup F) × (List String × Bool)))
      (otherwise : Exec S (Handled F))
      → Yields (IsMarked decision) otherwise
      → Yields (IsMarked decision) (attempt p decision separation otherwise)
  unfolding attempt
  attempt-Yields decision separation otherwise h s =
      attempted-Outcome decision otherwise (separation s).0 (separation s).1 h

  pad-Outcome :
      (i : TimeInterval) (context lower : ℕ) (upper : Option ℕ)
      → Outcome Anything (pad i context lower upper)
  unfolding pad make is_separation_failed
  pad-Outcome i context lower upper = raise_if-Outcome _ value_error _ refl

  abbrev given_up : OverlapRegion F → RouteDecision F → Exec S (Handled F)
  given_up region decision =
      fall_back p region decision (decision.warnings ++ "separation_failed_degraded" ∷ []) true

  with_separator-Yields :
      (region : OverlapRegion F) (decision : RouteDecision F) (sep : Sep)
      → Yields (IsMarked decision) (with_separator p region decision sep)
  unfolding with_separator
  with_separator-Yields region decision sep =
      >>=-Yields Anything (IsMarked decision)
        (lift (pad region.interval p.context_ms p.start_ms (some p.end_ms))) _
        (λ s. pad-Outcome region.interval p.context_ms p.start_ms (some p.end_ms))
        (λ padded h.
          attempt-Yields decision (p.separate_and_link region padded decision sep)
            (attempt p decision (p.separate_and_link region region.interval decision sep)
              (given_up region decision))
            (attempt-Yields decision (p.separate_and_link region region.interval decision sep)
              (given_up region decision) (fall_back-Yields region decision _ true (ground arith))))

  separate_if-Yields :
      (region : OverlapRegion F) (decision : RouteDecision F) (sep : Option Sep)
      → Yields (IsMarked decision) (separate_if p region decision sep)
  unfolding separate_if
  separate_if-Yields region decision none = fall_back-Yields region decision _ true (ground arith)
  separate_if-Yields region decision (some sep) = with_separator-Yields region decision sep

  -- However the separation of an overlap region ends, where cropping, recognition and speech
  -- detection raise no failure of a separation: handling the region raises none either, and a region
  -- whose decision is degraded comes back degraded.
  pub handle_overlap_region-Outcome :
      (region : OverlapRegion F) (decision : RouteDecision F) (s : S)
      → Outcome (IsMarked decision) (handle_overlap_region p region decision s).0
  unfolding handle_overlap_region
  handle_overlap_region-Outcome region decision s =
      if-elim {A = Exec S (Handled F)} (λ m. Outcome (IsMarked decision) (m s).0)
        (not (runs_separation decision) || not (is_some p.separator)) _ _
        (λ out. fall_back-Yields region decision decision.warnings _ (ground arith) s)
        (λ runs. separate_if-Yields region decision (separator_for p decision) s)
