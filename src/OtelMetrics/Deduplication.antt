-- ===== src/OtelMetrics/Deduplication.antt =====
-- src/telemetry/otel_metrics.rs: points equivalent to the one before are discarded, and no others.
use coralogix_aws_lambda_tel.Prelude.{
  ◌≡◌, refl, sym, ap, ◌∙◌, inl, inr, false, Option, none, some, List, [], ◌∷◌, ◌++◌, append_assoc,
  append-nil,
}
use coralogix_aws_lambda_tel.Prelude.{if◌then◌else◌, Bool-cases, last_or}
use coralogix_aws_lambda_tel.OtelMetrics.TimeSeries.{
  DataPoint, TimeSeries, last_point, push, push_if_different,
}

module _ {DP : Type 0} (dp : DataPoint DP) where
  abbrev pub IsChanging : DP → List DP → Type 0
  IsChanging a [] = Unit
  IsChanging a (b ∷ r) = (dp.is_equivalent a b ≡ false) × IsChanging b r

  abbrev pub IsChangingFrom : Option DP → List DP → Type 0
  IsChangingFrom (some a) r = IsChanging a r
  IsChangingFrom none [] = Unit
  IsChangingFrom none (a ∷ r) = IsChanging a r

  -- `accumulate_if_different` at the points of one time series
  abbrev pub push_all_if_different : List DP → TimeSeries DP → TimeSeries DP
  push_all_if_different [] ts = ts
  push_all_if_different (p ∷ ps) ts = push_all_if_different ps (push_if_different dp p ts)

  IsChanging-concat :
      (a p : DP) (r : List DP)
      → IsChanging a r
      → dp.is_equivalent (last_or a r) p ≡ false
      → IsChanging a (r ++ p ∷ [])
  IsChanging-concat a p [] h e = (e, tt)
  IsChanging-concat a p (b ∷ r) (k, h) e = (k, IsChanging-concat b p r h e)

  push_if_different-IsChangingFrom :
      (pp : Option DP) (ps : List DP) (p : DP)
      → IsChangingFrom pp ps
      → let ts = push_if_different dp p (record { previous_point = pp; new_points = ps }) in
        IsChangingFrom ts.previous_point ts.new_points
  unfolding push_if_different
  push_if_different-IsChangingFrom none [] p h = tt
  push_if_different-IsChangingFrom (some a) [] p h = elim (Bool-cases (dp.is_equivalent a p)) [
    | inl same ↦ rw same tt
    | inr other ↦ rw other (other, tt)
  ]
  push_if_different-IsChangingFrom none (b ∷ r) p h =
      elim (Bool-cases (dp.is_equivalent (last_or b r) p)) [
        | inl same ↦ rw same h
        | inr other ↦ rw other (IsChanging-concat b p r h other)
      ]
  push_if_different-IsChangingFrom (some a) (b ∷ r) p (k, h) =
      elim (Bool-cases (dp.is_equivalent (last_or b r) p)) [
        | inl same ↦ rw same (k, h)
        | inr other ↦ rw other (k, IsChanging-concat b p r h other)
      ]

  -- Whatever points come in, no gathered point is equivalent to the point before it, the last one
  -- exported included.
  pub push_all_if_different-IsChangingFrom :
      (ts : TimeSeries DP) (ps : List DP)
      → IsChangingFrom ts.previous_point ts.new_points
      → IsChangingFrom
          (push_all_if_different ps ts).previous_point
          (push_all_if_different ps ts).new_points
  push_all_if_different-IsChangingFrom ts [] h = h
  push_all_if_different-IsChangingFrom ts (p ∷ ps) h =
      push_all_if_different-IsChangingFrom (push_if_different dp p ts) ps
        (push_if_different-IsChangingFrom ts.previous_point ts.new_points p h)

  -- The points that follow `a`, without those that are equivalent to the last point kept.
  abbrev pub without_repeats_after : DP → List DP → List DP
  without_repeats_after a [] = []
  without_repeats_after a (b ∷ r) =
      let skipped = without_repeats_after a r in
      let kept = b ∷ without_repeats_after b r in if dp.is_equivalent a b then skipped else kept

  -- A list without repeats: of each run of points equivalent to its first, the first is kept.
  abbrev pub without_repeats : List DP → List DP
  without_repeats [] = []
  without_repeats (a ∷ r) = a ∷ without_repeats_after a r

  -- the exported point and the gathered ones
  abbrev pub points_of : TimeSeries DP → List DP
  points_of ts = elim ts.previous_point [ none ↦ ts.new_points | some a ↦ a ∷ ts.new_points ]

  last_or-concat : (a p : DP) (r : List DP) → last_or a (r ++ p ∷ []) ≡ p
  last_or-concat a p [] = refl
  last_or-concat a p (b ∷ r) = last_or-concat b p r

  -- Behind gathered points, those that come are taken without repeats of the last one.
  push_all_if_different-after :
      (ps : List DP) (pp : Option DP) (b : DP) (r : List DP)
      → push_all_if_different ps (record { previous_point = pp; new_points = b ∷ r }) ≡ record {
        previous_point = pp;
        new_points = b ∷ r ++ without_repeats_after (last_or b r) ps;
      }
  unfolding push_if_different last_point push
  push_all_if_different-after [] pp b r =
      ap (λ l. record { previous_point = pp; new_points = b ∷ l }) (sym (append-nil r))
  push_all_if_different-after (p ∷ ps) pp b r =
      elim (Bool-cases (dp.is_equivalent (last_or b r) p)) [
        | inl same ↦ rw same (push_all_if_different-after ps pp b r)
        | inr other ↦ rw other (
            push_all_if_different-after ps pp b (r ++ p ∷ [])
            ∙ ap (λ l. record { previous_point = pp; new_points = b ∷ l })
                (ap (λ q. (r ++ p ∷ []) ++ without_repeats_after q ps) (last_or-concat b p r)
                  ∙ append_assoc r (p ∷ []) (without_repeats_after p ps)))
      ]

  -- The points gathered since an export are, behind the exported one, what remains of all points that came
  -- when of each run of points equivalent to its first only the first is kept.
  pub push_all_if_different-without_repeats :
      (exported : Option DP) (ps : List DP)
      → points_of (push_all_if_different ps (record { previous_point = exported; new_points = [] }))
        ≡ without_repeats (points_of (record { previous_point = exported; new_points = ps }))
  unfolding push_if_different last_point push
  push_all_if_different-without_repeats none [] = refl
  push_all_if_different-without_repeats none (p ∷ ps) =
      ap points_of (push_all_if_different-after ps none p [])
  push_all_if_different-without_repeats (some a) [] = refl
  push_all_if_different-without_repeats (some a) (p ∷ ps) =
      elim (Bool-cases (dp.is_equivalent a p)) [
        | inl same ↦ rw same (push_all_if_different-without_repeats (some a) ps)
        | inr other ↦ rw other (ap points_of (push_all_if_different-after ps (some a) p []))
      ]
