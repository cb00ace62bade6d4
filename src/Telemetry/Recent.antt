-- ===== src/Telemetry/Recent.antt =====
-- The signals that are remembered and those that are exported: packages/telemetry/src/index.ts,
-- `dispatch`.
use tracegarden.Prelude.{
  ℕ, zero, suc, ◌+◌, ◌-◌, ◌≤◌, ◌≡◌, refl, sym, ap, ◌∙◌, inl, inr, true, false, not, ◌&&◌, List, [],
  ◌∷◌, ◌++◌, arith, ltb, leb, if◌then◌else◌, Bool-cases, is_some, length, drop, length-append,
  length-drop, Str,
}
use tracegarden.Prelude.Dict.{Dict}
use tracegarden.Telemetry.Signals.{MetricValue, Host, MetricType, counter, gauge, TelemetrySignal}
use tracegarden.Telemetry.Runtime.{Runtime, dispatch, shift}
use tracegarden.Telemetry.Metrics.{
  Add, update_metric, series_key, target, with_target, max_metric_series,
}
use tracegarden.Telemetry.Steps.{Call, World, run}
use tracegarden.Telemetry.Kept.{kept_run}
use tracegarden.Telemetry.Names.{is_metric_name}
use tracegarden.Telemetry.Signals.{MetricValue}
use tracegarden.Prelude.Dict.{get}

-- The last `n` of a list.
abbrev pub last {ℓ} : {A : Type ℓ} → ℕ → List A → List A
last n xs = drop (length xs - n) xs

module _ {ℓ} {A : Type ℓ} where
  drop-snoc :
      (k : ℕ) (xs : List A) (x : A) → k ≤ length xs → drop k (xs ++ x ∷ []) ≡ drop k xs ++ x ∷ []
  drop-snoc zero xs x h = refl
  drop-snoc (suc k) [] x h = absurd (omega arith)
  drop-snoc (suc k) (y ∷ xs) x h = drop-snoc k xs x (omega arith)

  shift-drop : (k : ℕ) (xs : List A) → shift (drop k xs) ≡ drop (suc k) xs
  shift-drop zero [] = refl
  shift-drop zero (x ∷ xs) = refl
  shift-drop (suc k) [] = refl
  shift-drop (suc k) (x ∷ xs) = shift-drop k xs

  -- To push and to shift when there are too many keeps the last.
  last-snoc :
      (n : ℕ) (xs : List A) (x : A)
      → (let pushed = last n xs ++ x ∷ [] in if ltb n (length pushed) then shift pushed else pushed)
        ≡ last n (xs ++ x ∷ [])
  last-snoc n xs x =
      let k = length xs - n in
      let snoc = drop-snoc k xs x (omega arith) in
      let size = length-drop k xs in
      let size' = length-append (drop k xs) (x ∷ []) in
      let all_size = length-append xs (x ∷ []) in
      elim (Bool-cases (leb n (length xs))) [
        | inl full ↦
            let too_many : ltb n (length (drop k xs ++ x ∷ [])) ≡ true = ground arith in
            let next : length (xs ++ x ∷ []) - n ≡ suc k = ground arith in
            rw (too_many, next) (ap shift (sym snoc) ∙ shift-drop k (xs ++ x ∷ []))
        | inr room ↦
            let fits : ltb n (length (drop k xs ++ x ∷ [])) ≡ false = ground arith in
            let same : length (xs ++ x ∷ []) - n ≡ k = ground arith in rw (fits, same) (sym snoc)
      ]

module _ {Num : Type 0} where
  abbrev pub RemembersLast : Runtime Num → Type 0
  RemembersLast r = r.signal_history ≡ last 1000 r.emitted

  dispatch-RemembersLast :
      (signal : TelemetrySignal Num) (r : Runtime Num)
      → RemembersLast r
      → RemembersLast (dispatch signal r)
  unfolding dispatch
  dispatch-RemembersLast signal r h = rw h (last-snoc 1000 r.emitted signal)

module _ {Num : Type 0} (host : Host Num) where
  -- An update of a metric sends nothing.
  pub update_metric-quiet :
      (kind : MetricType) (name : Str) (value : Num) (labels : Dict Str) (add : Add)
      (r : Runtime Num)
      → let r' = (update_metric host kind name value labels add r).0 in
        (r'.emitted ≡ r.emitted)
        × (r'.signal_history ≡ r.signal_history)
        × (r'.exported ≡ r.exported)
        × (r'.options ≡ r.options)
  unfolding update_metric
  update_metric-quiet kind name value labels add r = elim (Bool-cases (is_metric_name name)) [
    | inr bad ↦ rw bad (refl, refl, refl, refl)
    | inl good ↦
        rw good
          (elim (Bool-cases (
            not (is_some (get (series_key host name labels) (target host kind r)))
            && leb max_metric_series (length r.counters + length r.gauges))) [
              | inl full ↦ rw full (refl, refl, refl, refl)
              | inr room ↦ rw room (put_quiet kind _ r)
            ])
  ]
    where
      put_quiet :
          (kind : MetricType) (series : Dict (MetricValue Num)) (r : Runtime Num)
          → let r' = with_target host kind series r in
            (r'.emitted ≡ r.emitted)
            × (r'.signal_history ≡ r.signal_history)
            × (r'.exported ≡ r.exported)
            × (r'.options ≡ r.options)
      put_quiet counter series r = (refl, refl, refl, refl)
      put_quiet gauge series r = (refl, refl, refl, refl)

  -- Whatever calls are made, the signals that the runtime remembers are the last 1,000 of those that
  -- it dispatched, in their order, or all of them while they are fewer.
  pub run-RemembersLast :
      (calls : List (Call Num)) (w : World Num)
      → RemembersLast w.runtime
      → RemembersLast (run host calls w).runtime
  run-RemembersLast =
      kept_run host RemembersLast dispatch-RemembersLast (λ kind name value labels add r h.
        let q = update_metric-quiet kind name value labels add r in
        q.1 ∙ h ∙ ap (last 1000) (sym q.0))
