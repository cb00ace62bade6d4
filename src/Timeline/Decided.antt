-- ===== src/Timeline/Decided.antt =====
-- Decisions on suggestions: one is taken once, and the suggestions of a refresh leave it alone.
use tracegarden.Prelude.{
  ℕ, ◌≡◌, refl, sym, ◌∙◌, inl, inr, Bool, true, false, some, List, [], ◌∷◌, arith, Bool-cases,
  Option-cases, some_inj, filter, Str, ◌===◌, ===_iff, ===_refl,
}
use tracegarden.Prelude.Dates.{Dates}
use tracegarden.Prelude.Dict.{Dict, get, get-set}
use tracegarden.Domain.Correlation.{Candidate}
use tracegarden.Timeline.Records.{Suggestion, Store}
use tracegarden.Timeline.Decisions.{
  is_pending, offer, offer_all, candidates_of, refresh_correlation_suggestions, candidate_key,
}

offer_decided :
    (now : Str) (id : Str) (c : Candidate) (m : Dict Suggestion) (k : Str) (g : Suggestion)
    → get k m ≡ some g
    → is_pending g ≡ false
    → get k (offer now (id, c) m) ≡ some g
unfolding offer
offer_decided now id c m k g h p = elim (Option-cases (get (candidate_key c) m)) [
  | inl e ↦ rw (e, offer, get-set) (ground (arith, ===_iff (candidate_key c) k, e, h))
  | inr (x, e) ↦ elim (Bool-cases (is_pending x)) [
    | inr q ↦ rw (e, offer, q) h
    | inl q ↦
        rw (e, offer, q)
          (rw get-set (elim (Bool-cases (candidate_key c === k)) [
            | inr t ↦ rw t h
            | inl t ↦ absurd (
                let same : x ≡ g =
                  some_inj x g (sym e ∙ (rw ((===_iff (candidate_key c) k).0 t) h)) in
                ground (arith, rw same at q, p))
          ]))
  ]
]

offer_all_decided :
    (now : Str) (candidates : List (Str × Candidate)) (m : Dict Suggestion) (k : Str)
    (g : Suggestion)
    → get k m ≡ some g
    → is_pending g ≡ false
    → get k (offer_all now candidates m) ≡ some g
unfolding offer_all
offer_all_decided now [] m k g h p = h
offer_all_decided now ((id, c) ∷ rest) m k g h p =
    offer_all_decided now rest (offer now (id, c) m) k g (offer_decided now id c m k g h p) p

get-filter :
    (p : Str × Suggestion → Bool) (m : Dict Suggestion) (k : Str) (g : Suggestion)
    → get k m ≡ some g
    → p (k, g) ≡ true
    → get k (filter p m) ≡ some g
unfolding get
get-filter p [] k g h t = absurd cc
get-filter p ((j, x) ∷ m) k g h t = elim (Bool-cases (j === k)) [
  | inl e ↦
      let same : x ≡ g = some_inj x g (rw e at h) in
      let key : j ≡ k = (===_iff j k).0 e in rw (same, key, t) (rw (===_refl k) refl)
  | inr e ↦ elim (Bool-cases (p (j, x))) [
    | inl q ↦ rw (q, e) (get-filter p m k g (rw e at h) t)
    | inr q ↦ rw q (get-filter p m k g (rw e at h) t)
  ]
]

-- A refresh of the suggestions, whatever the candidates then are, keeps each suggestion that is
-- decided as it is.
pub refresh_correlation_suggestions_decided :
    (d : Dates) (ids : ℕ → Str) (now workspace : Str) (s : Store) (k : Str) (g : Suggestion)
    → get k s.suggestions ≡ some g
    → is_pending g ≡ false
    → get k (refresh_correlation_suggestions d ids now workspace s).suggestions ≡ some g
unfolding refresh_correlation_suggestions
refresh_correlation_suggestions_decided d ids now workspace s k g h p =
    offer_all_decided now (candidates_of d ids workspace s) _ k g
      (get-filter _ s.suggestions k g h (ground (arith, p))) p
