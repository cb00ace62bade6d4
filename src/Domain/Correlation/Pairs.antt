-- ===== src/Domain/Correlation/Pairs.antt =====
-- The candidates are exactly the pairs of entries that have a signal, each in the order of the ids.
use tracegarden.Prelude.{
  ◌≡◌, refl, ◌↔◌, ◌⊎◌, inl, inr, Bool, true, false, List, [], ◌∷◌, arith, Bool-cases, Str, ◌===◌,
  ===_iff, ltb_str, In, In-append, In-append_left, In-append_right,
}
use tracegarden.Prelude.Dates.{Dates}
use tracegarden.Domain.Correlation.{
  CorrelationEntry, Candidate, correlation_signals_between, candidate_of, candidates_with,
  suggest_correlation_candidates, has_signals,
}
use tracegarden.Domain.Correlation.Symmetry.{HasLabels, correlation_signals_between_comm}

-- The first entry stands in the list, and the second one behind it.
abbrev pub Before : CorrelationEntry → CorrelationEntry → List CorrelationEntry → Type 0
Before l r [] = ⊥
Before l r (x ∷ rest) = ((l ≡ x) × In r rest) ⊎ Before l r rest

pub ltb_str_total : (a b : Str) → (a === b) ≡ false → ltb_str a b ≡ false → ltb_str b a ≡ true
unfolding ltb_str ◌===◌
ltb_str_total [] [] ne h = cc
ltb_str_total [] (y ∷ b) ne h = cc
ltb_str_total (x ∷ a) [] ne h = refl
ltb_str_total (x ∷ a) (y ∷ b) ne h = ground (arith, ltb_str_total a b)

pub ltb_str_asym : (a b : Str) → ltb_str a b ≡ true → ltb_str b a ≡ false
unfolding ltb_str
ltb_str_asym [] [] h = cc
ltb_str_asym [] (y ∷ b) h = refl
ltb_str_asym (x ∷ a) [] h = cc
ltb_str_asym (x ∷ a) (y ∷ b) h = ground (arith, ltb_str_asym a b)

module _ (d : Dates) where
  abbrev pub related : CorrelationEntry → CorrelationEntry → Bool
  related l r = has_signals d (correlation_signals_between d l r)

  candidates_with_complete :
      (l r : CorrelationEntry) (rest : List CorrelationEntry)
      → In r rest
      → related l r ≡ true
      → In (candidate_of d l r) (candidates_with d l rest)
  unfolding candidates_with
  candidates_with_complete l r [] m h = absurd m
  candidates_with_complete l r (x ∷ rest) (inl e) h = rw (← e, h) (inl refl)
  candidates_with_complete l r (x ∷ rest) (inr m) h = elim (Bool-cases (related l x)) [
    | inl t ↦ rw t (inr (candidates_with_complete l r rest m h))
    | inr t ↦ rw t (candidates_with_complete l r rest m h)
  ]

  candidates_with_sound :
      (c : Candidate) (l : CorrelationEntry) (rest : List CorrelationEntry)
      → In c (candidates_with d l rest)
      → (r : CorrelationEntry) × In r rest × (related l r ≡ true) × (c ≡ candidate_of d l r)
  unfolding candidates_with
  candidates_with_sound c l [] m = absurd m
  candidates_with_sound c l (x ∷ rest) m = elim (Bool-cases (related l x)) [
    | inl t ↦ first t (rw t at m) (candidates_with_sound c l rest)
    | inr t ↦ later (candidates_with_sound c l rest (rw t at m))
  ]
    where
      later :
          (r : CorrelationEntry) × In r rest × (related l r ≡ true) × (c ≡ candidate_of d l r)
          → (r : CorrelationEntry) × In r (x ∷ rest)
            × (related l r ≡ true)
            × (c ≡ candidate_of d l r)
      later (r, p, h, e) = (r, inr p, h, e)

      first :
          related l x ≡ true
          → In c (candidate_of d l x ∷ candidates_with d l rest)
          → (In c (candidates_with d l rest)
              → (r : CorrelationEntry) × In r rest
                × (related l r ≡ true)
                × (c ≡ candidate_of d l r))
          → (r : CorrelationEntry) × In r (x ∷ rest)
            × (related l r ≡ true)
            × (c ≡ candidate_of d l r)
      first t (inl e) ih = (x, inl refl, t, e)
      first t (inr q) ih = later (ih q)

  suggest_complete :
      (l r : CorrelationEntry) (entries : List CorrelationEntry)
      → Before l r entries
      → related l r ≡ true
      → In (candidate_of d l r) (suggest_correlation_candidates d entries)
  unfolding suggest_correlation_candidates
  suggest_complete l r [] b h = absurd b
  suggest_complete l r (x ∷ rest) (inl (e, m)) h =
      In-append_left _ (candidates_with d x rest) _
        (rw (← e) (candidates_with_complete l r rest m h))
  suggest_complete l r (x ∷ rest) (inr b) h =
      In-append_right _ (candidates_with d x rest) _ (suggest_complete l r rest b h)

  suggest_sound :
      (c : Candidate) (entries : List CorrelationEntry)
      → In c (suggest_correlation_candidates d entries)
      → (l : CorrelationEntry) × (r : CorrelationEntry) × Before l r entries
        × (related l r ≡ true)
        × (c ≡ candidate_of d l r)
  unfolding suggest_correlation_candidates
  suggest_sound c [] m = absurd m
  suggest_sound c (x ∷ rest) m =
      elim (In-append c (candidates_with d x rest) (suggest_correlation_candidates d rest) m) [
        | inl p ↦ let (r, q, h, e) = candidates_with_sound c x rest p in (x, r, inl (refl, q), h, e)
        | inr p ↦ let (l, r, b, h, e) = suggest_sound c rest p in (l, r, inr b, h, e)
      ]

  -- The candidates are exactly those for two entries, one behind the other in the timeline, that
  -- have a signal.
  pub suggest_iff :
      (c : Candidate) (entries : List CorrelationEntry)
      → In c (suggest_correlation_candidates d entries) ↔ (
          (l : CorrelationEntry) × (r : CorrelationEntry) × Before l r entries
          × (related l r ≡ true)
          × (c ≡ candidate_of d l r))
  suggest_iff c entries =
      (suggest_sound c entries, λ w. rw w.4 (suggest_complete w.0 w.1 entries w.2 w.3))

  related-apart :
      (l r : CorrelationEntry)
      → related l r ≡ true
      → ((l.id === r.id) ≡ false) × ((l.workspace_id === r.workspace_id) ≡ true)
  unfolding correlation_signals_between
  related-apart l r h = ground arith

  -- The candidate for two entries that have a signal names the smaller id on the left, and is the
  -- candidate for the two in the other order, if no label of an entry stands twice.
  pub candidate_of_normal :
      (l r : CorrelationEntry)
      → HasLabels l
      → HasLabels r
      → related l r ≡ true
      → (ltb_str (candidate_of d l r).left_entry_id (candidate_of d l r).right_entry_id ≡ true)
        × (candidate_of d l r ≡ candidate_of d r l)
  unfolding candidate_of
  candidate_of_normal l r hl hr h =
      let (apart, same) = related-apart l r h in
      let signals = correlation_signals_between_comm d l r hl hr in
      let workspace = (===_iff l.workspace_id r.workspace_id).0 same in
      elim (Bool-cases (ltb_str l.id r.id)) [
        | inl t ↦ ground (arith, t, ltb_str_asym l.id r.id t)
        | inr t ↦ ground (arith, t, ltb_str_total l.id r.id apart t)
      ]
