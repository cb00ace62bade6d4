-- ===== src/Timeline/Found.antt =====
-- How a suggestion is found after others are written, dropped or refreshed.
use tracegarden.Prelude.{
  ℕ, suc, ◌≡◌, refl, sym, ap, ◌∙◌, ◌≢◌, inl, inr, Bool, true, false, ◌&&◌, none, some, List, [],
  ◌∷◌, arith, Bool-cases, Option-cases, some_inj, find, filter, All, Str, ◌===◌, ===_refl,
}
use tracegarden.Prelude.Dates.{Dates}
use tracegarden.Prelude.Dict.{Dict, get, set, values}
use tracegarden.Domain.Correlation.{Candidate}
use tracegarden.Timeline.Records.{Suggestion, Store}
use tracegarden.Timeline.Decisions.{
  suggestion_key, candidate_key, is_pending, offer, offer_all, with_ids, candidates_of,
  refresh_correlation_suggestions, find_suggestion,
}

-- Each suggestion of the workspace stands once, under the key of its ends.
abbrev pub AreFiled : Str → Dict Suggestion → Type 0
AreFiled workspace [] = Unit
AreFiled workspace ((k, g) ∷ m) =
    (g.workspace_id ≡ workspace → k ≡ suggestion_key workspace g.left_entry_id g.right_entry_id)
    × (get k m ≡ none)
    × AreFiled workspace m

module _ (p : Suggestion → Bool) where
  -- The value that is found is replaced by another that passes.
  pub find-set :
      (workspace : Str) (m : Dict Suggestion) (k : Str) (g v : Suggestion)
      → AreFiled workspace m
      → g.workspace_id ≡ workspace
      → k ≡ suggestion_key workspace g.left_entry_id g.right_entry_id
      → find p (values m) ≡ some g
      → p v ≡ true
      → find p (values (set k v m)) ≡ some v
  unfolding set
  find-set workspace [] k g v f w q h t = absurd cc
  find-set workspace ((j, x) ∷ m) k g v f w q h t = elim (Bool-cases (p x)) [
    | inl e ↦
        let same : x ≡ g = some_inj x g (rw e at h) in
        let key : j ≡ k = f.0 (ap (λ y. y.workspace_id) same ∙ w) ∙ rw same (sym q) in
        rw (key, ===_refl k) (rw t refl)
    | inr e ↦ elim (Bool-cases (j === k)) [
      | inl r ↦ rw r (rw t refl)
      | inr r ↦ rw (r, e) (find-set workspace m k g v f.2 w q (rw e at h) t)
    ]
  ]

  pub find-filter :
      (keep : Str × Suggestion → Bool) (m : Dict Suggestion) (g : Suggestion)
      → ((k : Str) → keep (k, g) ≡ true)
      → find p (values m) ≡ some g
      → find p (values (filter keep m)) ≡ some g
  find-filter keep [] g t h = absurd cc
  find-filter keep ((k, x) ∷ m) g t h = elim (Bool-cases (p x)) [
    | inl e ↦ let same : x ≡ g = some_inj x g (rw e at h) in rw same (rw (t k, rw same at e) refl)
    | inr e ↦ elim (Bool-cases (keep (k, x))) [
      | inl q ↦ rw (q, e) (find-filter keep m g t (rw e at h))
      | inr q ↦ rw q (find-filter keep m g t (rw e at h))
    ]
  ]

-- A value that passes is found after it is written, where none passed before.
pub find-set_new {ℓ} :
    {V : Type ℓ} (p : V → Bool) (m : Dict V) (k : Str) (v : V)
    → find p (values m) ≡ none
    → p v ≡ true
    → find p (values (set k v m)) ≡ some v
unfolding set
find-set_new p [] k v h t = rw t refl
find-set_new p ((j, x) ∷ m) k v h t = elim (Bool-cases (p x)) [
  | inl e ↦ let bad : some x ≡ none = rw e at h in absurd cc
  | inr e ↦ elim (Bool-cases (j === k)) [
    | inl r ↦ rw (r, t) refl
    | inr r ↦ rw (r, e) (find-set_new p m k v (rw e at h) t)
  ]
]

-- Whether a suggestion is the one of an id in a workspace.
abbrev pub matches : Str → Str → Suggestion → Bool
matches workspace id g = g.workspace_id === workspace && g.id === id

module _ (workspace id : Str) where
  -- Another value than the one that is found is written, and passes only if what it replaces does.
  find-set_other :
      (m : Dict Suggestion) (k : Str) (g v : Suggestion)
      → find (matches workspace id) (values m) ≡ some g
      → get k m ≢ some g
      → ((x : Suggestion) → get k m ≡ some x → matches workspace id v ≡ matches workspace id x)
      → (get k m ≡ none → matches workspace id v ≡ false)
      → find (matches workspace id) (values (set k v m)) ≡ some g
  unfolding get set
  find-set_other [] k g v h other same new = absurd cc
  find-set_other ((j, x) ∷ m) k g v h other same new = elim (Bool-cases (j === k)) [
    | inl r ↦ elim (Bool-cases (matches workspace id x)) [
      | inl e ↦ absurd (rw r at other (ap (λ y. some y) (some_inj x g (rw e at h))))
      | inr e ↦ rw r (rw (((rw r at same) x refl) ∙ e) (rw e at h))
    ]
    | inr r ↦ elim (Bool-cases (matches workspace id x)) [
      | inl e ↦ rw (r, e) (rw e at h)
      | inr e ↦
          rw (r, e)
            (find-set_other m k g v (rw e at h) (rw r at other) (rw r at same) (rw r at new))
    ]
  ]

  find-offer :
      (now fresh : Str) (c : Candidate) (m : Dict Suggestion) (g : Suggestion)
      → find (matches workspace id) (values m) ≡ some g
      → is_pending g ≡ false
      → fresh === id ≡ false
      → find (matches workspace id) (values (offer now (fresh, c) m)) ≡ some g
  unfolding offer
  find-offer now fresh c m g h p n = elim (Option-cases (get (candidate_key c) m)) [
    | inl e ↦
        rw (e, offer)
          (find-set_other m (candidate_key c) g _ h (λ q. absurd cc) (λ x q. absurd cc)
            (λ q. rw n (ground arith)))
    | inr (x, e) ↦ elim (Bool-cases (is_pending x)) [
      | inr q ↦ rw (e, offer, q) h
      | inl q ↦
          rw (e, offer, q)
            (find-set_other m (candidate_key c) g _ h
              (λ r. let same : x ≡ g = some_inj x g (sym e ∙ r) in ground (arith, rw same at q, p))
              (λ y r. let same : x ≡ y = some_inj x y (sym e ∙ r) in rw same refl) (λ r. absurd cc))
    ]
  ]

  find-offer_all :
      (now : Str) (candidates : List (Str × Candidate)) (m : Dict Suggestion) (g : Suggestion)
      → find (matches workspace id) (values m) ≡ some g
      → is_pending g ≡ false
      → All (λ c. c.0 === id ≡ false) candidates
      → find (matches workspace id) (values (offer_all now candidates m)) ≡ some g
  unfolding offer_all
  find-offer_all now [] m g h p a = h
  find-offer_all now ((fresh, c) ∷ rest) m g h p a =
      find-offer_all now rest (offer now (fresh, c) m) g (find-offer now fresh c m g h p a.0) p a.1

  with_ids-fresh :
      (ids : ℕ → Str) (n : ℕ) (cs : List Candidate)
      → ((i : ℕ) → ids i === id ≡ false)
      → All (λ c. c.0 === id ≡ false) (with_ids ids n cs)
  unfolding with_ids
  with_ids-fresh ids n [] f = tt
  with_ids-fresh ids n (c ∷ cs) f = (f n, with_ids-fresh ids (suc n) cs f)

  -- A decided suggestion is found after a refresh as before.
  pub find-refresh :
      (d : Dates) (ids : ℕ → Str) (now : Str) (s : Store) (g : Suggestion)
      → find_suggestion workspace id s.suggestions ≡ some g
      → is_pending g ≡ false
      → ((i : ℕ) → ids i === id ≡ false)
      → find_suggestion workspace id
          (refresh_correlation_suggestions d ids now workspace s).suggestions
        ≡ some g
  unfolding refresh_correlation_suggestions
  find-refresh d ids now s g h p f =
      find-offer_all now (candidates_of d ids workspace s) _ g
        (find-filter (matches workspace id) _ s.suggestions g (λ k. ground (arith, p)) h) p
        (with_ids-fresh ids 0 _ f)
