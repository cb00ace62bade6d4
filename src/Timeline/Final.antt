-- ===== src/Timeline/Final.antt =====
-- A decision on a suggestion is final.
use tracegarden.Domain.Correlation.{confirmed, rejected}
use tracegarden.Prelude.{
  ℕ, ◌≡◌, refl, sym, ap, ◌∙◌, inl, inr, Bool, true, false, Option, none, some, List, [], ◌∷◌, arith,
  Bool-cases, some_inj, find, Str, ◌===◌, ===_iff, ===_refl, trim, truthy,
}
use tracegarden.Prelude.Dates.{Dates}
use tracegarden.Prelude.Dict.{values}
use tracegarden.Prelude.Result.{Result, ok, err}
use tracegarden.Timeline.Records.{
  Suggestion, Store, ConfirmedLink, TimelineError, decision_conflict,
}
use tracegarden.Timeline.Decisions.{
  CorrelationDecision, confirm, reject, is_pending, refresh_correlation_suggestions, DecisionResult,
  find_suggestion, find_link, status_of, agrees, with_link, decide_pending, decide_found,
  decide_correlation_suggestion,
}
use tracegarden.Timeline.Found.{find-set_new, AreFiled, find-set, matches, find-refresh}

decided_not_pending :
    (decision : CorrelationDecision) (g : Suggestion)
    → g.status ≡ status_of decision
    → is_pending g ≡ false
decided_not_pending confirm g h = rw h refl
decided_not_pending reject g h = rw h refl

abbrev pub given : Str → Bool
given s = truthy (trim s)

find-passes :
    (p : Suggestion → Bool) (xs : List Suggestion) (g : Suggestion)
    → find p xs ≡ some g
    → p g ≡ true
find-passes p [] g h = absurd cc
find-passes p (x ∷ xs) g h = elim (Bool-cases (p x)) [
  | inl e ↦ rw (some_inj x g (rw e at h)) at e
  | inr e ↦ find-passes p xs g (rw e at h)
]

module _ (d : Dates) (workspace id : Str) where
  decide_given :
      (ids : ℕ → Str) (fresh now member_id : Str) (decision : CorrelationDecision) (s : Store)
      → given workspace ≡ true
      → given id ≡ true
      → given member_id ≡ true
      → let s' = refresh_correlation_suggestions d ids now workspace s in
        decide_correlation_suggestion d ids fresh now workspace id member_id decision s
        ≡ decide_found fresh now workspace member_id decision s'
            (find_suggestion workspace id s'.suggestions)
  unfolding decide_correlation_suggestion
  decide_given ids fresh now member_id decision s w i m = rw (w, i, m) refl

  -- What the first decision leaves behind.
  find-decided :
      (fresh now member_id : Str) (decision : CorrelationDecision) (s : Store) (g : Suggestion)
      → AreFiled workspace s.suggestions
      → find_suggestion workspace id s.suggestions ≡ some g
      → let r = decide_pending fresh now workspace member_id decision g s in
        (find_suggestion workspace id r.1.suggestions ≡ some r.0.suggestion)
        × (r.0.suggestion.status ≡ status_of decision)
  unfolding decide_pending
  find-decided fresh now member_id confirm s g f h =
      let t = find-passes (matches workspace id) (values s.suggestions) g h in
      (
        find-set (matches workspace id) workspace s.suggestions _ g _ f
            (ground (arith, t, ===_iff g.workspace_id workspace)) refl h t,
        refl,
      )
  find-decided fresh now member_id reject s g f h =
      let t = find-passes (matches workspace id) (values s.suggestions) g h in
      (
        find-set (matches workspace id) workspace s.suggestions _ g _ f
            (ground (arith, t, ===_iff g.workspace_id workspace)) refl h t,
        refl,
      )

  -- The link that a confirmation makes.
  abbrev pub link_of : Str → Str → Str → CorrelationDecision → Suggestion → Option ConfirmedLink
  link_of fresh now member_id reject g = none
  link_of fresh now member_id confirm g = some (record {
    id = fresh;
    workspace_id = workspace;
    suggestion_id = g.id;
    left_entry_id = g.left_entry_id;
    right_entry_id = g.right_entry_id;
    confirmed_by_member_id = member_id;
    confirmed_at = now;
  })

  -- The suggestion as decided: by whom, when and how, with the link of a confirmation.
  abbrev pub decided_of : Str → Str → Str → CorrelationDecision → Suggestion → Suggestion
  decided_of fresh now member_id confirm g = record g {
    status = confirmed;
    decided_at = some now;
    decided_by_member_id = some member_id;
    confirmed_link = link_of fresh now member_id confirm g;
  }
  decided_of fresh now member_id reject g = record g {
    status = rejected;
    decided_at = some now;
    decided_by_member_id = some member_id;
  }

  -- What a first decision answers, and what it leaves of links and suggestions.
  decide_pending_lem :
      (fresh now member_id : Str) (decision : CorrelationDecision) (s : Store) (g : Suggestion)
      → find_link g.id s.links ≡ none
      → let r = decide_pending fresh now workspace member_id decision g s in
        (r.0 ≡ record {
          suggestion = decided_of fresh now member_id decision g;
          confirmed_link = link_of fresh now member_id decision g;
          idempotent = false;
        })
        × (find_link g.id r.1.links ≡ link_of fresh now member_id decision g)
  unfolding decide_pending
  decide_pending_lem fresh now member_id confirm s g h =
      (refl, find-set_new (λ l. l.suggestion_id === g.id) s.links g.id _ h (===_refl g.id))
  decide_pending_lem fresh now member_id reject s g h = (refl, h)

  with_link-decided_of :
      (fresh now member_id : Str) (decision : CorrelationDecision) (g : Suggestion)
      → with_link
          (link_of fresh now member_id decision g)
          (decided_of fresh now member_id decision g)
        ≡ decided_of fresh now member_id decision g
  with_link-decided_of fresh now member_id confirm g = refl
  with_link-decided_of fresh now member_id reject g = refl

  decided_of-id :
      (fresh now member_id : Str) (decision : CorrelationDecision) (g : Suggestion)
      → (decided_of fresh now member_id decision g).id ≡ g.id
  decided_of-id fresh now member_id confirm g = refl
  decided_of-id fresh now member_id reject g = refl

  -- A second decision, in a store that holds the suggestion as decided: alike, it returns the suggestion
  -- and its link as they are; else it throws the conflict; the store stays.
  abbrev pub Repeats :
      CorrelationDecision
      → Suggestion
      → Option ConfirmedLink
      → Store
      → Result TimelineError (Option DecisionResult) × Store
      → Type 0
  Repeats decision decided link s r =
      (agrees decision decided.status ≡ true
        → r ≡ (
          ok (some (record { suggestion = decided; confirmed_link = link; idempotent = true })),
          s,
        ))
      × (agrees decision decided.status ≡ false → r ≡ (err (decision_conflict decided.status), s))

  decide_found-Repeats :
      (fresh now member_id : Str) (decision : CorrelationDecision) (s : Store) (g : Suggestion)
      (link : Option ConfirmedLink)
      → is_pending g ≡ false
      → find_link g.id s.links ≡ link
      → with_link link g ≡ g
      → Repeats decision g link s (decide_found fresh now workspace member_id decision s (some g))
  decide_found-Repeats fresh now member_id decision s g link p f w =
      rw (p, f, w) ((λ a. rw a refl), (λ a. rw a refl))

  refresh-links :
      (ids : ℕ → Str) (now : Str) (s : Store)
      → (refresh_correlation_suggestions d ids now workspace s).links ≡ s.links
  unfolding refresh_correlation_suggestions
  refresh-links ids now s = refl

  -- The first decision on a pending suggestion is final, if the workspace, the suggestion's id and both
  -- members' ids are not blank, each suggestion of the workspace stands once and under the key of its
  -- ends, no link of the suggestion is there yet, and none gets the same id later. The first call
  -- returns the suggestion as decided, by whom and when, with the link of a confirmation. A second call,
  -- by whichever member and after a new refresh, returns that same suggestion and link as decided again
  -- if it decides alike, else it throws the conflict; in neither case does it change more than the
  -- refresh does.
  pub decide_correlation_suggestion_final :
      (ids later_ids : ℕ → Str) (fresh later_fresh now later member_id second_member : Str)
      (decision second : CorrelationDecision) (s : Store) (g : Suggestion)
      → AreFiled workspace (refresh_correlation_suggestions d ids now workspace s).suggestions
      → find_suggestion workspace id
          (refresh_correlation_suggestions d ids now workspace s).suggestions
        ≡ some g
      → is_pending g ≡ true
      → find_link g.id s.links ≡ none
      → ((i : ℕ) → later_ids i === id ≡ false)
      → (given workspace ≡ true)
        × (given id ≡ true)
        × (given member_id ≡ true)
        × (given second_member ≡ true)
      → let first =
          decide_correlation_suggestion d ids fresh now workspace id member_id decision s in
        let decided = decided_of fresh now member_id decision g in
        let link = link_of fresh now member_id decision g in
        (first.0
          ≡ ok (some (record { suggestion = decided; confirmed_link = link; idempotent = false })))
        × Repeats second decided link
            (refresh_correlation_suggestions d later_ids later workspace first.1)
            (decide_correlation_suggestion d later_ids later_fresh later workspace id second_member
              second first.1)
  decide_correlation_suggestion_final ids later_ids fresh later_fresh now later member_id
        second_member decision second s g f h p nl n (w, i, m, m') =
      let s0 = refresh_correlation_suggestions d ids now workspace s in
      let (q, t) = find-decided fresh now member_id decision s0 g f h in
      let r = decide_pending fresh now workspace member_id decision g s0 in
      let decided = decided_of fresh now member_id decision g in
      let link = link_of fresh now member_id decision g in
      let (answer, linked) =
        decide_pending_lem fresh now member_id decision s0 g
          (ap (λ l. find_link g.id l) (refresh-links ids now s) ∙ nl) in
      let first : decide_correlation_suggestion d ids fresh now workspace id member_id decision s
          ≡ (ok (some r.0), r.1) =
        rw (decide_given ids fresh now member_id decision s w i m, h) (rw p refl) in
      let is : r.0.suggestion ≡ decided = ap (λ x. x.suggestion) answer in
      let pending : is_pending decided ≡ false =
        decided_not_pending decision decided (sym (ap (λ x. x.status) is) ∙ t) in
      let held : find_suggestion workspace id r.1.suggestions ≡ some decided =
        q ∙ ap (λ x. some x) is in
      let kept : find_link decided.id
            (refresh_correlation_suggestions d later_ids later workspace r.1).links
          ≡ link =
        ap (λ l. find_link decided.id l) (refresh-links later_ids later r.1)
        ∙ ap (λ x. find_link x r.1.links) (decided_of-id fresh now member_id decision g)
        ∙ linked in
      (
        ap (λ x. x.0) first ∙ ap (λ x. ok (some x)) answer,
        rw first (
            rw
              (
                decide_given later_ids later_fresh later second_member second r.1 w i m',
                find-refresh workspace id d later_ids later r.1 decided held pending n,
              )
              (decide_found-Repeats later_fresh later second_member second
                (refresh_correlation_suggestions d later_ids later workspace r.1) decided link
                pending kept (with_link-decided_of fresh now member_id decision g))),
      )
