-- ===== src/Timeline/Cleanup.antt =====
-- What a retention cleanup deletes and keeps.
use tracegarden.Prelude.{
  ℕ, ◌*◌, ◌≡◌, refl, ◌∙◌, inl, inr, Bool, true, false, not, ◌&&◌, Option, none, some, List, [], ◌∷◌,
  arith, ltb, if◌then◌else◌, Bool-cases, Option-cases, filter, Str,
}
use tracegarden.Prelude.Dates.{Dates}
use tracegarden.Prelude.Dict.{get, values}
use tracegarden.Timeline.Records.{Entry, Store}
use tracegarden.Timeline.Retention.{
  day, cleanup_with, cleanup_retention, get_retention_policy, is_protected, is_candidate,
  is_eligible, cleanup_before, delete_entries,
}
use tracegarden.Prelude.Result.{Result-cases}
use tracegarden.Timeline.Keyed.{
  remove_all-Keyed, Keyed, passes, any_id-filter, get-remove_all, Keyed-KeysDistinct, Keyed-get,
}

filter-filter :
    (p q : Entry → Bool) (xs : List Entry) → filter q (filter p xs) ≡ filter (λ e. p e && q e) xs
filter-filter p q [] = refl
filter-filter p q (x ∷ xs) = ground (arith, filter-filter p q xs)

module _ (d : Dates) where
  pub eligible_entries :
      (workspace : Str) (cutoff : ℕ) (s : Store)
      → filter
          (λ e. not (is_protected s e.id))
          (filter (is_candidate d workspace cutoff) (values s.entries))
        ≡ filter (is_eligible d workspace cutoff s) (values s.entries)
  eligible_entries workspace cutoff s = filter-filter _ _ (values s.entries)

  pub cleanup_before-entries :
      (workspace : Str) (days cutoff : ℕ) (s : Store) (id : Str)
      → Keyed s.entries
      → get id (cleanup_before d workspace days cutoff s).1.entries ≡ (
          if passes (is_eligible d workspace cutoff s) (get id s.entries)
          then none
          else get id s.entries)
  unfolding cleanup_before delete_entries
  cleanup_before-entries workspace days cutoff s id h =
      rw
        (
          get-remove_all _ id s.entries (Keyed-KeysDistinct s.entries h),
          eligible_entries workspace cutoff s,
          any_id-filter _ id s.entries h,
        )
        refl

  get_retention_policy-entries :
      (now : ℕ) (workspace : Str) (s : Store)
      → let s' = (get_retention_policy d now workspace s).1 in
        (s'.entries ≡ s.entries) × (s'.links ≡ s.links)
  unfolding get_retention_policy
  get_retention_policy-entries now workspace s = ground arith

  cleanup_with-keeps_protected :
      (workspace : Str) (at : Option ℕ) (days : ℕ) (s : Store) (id : Str)
      → Keyed s.entries
      → is_protected s id ≡ true
      → get id (cleanup_with d workspace at days s).1.entries ≡ get id s.entries
  unfolding cleanup_with
  cleanup_with-keeps_protected workspace none days s id h p = refl
  cleanup_with-keeps_protected workspace (some t) days s id h p =
      elim (Bool-cases (ltb t (days * day))) [
        | inl e ↦ rw e refl
        | inr e ↦
            rw (e, cleanup_before-entries workspace days _ s id h)
              (elim (Option-cases (get id s.entries)) [
                | inl g ↦ rw g refl
                | inr (x, g) ↦ rw (g, Keyed-get id s.entries x h g, p) (ground arith)
              ])
      ]

  pub cleanup_before-Keyed :
      (workspace : Str) (days cutoff : ℕ) (s : Store)
      → Keyed s.entries
      → Keyed (cleanup_before d workspace days cutoff s).1.entries
  unfolding cleanup_before delete_entries
  cleanup_before-Keyed workspace days cutoff s h = remove_all-Keyed _ s.entries h

  -- Whatever the outcome of a cleanup, an entry at the end of a confirmed link is as it was, if each
  -- entry stands once under its id.
  pub cleanup_retention-keeps_protected :
      (now : ℕ) (workspace : Str) (at : Option ℕ) (s : Store) (id : Str)
      → Keyed s.entries
      → is_protected s id ≡ true
      → get id (cleanup_retention d now workspace at s).1.entries ≡ get id s.entries
  unfolding cleanup_retention is_protected
  cleanup_retention-keeps_protected now workspace at s id h p =
      let s' = (get_retention_policy d now workspace s).1 in
      let (e, l) = get_retention_policy-entries now workspace s in
      elim (Result-cases (get_retention_policy d now workspace s).0) [
        | inl (x, r) ↦ rw (r, cleanup_retention) (rw e refl)
        | inr (y, r) ↦
            rw (r, cleanup_retention)
              (rw
                (cleanup_with-keeps_protected workspace at y.retention_days s' id (rw e h) (rw l p))
                (rw e refl))
      ]

  again : (p : Entry → Bool) (o : Option Entry) → passes p (if passes p o then none else o) ≡ false
  again p none = refl
  again p (some e) = ground arith

  -- A second cleanup with the same cutoff leaves every entry as the first one left it, if each entry
  -- stands once under its id.
  pub cleanup_before_again :
      (workspace : Str) (days cutoff : ℕ) (s : Store) (id : Str)
      → Keyed s.entries
      → let s' = (cleanup_before d workspace days cutoff s).1 in
        get id (cleanup_before d workspace days cutoff s').1.entries ≡ get id s'.entries
  unfolding cleanup_before delete_entries is_protected
  cleanup_before_again workspace days cutoff s id h =
      let s' = (cleanup_before d workspace days cutoff s).1 in
      let same : passes (is_eligible d workspace cutoff s') (get id s'.entries) ≡ false =
        rw (cleanup_before-entries workspace days cutoff s id h)
          (again (is_eligible d workspace cutoff s) (get id s.entries)) in
      cleanup_before-entries workspace days cutoff s' id
        (cleanup_before-Keyed workspace days cutoff s h)
      ∙ rw same refl
