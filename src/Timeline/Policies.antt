-- ===== src/Timeline/Policies.antt =====
-- The retention policy of a workspace.
use tracegarden.Prelude.{
  ℕ, ◌≤◌, ◌≡◌, refl, sym, ◌∙◌, inl, inr, true, false, some, Bool-cases, Str, ◌===◌, ===_refl, trim,
  truthy,
}
use tracegarden.Prelude.Dates.{Dates}
use tracegarden.Prelude.Dict.{get, set, get-set}
use tracegarden.Prelude.Value.{Value}
use tracegarden.Prelude.Result.{ok_inj, ok, Result-cases}
use tracegarden.Domain.Retention.{
  parse_retention_days, parse_retention_days-bounds, min_retention_days, max_retention_days,
}
use tracegarden.Timeline.Records.{Store, RetentionPolicy}
use tracegarden.Timeline.Retention.{get_retention_policy, update_retention_policy}

module _ (d : Dates) where
  stored :
      (later : ℕ) (workspace : Str) (s : Store) (p : RetentionPolicy)
      → truthy (trim workspace) ≡ true
      → let s' : Store = record s { policies = set workspace p s.policies } in
        get_retention_policy d later workspace s' ≡ (ok p, s')
  unfolding get_retention_policy
  stored later workspace s p w =
      let found : get workspace (set workspace p s.policies) ≡ some p =
        get-set workspace workspace p s.policies ∙ rw (===_refl workspace) refl in
      rw (w, get_retention_policy, found) refl

  updated :
      (now : ℕ) (workspace : Str) (days : Value) (s : Store) (p : RetentionPolicy)
      → (update_retention_policy d now workspace days s).0 ≡ ok p
      → (truthy (trim workspace) ≡ true)
        × (update_retention_policy d now workspace days s
            ≡ (ok p, record s { policies = set workspace p s.policies }))
        × (min_retention_days ≤ p.retention_days)
        × (p.retention_days ≤ max_retention_days)
  unfolding update_retention_policy
  updated now workspace days s p h = elim (Bool-cases (truthy (trim workspace))) [
    | inr w ↦ absurd cc (rw w at h)
    | inl w ↦ elim (Result-cases (parse_retention_days days)) [
      | inl (e, q) ↦ absurd cc (rw (w, update_retention_policy, q) at h)
      | inr (n, q) ↦
          let bounds = parse_retention_days-bounds days n q in
          let same = ok_inj _ p (rw (w, update_retention_policy, q) at h) in
          (
            w,
            rw (w, update_retention_policy, q) (rw same refl),
            rw (sym same) bounds.0,
            rw (sym same) bounds.1,
          )
    ]
  ]

  -- A policy that an update accepts is in range, is the answer to a later request for the workspace's
  -- policy, which changes nothing, and no other workspace's policy changes.
  pub get_retention_policy-update_retention_policy :
      (now later : ℕ) (workspace : Str) (days : Value) (s : Store) (p : RetentionPolicy)
      → (update_retention_policy d now workspace days s).0 ≡ ok p
      → let s' = (update_retention_policy d now workspace days s).1 in
        (get_retention_policy d later workspace s' ≡ (ok p, s'))
        × (min_retention_days ≤ p.retention_days)
        × (p.retention_days ≤ max_retention_days)
        × ((other : Str)
            → workspace === other ≡ false
            → get other s'.policies ≡ get other s.policies)
  get_retention_policy-update_retention_policy now later workspace days s p h =
      let (w, u, low, high) = updated now workspace days s p h in
      rw u (
        stored later workspace s p w,
        low,
        high,
        λ other n. get-set workspace other p s.policies ∙ rw n refl,
      )
