-- ===== src/Domain/Correlation/Symmetry.antt =====
-- The signals between two entries do not depend on their order.
use tracegarden.Prelude.{
  ℕ, ◌≡◌, refl, sym, ap, ◌∙◌, inl, inr, Bool, true, false, not, ◌&&◌, ◌||◌, Option, none, some,
  List, [], ◌∷◌, ◌++◌, arith, Bool-cases, Option-cases, some_inj, any, Str, ◌===◌, ===_iff,
  ===_refl,
}
use tracegarden.Prelude.Dict.{Dict, get, KeysDistinct}
use tracegarden.Prelude.Value.{no_duplicates}
use tracegarden.Domain.Experiment.{ExperimentWorkload}
use tracegarden.Domain.Correlation.{
  experiment_revision, observed_revision, given, label_of, revision_signal, label_signal,
  ownership_signal, time_signal, CorrelationEntry, correlation_signals_between, has_label, Dates,
  shares_label, CorrelationObservation, CorrelationExperiment, ownership_of, share_workload,
  same_workload, within_window,
}

===_comm : (a b : Str) → (a === b) ≡ (b === a)
===_comm a b = ground (arith, ===_iff a b, ===_iff b a)

same_workload_comm : (v w : ExperimentWorkload) → same_workload v w ≡ same_workload w v
same_workload_comm v w = rw (
  ===_comm v.cluster_id w.cluster_id,
  ===_comm v.namespace w.namespace,
  ===_comm v.kind w.kind,
  ===_comm v.name w.name,
)

any-or :
    {A : Type 0} (p q : A → Bool) (xs : List A) → any (λ x. p x || q x) xs ≡ (any p xs || any q xs)
any-or p q [] = refl
any-or p q (x ∷ xs) = ground (arith, any-or p q xs)

any-false : {A : Type 0} (xs : List A) → any (λ x. false) xs ≡ false
any-false [] = refl
any-false (x ∷ xs) = any-false xs

-- Two nested searches may be exchanged.
any_swap :
    {A : Type 0} (p : A → A → Bool) (xs ys : List A)
    → any (λ x. any (λ y. p x y) ys) xs ≡ any (λ y. any (λ x. p x y) xs) ys
any_swap p [] ys = sym (any-false ys)
any_swap p (x ∷ xs) ys = rw (any-or (p x) (λ y. any (λ z. p z y) xs) ys, ← any_swap p xs ys)

share_workload_comm : (a b : CorrelationExperiment) → share_workload a b ≡ share_workload b a
share_workload_comm a b =
    any_swap same_workload a.workloads b.workloads
    ∙ ap
        (λ (p : ExperimentWorkload → ExperimentWorkload → Bool).
          any (λ y. any (λ x. p y x) a.workloads) b.workloads)
        (λ i y x. same_workload_comm x y i)

ownership_of_comm :
    (lo ro : Option CorrelationObservation) (le re : Option CorrelationExperiment)
    → ownership_of lo ro le re ≡ ownership_of ro lo re le
ownership_of_comm (some lo) (some ro) le re = ground (arith, ===_comm lo.cluster_id ro.cluster_id)
ownership_of_comm none (some ro) (some le) re = refl
ownership_of_comm (some lo) none le (some re) = refl
ownership_of_comm none none (some le) (some re) = share_workload_comm le re
ownership_of_comm (some lo) none le none = refl
ownership_of_comm none (some ro) none re = refl
ownership_of_comm none none none none = refl
ownership_of_comm none none none (some re) = refl
ownership_of_comm none none (some le) none = refl

within_window_comm : (a b : Option ℕ) → within_window a b ≡ within_window b a
within_window_comm a b = ground arith

eq_of_implications : (a b : Bool) → (a ≡ true → b ≡ true) → (b ≡ true → a ≡ true) → a ≡ b
eq_of_implications true b f g = sym (f refl)
eq_of_implications false true f g = g refl
eq_of_implications false false f g = refl

-- A label that both observations have.
shared-get :
    (l r : Dict Str)
    → KeysDistinct l
    → shares_label l r ≡ true
    → (k : Str) × (v : Str) × (get k l ≡ some v) × (get k r ≡ some v)
unfolding get
shared-get [] r d h = cc
shared-get ((k, v) ∷ l) r d h = elim (Bool-cases (has_label r (k, v))) [
  | inl t ↦ (k, v, rw (===_refl k), has_label-get r k v t)
  | inr t ↦
      let (j, w, p, q) = shared-get l r d.1 (rw t at h) in
      (j, w, ground (arith, p, d.0, ===_iff k j), q)
]
  where
    has_label-get : (m : Dict Str) (j w : Str) → has_label m (j, w) ≡ true → get j m ≡ some w
    has_label-get m j w t = elim (Option-cases (get j m)) [
      | inl n ↦ cc (rw n at t)
      | inr (u, n) ↦ n ∙ ap {B = Option Str} some ((===_iff u w).0 (rw n at t))
    ]

get-shares_label :
    (l r : Dict Str) (k v : Str) → get k l ≡ some v → get k r ≡ some v → shares_label r l ≡ true
unfolding get
get-shares_label l [] k v p q = cc
get-shares_label l ((j, w) ∷ r) k v p q = elim (Bool-cases (j === k)) [
  | inl t ↦ ground (
    arith,
    p,
    some_inj w v (rw t at q),
    (===_iff j k).0 t,
    ===_refl v,
    ap (λ (x : Str). get x l) ((===_iff j k).0 t),
  )
  | inr t ↦ ground (arith, get-shares_label l r k v p (rw t at q))
]

label_comm :
    (l r : Dict Str) → KeysDistinct l → KeysDistinct r → shares_label l r ≡ shares_label r l
label_comm l r dl dr =
    eq_of_implications _ _
      (λ h. let (k, v, p, q) = shared-get l r dl h in get-shares_label l r k v p q)
      (λ h. let (k, v, p, q) = shared-get r l dr h in get-shares_label r l k v p q)

disjoint : List Str → List Str → Bool
disjoint xs ys = not (any (λ x. any (λ y. x === y) ys) xs)

disjoint_comm : (xs ys : List Str) → disjoint xs ys ≡ disjoint ys xs
unfolding disjoint
disjoint_comm xs ys =
    ap not (any_swap ◌===◌ xs ys)
    ∙ ap (λ (p : Str → Str → Bool). not (any (λ y. any (λ x. p y x) xs) ys))
        (λ i y x. ===_comm x y i)

any-append : (p : Str → Bool) (xs ys : List Str) → any p (xs ++ ys) ≡ (any p xs || any p ys)
any-append p [] ys = refl
any-append p (x ∷ xs) ys = ground (arith, any-append p xs ys)

no_duplicates-append :
    (xs ys : List Str)
    → no_duplicates (xs ++ ys) ≡ (no_duplicates xs && no_duplicates ys && disjoint xs ys)
unfolding no_duplicates disjoint
no_duplicates-append [] ys = ground arith
no_duplicates-append (x ∷ xs) ys =
    ground (arith, no_duplicates-append xs ys, any-append (λ y. x === y) xs ys)

disjoint-append :
    (xs ys zs : List Str) → disjoint xs (ys ++ zs) ≡ (disjoint xs ys && disjoint xs zs)
unfolding disjoint
disjoint-append [] ys zs = refl
disjoint-append (x ∷ xs) ys zs =
    ground (arith, disjoint-append xs ys zs, any-append (λ y. x === y) ys zs)

no_duplicates_exchange :
    (a b c d : List Str)
    → no_duplicates (a ++ (b ++ (c ++ d))) ≡ no_duplicates (b ++ (a ++ (d ++ c)))
no_duplicates_exchange a b c d =
    simp (no_duplicates-append, disjoint-append)
      (ground (arith, disjoint_comm a b, disjoint_comm c d))

-- What the code takes of an object of labels: its keys are distinct.
abbrev pub AreLabels : Option CorrelationObservation → Type 0
AreLabels none = Unit
AreLabels (some o) = KeysDistinct o.labels

abbrev pub HasLabels : CorrelationEntry → Type 0
HasLabels e = AreLabels e.observation

ownership_signal_comm : (l r : CorrelationEntry) → ownership_signal l r ≡ ownership_signal r l
unfolding ownership_signal
ownership_signal_comm l r = ownership_of_comm l.observation r.observation l.experiment r.experiment

label_of_comm :
    (lo ro : Option CorrelationObservation)
    → AreLabels lo
    → AreLabels ro
    → label_of lo ro ≡ label_of ro lo
label_of_comm (some lo) (some ro) hl hr = label_comm lo.labels ro.labels hl hr
label_of_comm none (some ro) hl hr = refl
label_of_comm (some lo) none hl hr = refl
label_of_comm none none hl hr = refl

label_signal_comm :
    (l r : CorrelationEntry) → HasLabels l → HasLabels r → label_signal l r ≡ label_signal r l
unfolding label_signal
label_signal_comm l r hl hr = label_of_comm l.observation r.observation hl hr

revision_signal_comm : (l r : CorrelationEntry) → revision_signal l r ≡ revision_signal r l
unfolding revision_signal
revision_signal_comm l r = ap not (
    no_duplicates_exchange (given (observed_revision l)) (given (observed_revision r))
      (given (experiment_revision l)) (given (experiment_revision r)))

module _ (d : Dates) where
  time_signal_comm : (l r : CorrelationEntry) → time_signal d l r ≡ time_signal d r l
  unfolding time_signal
  time_signal_comm l r = within_window_comm (d.parse l.occurred_at) (d.parse r.occurred_at)

  -- Two entries have the same signals in either order, if no label of an entry stands twice.
  pub correlation_signals_between_comm :
      (l r : CorrelationEntry)
      → HasLabels l
      → HasLabels r
      → correlation_signals_between d l r ≡ correlation_signals_between d r l
  unfolding correlation_signals_between
  correlation_signals_between_comm l r hl hr = rw (
    ===_comm l.id r.id,
    ===_comm l.workspace_id r.workspace_id,
    time_signal_comm l r,
    ownership_signal_comm l r,
    label_signal_comm l r hl hr,
    revision_signal_comm l r,
  )
