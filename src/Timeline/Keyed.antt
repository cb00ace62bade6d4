-- ===== src/Timeline/Keyed.antt =====
-- Entries under their ids, and deletions of many keys.
use tracegarden.Prelude.{
  ◌≡◌, refl, inl, inr, Bool, false, Option, none, some, List, [], ◌∷◌, map, arith, if◌then◌else◌,
  Bool-cases, some_inj, any, filter, Str, ◌===◌, ===_iff,
}
use tracegarden.Prelude.Dict.{
  Dict, get, remove, values, KeysDistinct, get-remove, remove-KeysDistinct,
}
use tracegarden.Timeline.Records.{Entry}
use tracegarden.Timeline.Retention.{remove_all}

-- Each entry stands under its id, once.
abbrev pub Keyed : Dict Entry → Type 0
Keyed [] = Unit
Keyed ((k, e) ∷ m) = (e.id ≡ k) × (get k m ≡ none) × Keyed m

pub Keyed-KeysDistinct : (m : Dict Entry) → Keyed m → KeysDistinct m
Keyed-KeysDistinct [] h = tt
Keyed-KeysDistinct ((k, e) ∷ m) h = (h.1, Keyed-KeysDistinct m h.2)

pub Keyed-get : (k : Str) (m : Dict Entry) (e : Entry) → Keyed m → get k m ≡ some e → e.id ≡ k
unfolding get
Keyed-get k [] e h g = cc
Keyed-get k ((j, x) ∷ m) e h g = elim (Bool-cases (j === k)) [
  | inl t ↦ ground (arith, ===_iff j k, some_inj x e (rw t at g))
  | inr t ↦ Keyed-get k m e h.2 (rw t at g)
]

-- Whether the entry under a key passes a test.
abbrev pub passes : (Entry → Bool) → Option Entry → Bool
passes p none = false
passes p (some e) = p e

-- The ids of the entries that pass hold a key exactly if the entry under it passes.
pub any_id-filter :
    (p : Entry → Bool) (id : Str) (m : Dict Entry)
    → Keyed m
    → any (λ i. i === id) (map (λ e. e.id) (filter p (values m))) ≡ passes p (get id m)
unfolding get
any_id-filter p id [] h = refl
any_id-filter p id ((k, e) ∷ m) h =
    ground (arith, any_id-filter p id m h.2, ===_iff k id, ===_iff e.id id)

pub get-remove_all {ℓ} :
    {V : Type ℓ} (ks : List Str) (j : Str) (m : Dict V)
    → KeysDistinct m
    → get j (remove_all ks m) ≡ (if any (λ k. k === j) ks then none else get j m)
unfolding remove_all
get-remove_all [] j m h = refl
get-remove_all (k ∷ ks) j m h =
    ground (arith, get-remove k j m h, get-remove_all ks j (remove k m) (remove-KeysDistinct k m h))

get-remove-none : (k j : Str) (m : Dict Entry) → get j m ≡ none → get j (remove k m) ≡ none
unfolding get remove
get-remove-none k j [] h = refl
get-remove-none k j ((i, w) ∷ m) h = ground (arith, get-remove-none k j m)

remove-Keyed : (k : Str) (m : Dict Entry) → Keyed m → Keyed (remove k m)
unfolding remove
remove-Keyed k [] h = tt
remove-Keyed k ((j, w) ∷ m) h = elim (Bool-cases (j === k)) [
  | inl t ↦ rw t h.2
  | inr t ↦ rw t (h.0, get-remove-none k j m h.1, remove-Keyed k m h.2)
]

pub remove_all-Keyed : (ks : List Str) (m : Dict Entry) → Keyed m → Keyed (remove_all ks m)
unfolding remove_all
remove_all-Keyed [] m h = h
remove_all-Keyed (k ∷ ks) m h = remove_all-Keyed ks (remove k m) (remove-Keyed k m h)
