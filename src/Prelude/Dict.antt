-- ===== src/Prelude/Dict.antt =====
-- A JavaScript `Map` with string keys: its entries in the order of their insertion. Writing a key
-- that is there keeps its place.
use mathlib.Core.Path.{◌≡◌, refl, subst}
use mathlib.Core.Logic.{inl, inr}
use mathlib.Core.Option.{Option, none, some}
use mathlib.Core.List.{List, [], ◌∷◌}
use native.Mathlib.Omega.{arith}
use tracegarden.Prelude.Tests.{if◌then◌else◌, Bool-cases, some_inj}
use tracegarden.Prelude.Lists.{All, any}
use mathlib.Core.Bool.{Bool, true, false, ◌||◌}
use tracegarden.Prelude.Text.{Str, ◌===◌, ===_iff}

abbrev pub Dict {ℓ} : Type ℓ → Type ℓ
Dict V = List (Str × V)

module _ {ℓ} {V : Type ℓ} where
  unfoldable pub get : Str → Dict V → Option V
  get k [] = none
  get k ((j, v) ∷ m) = let rest = get k m in if j === k then some v else rest

  unfoldable pub set : Str → V → Dict V → Dict V
  set k v [] = (k, v) ∷ []
  set k v ((j, w) ∷ m) = let rest = set k v m in if j === k then (j, v) ∷ m else (j, w) ∷ rest

  -- `m.delete(k)`.
  unfoldable pub remove : Str → Dict V → Dict V
  remove k [] = []
  remove k ((j, v) ∷ m) = let rest = remove k m in if j === k then m else (j, v) ∷ rest

  abbrev pub values : Dict V → List V
  values [] = []
  values ((k, v) ∷ m) = v ∷ values m

module _ {ℓ} {V : Type ℓ} where
  pub get-set :
      (k j : Str) (v : V) (m : Dict V) → get j (set k v m) ≡ (if k === j then some v else get j m)
  unfolding get set
  get-set k j v [] = refl
  get-set k j v ((i, w) ∷ m) =
      ground (arith, ===_iff k j, ===_iff i k, ===_iff i j, get-set k j v m)

module _ {ℓ κ} {V : Type ℓ} (P : V → Type κ) where
  pub All-set : (k : Str) (v : V) (m : Dict V) → P v → All P (values m) → All P (values (set k v m))
  unfolding set
  All-set k v [] p h = (p, tt)
  All-set k v ((j, w) ∷ m) p h = ground (arith, All-set k v m p h.1)

  pub All-remove : (k : Str) (m : Dict V) → All P (values m) → All P (values (remove k m))
  unfolding remove
  All-remove k [] h = tt
  All-remove k ((j, w) ∷ m) h = ground (arith, All-remove k m h.1)

  pub All-get : (k : Str) (m : Dict V) (v : V) → All P (values m) → get k m ≡ some v → P v
  unfolding get
  All-get k [] v h e = cc
  All-get k ((j, w) ∷ m) v h e = elim (Bool-cases (j === k)) [
    | inl t ↦ subst P (some_inj _ _ (rw t at e)) h.0
    | inr t ↦ All-get k m v h.1 (rw t at e)
  ]

-- No key stands twice, as in every `Map`.
module _ {ℓ} {V : Type ℓ} where
  abbrev pub KeysDistinct : Dict V → Type ℓ
  KeysDistinct [] = Unit
  KeysDistinct ((k, v) ∷ m) = (get k m ≡ none) × KeysDistinct m

module _ {ℓ} {V : Type ℓ} where
  pub set-KeysDistinct : (k : Str) (v : V) (m : Dict V) → KeysDistinct m → KeysDistinct (set k v m)
  unfolding set get
  set-KeysDistinct k v [] h = (refl, tt)
  set-KeysDistinct k v ((j, w) ∷ m) h = elim (Bool-cases (j === k)) [
    | inl e ↦ rw e h
    | inr e ↦
        rw e
          (rw get-set (ground (arith, h.0, ===_iff k j, ===_iff j k)), set-KeysDistinct k v m h.1)
  ]

  pub get-remove :
      (k j : Str) (m : Dict V)
      → KeysDistinct m
      → get j (remove k m) ≡ (if k === j then none else get j m)
  unfolding get remove
  get-remove k j [] h = ground arith
  get-remove k j ((i, w) ∷ m) h =
      ground (arith, ===_iff k j, ===_iff i k, ===_iff i j, get-remove k j m h.1)

  -- What a key maps to after `remove` is what it mapped to before, or nothing.
  get-remove-none : (k j : Str) (m : Dict V) → get j m ≡ none → get j (remove k m) ≡ none
  unfolding get remove
  get-remove-none k j [] h = refl
  get-remove-none k j ((i, w) ∷ m) h = ground (arith, get-remove-none k j m)

  pub remove-KeysDistinct : (k : Str) (m : Dict V) → KeysDistinct m → KeysDistinct (remove k m)
  unfolding remove
  remove-KeysDistinct k [] h = tt
  remove-KeysDistinct k ((j, w) ∷ m) h =
      ground (arith, get-remove-none k j m, remove-KeysDistinct k m h.1)

module _ {ℓ} {V : Type ℓ} (p : V → Bool) where
  -- A value that passes a test is still there when the value of another key is written.
  pub any-set :
      (k : Str) (v : V) (m : Dict V) {w : V}
      → get k m ≡ some w
      → p w ≡ false
      → any p (values m) ≡ true
      → any p (values (set k v m)) ≡ true
  unfolding get set
  any-set k v [] g f h = cc
  any-set k v ((j, u) ∷ m) {w} g f h = ground (arith, any-set k v m {w = w})

  pub any-set_new :
      (k : Str) (v : V) (m : Dict V)
      → get k m ≡ none
      → any p (values (set k v m)) ≡ (any p (values m) || p v)
  unfolding get set
  any-set_new k v [] g = ground arith
  any-set_new k v ((j, u) ∷ m) g = ground (arith, any-set_new k v m)

  -- The value that is written passes.
  pub any-set_self : (k : Str) (v : V) (m : Dict V) → p v ≡ true → any p (values (set k v m)) ≡ true
  unfolding set
  any-set_self k v [] h = ground arith
  any-set_self k v ((j, u) ∷ m) h = ground (arith, any-set_self k v m h)
