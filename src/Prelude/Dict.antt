-- ===== src/Prelude/Dict.antt =====
-- Python's `dict` with texts as keys, in insertion order, as an association list.
use mathlib.Core.List.{List, [], ◌∷◌}
use mathlib.Core.Option.{Option, none, some}
use mathlib.Core.Path.{◌≡◌, refl}
use Prim.Native.String.{String}
use native.Mathlib.Omega.{arith}
use text.Mathlib.Text.{◌==◌ as str_eq}
use text.Mathlib.TextEquality.{eq_iff}
use mathlib.Core.Logic.{inl, inr}
use mathlib.Core.Bool.{Bool, true}
use vishwakarma.Prelude.Lists.{all}
use vishwakarma.Prelude.Tests.{if◌then◌else◌, Bool-cases}

abbrev pub Dict {ℓ} : Type ℓ → Type ℓ
Dict V = List (String × V)

module _ {ℓ} {V : Type ℓ} where
  -- d.get(k)
  unfoldable pub get : String → Dict V → Option V
  get k [] = none
  get k ((j, v) ∷ d) = if str_eq j k then some v else get k d

  -- d[k] = v
  unfoldable pub put : String → V → Dict V → Dict V
  put k v [] = (k, v) ∷ []
  put k v ((j, w) ∷ d) = if str_eq j k then (k, v) ∷ d else (j, w) ∷ put k v d

  -- d.pop(k, None): every entry of the key goes, of which there is at most one
  unfoldable pub pop : String → Dict V → Dict V
  pop k [] = []
  pop k ((j, w) ∷ d) = let rest = pop k d in if str_eq j k then rest else (j, w) ∷ rest

  pub get-put :
      (k j : String) (v : V) (d : Dict V)
      → get j (put k v d) ≡ (if str_eq k j then some v else get j d)
  unfolding get put
  get-put k j v [] = refl
  get-put k j v ((i, w) ∷ d) = ground (arith, eq_iff k j, eq_iff i k, eq_iff i j, get-put k j v d)

  pub get-pop :
      (k j : String) (d : Dict V) → get j (pop k d) ≡ (if str_eq k j then none else get j d)
  unfolding get pop
  get-pop k j [] = ground arith
  get-pop k j ((i, w) ∷ d) = ground (arith, eq_iff k j, eq_iff i k, eq_iff i j, get-pop k j d)

  pub get-empty : (k : String) → get k [] ≡ none
  unfolding get
  get-empty k = refl

pub ruleset dict_laws = (get-empty, get-put, get-pop)

-- No key stands twice, as in every dict.
abbrev pub Unique {ℓ} : {V : Type ℓ} → Dict V → Type ℓ
Unique [] = Unit
Unique ((k, v) ∷ d) = (get k d ≡ none) × Unique d

module _ {ℓ} {V : Type ℓ} where
  pub put-Unique : (k : String) (v : V) (d : Dict V) → Unique d → Unique (put k v d)
  unfolding get put
  put-Unique k v [] u = (refl, tt)
  put-Unique k v ((j, w) ∷ d) u =
      let step = get-put k j v d in
      elim (Bool-cases (str_eq j k)) [
        | inl same ↦ rw same (rw (← (eq_iff j k).0 same) u)
        | inr other ↦ rw other (ground (arith, eq_iff k j, eq_iff j k, step), put-Unique k v d u.1)
      ]

-- a test that all values of a dict pass
module _ {V : Type 0} (p : V → Bool) where
  pub all-put :
      (k : String) (v : V) (d : Dict V)
      → p v ≡ true
      → all (λ r. p r.1) d ≡ true
      → all (λ r. p r.1) (put k v d) ≡ true
  unfolding put
  all-put k v [] h a = ground arith
  all-put k v ((j, w) ∷ d) h a = ground (arith, all-put k v d)

  pub all-get :
      (k : String) (v : V) (d : Dict V) → all (λ r. p r.1) d ≡ true → get k d ≡ some v → p v ≡ true
  unfolding get
  all-get k v [] a e = ground arith
  all-get k v ((j, w) ∷ d) a e = ground (arith, all-get k v d)

  pub all-pop :
      (k : String) (d : Dict V) → all (λ r. p r.1) d ≡ true → all (λ r. p r.1) (pop k d) ≡ true
  unfolding pop
  all-pop k [] a = a
  all-pop k ((j, w) ∷ d) a = ground (arith, all-pop k d)
