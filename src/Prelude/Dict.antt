-- ===== src/Prelude/Dict.antt =====
-- Python's `dict` with text keys, in insertion order.
use Prim.Native.String.{String}
use mathlib.Core.Path.{◌≡◌, refl}
use mathlib.Core.Bool.{false}
use mathlib.Core.Option.{Option, none, some}
use mathlib.Core.List.{List, [], ◌∷◌}
use native.Mathlib.Omega.{arith}
use text.Mathlib.Text.{◌==◌}
use text.Mathlib.TextEquality.{eq_iff}
use secure_multi_tenant_saas.Prelude.Tests.{if◌then◌else◌}

abbrev pub Dict {ℓ} : Type ℓ → Type ℓ
Dict V = List (String × V)

module _ {ℓ} {V : Type ℓ} where
  -- `d.get(k)`
  unfoldable pub get : Dict V → String → Option V
  get [] k = none
  get ((j, v) ∷ d) k = if j == k then some v else get d k

  -- `d[k] = v`: in place, or at the end.
  unfoldable pub put : Dict V → String → V → Dict V
  put [] k v = (k, v) ∷ []
  put ((j, w) ∷ d) k v = if j == k then (j, v) ∷ d else (j, w) ∷ put d k v

  -- `d.pop(k, None)`
  unfoldable pub pop : Dict V → String → Dict V
  pop [] k = []
  pop ((j, w) ∷ d) k = if j == k then d else (j, w) ∷ pop d k

  -- `d.update(e)`
  unfoldable pub update : Dict V → Dict V → Dict V
  unfolding put
  update d [] = d
  update d ((k, v) ∷ e) = update (put d k v) e

  -- `list(d.values())`
  unfoldable pub values : Dict V → List V
  values [] = []
  values ((j, v) ∷ d) = v ∷ values d

  pub get-put :
      (d : Dict V) (k : String) (v : V) (j : String)
      → get (put d k v) j ≡ (if k == j then some v else get d j)
  unfolding get put
  get-put [] k v j = refl
  get-put ((i, w) ∷ d) k v j = ground (arith, eq_iff i k, eq_iff i j, eq_iff k j, get-put d k v j)

  -- No key stands twice: what a Python `dict` keeps by construction.
  abbrev pub HasUniqueKeys : Dict V → Type ℓ
  HasUniqueKeys [] = Unit
  HasUniqueKeys ((k, v) ∷ d) = (get d k ≡ none) × HasUniqueKeys d

  pub put-HasUniqueKeys :
      (d : Dict V) (k : String) (v : V) → HasUniqueKeys d → HasUniqueKeys (put d k v)
  unfolding get put
  put-HasUniqueKeys [] k v h = (refl, tt)
  put-HasUniqueKeys ((j, w) ∷ d) k v h =
      ground (arith, put-HasUniqueKeys d k v h.1, get-put d k v j, eq_iff j k, eq_iff k j)

  pub get-pop_ne : (d : Dict V) (k j : String) → (k == j) ≡ false → get (pop d k) j ≡ get d j
  unfolding get pop
  get-pop_ne [] k j h = refl
  get-pop_ne ((i, w) ∷ d) k j h =
      ground (arith, get-pop_ne d k j h, eq_iff i k, eq_iff i j, eq_iff k j)

  pub get-pop_self : (d : Dict V) (k : String) → HasUniqueKeys d → get (pop d k) k ≡ none
  unfolding get pop
  get-pop_self [] k h = refl
  get-pop_self ((i, w) ∷ d) k h = ground (arith, get-pop_self d k h.1, eq_iff i k)

  pub pop-HasUniqueKeys : (d : Dict V) (k : String) → HasUniqueKeys d → HasUniqueKeys (pop d k)
  unfolding get pop
  pop-HasUniqueKeys [] k h = tt
  pop-HasUniqueKeys ((j, w) ∷ d) k h =
      ground (arith, pop-HasUniqueKeys d k h.1, get-pop_ne d k j, eq_iff j k, eq_iff k j)
