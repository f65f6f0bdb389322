-- ===== src/Prelude/Dict.antt =====
-- Python's dict and OrderedDict: entries in insertion order, an assignment to a present key keeps
-- the key's place.
use cywl_oopz.Prelude.Tests.{if◌then◌else◌, Bool-cases}
use cywl_oopz.Prelude.Equality.{Eq, ◌==◌}
use cywl_oopz.Prelude.Lists.{length, All}
use Prim.Native.Nat.{suc, ◌≤◌}
use mathlib.Core.Path.{◌≡◌, refl, subst}
use mathlib.Core.Logic.{inl, inr}
use mathlib.Core.Option.{Option, none, some}
use mathlib.Core.List.{List, [], ◌∷◌}
use native.Mathlib.Omega.{arith}

abbrev pub Dict {ℓ κ} : Type ℓ → Type κ → Type (ℓ ⊔ κ)
Dict K V = List (K × V)

module _ {ℓ κ} {K : Type ℓ} {V : Type κ} ⦃e : Eq K⦄ where
  -- d.get(k)
  unfoldable pub get : Dict K V → K → Option V
  get [] k = none
  get ((j, v) ∷ d) k = if j == k then some v else get d k

  -- d[k] = v
  unfoldable pub put : Dict K V → K → V → Dict K V
  put [] k v = (k, v) ∷ []
  put ((j, w) ∷ d) k v = if j == k then (j, v) ∷ d else (j, w) ∷ put d k v

  -- d.pop(k, None)
  unfoldable pub pop : Dict K V → K → Dict K V
  pop [] k = []
  pop ((j, w) ∷ d) k = if j == k then pop d k else (j, w) ∷ pop d k

  pub get-put :
      (d : Dict K V) (k j : K) (v : V) → get (put d k v) j ≡ (if k == j then some v else get d j)
  unfolding get put
  get-put [] k j v = refl
  get-put ((i, w) ∷ d) k j v =
      ground (arith, get-put d k j v, e.beq_iff i k, e.beq_iff i j, e.beq_iff k j)

  pub get-pop : (d : Dict K V) (k j : K) → get (pop d k) j ≡ (if k == j then none else get d j)
  unfolding get pop
  get-pop [] k j = ground arith
  get-pop ((i, w) ∷ d) k j =
      ground (arith, get-pop d k j, e.beq_iff i k, e.beq_iff i j, e.beq_iff k j)

  pub length-put : (d : Dict K V) (k : K) (v : V) → length (put d k v) ≤ suc (length d)
  unfolding put
  length-put [] k v = omega arith
  length-put ((i, w) ∷ d) k v = ground (arith, length-put d k v)

  -- What holds of every value.
  abbrev pub Values {μ} : (V → Type μ) → Dict K V → Type μ
  Values Q = All (λ (entry : K × V). Q entry.1)

  pub put-Values {μ} :
      (Q : V → Type μ) (d : Dict K V) (k : K) (v : V) → Values Q d → Q v → Values Q (put d k v)
  unfolding put
  put-Values Q [] k v h q = (q, tt)
  put-Values Q ((j, w) ∷ d) k v h q = elim (Bool-cases (j == k)) [
    | inl same ↦ rw same (q, h.1)
    | inr other ↦ rw other (h.0, put-Values Q d k v h.1 q)
  ]

  pub pop-Values {μ} : (Q : V → Type μ) (d : Dict K V) (k : K) → Values Q d → Values Q (pop d k)
  unfolding pop
  pop-Values Q [] k h = tt
  pop-Values Q ((j, w) ∷ d) k h = elim (Bool-cases (j == k)) [
    | inl same ↦ rw same (pop-Values Q d k h.1)
    | inr other ↦ rw other (h.0, pop-Values Q d k h.1)
  ]

  pub get-Values {μ} :
      (Q : V → Type μ) (d : Dict K V) (k : K) {v : V} → Values Q d → get d k ≡ some v → Q v
  unfolding get
  get-Values Q [] k h e = absurd (ground (arith))
  get-Values Q ((j, w) ∷ d) k {v} h e = elim (Bool-cases (j == k)) [
    | inl same ↦ let same_value : w ≡ v = ground arith in subst Q same_value h.0
    | inr other ↦ get-Values Q d k h.1 (rw other at e)
  ]

  pub ruleset laws = (get-put, get-pop)
