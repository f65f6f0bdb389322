-- ===== src/Delegation/Held.antt =====
-- The rows that a choice among rows can give.
use cywl_oopz.Prelude.{
  ℕ, ◌≡◌, refl, sym, ap, ◌∙◌, inl, inr, ◌⊎◌, Bool, true, false, [], ◌∷◌, ◌++◌, some, map, take,
  arith, any, count, keep, nat_beq, nat_beq_iff, leb, All, Bool-cases, ok, raise_if, ◌>>◌, nat_eq,
  list_eq, zero, suc,
}
use cywl_oopz.Delegation.Models.{queued, pending, TaskRow, value_error}
use cywl_oopz.Delegation.Rows.{Rows, has_id, find, first, insert_by, order_by}
use cywl_oopz.Delegation.Notices.{is_among, id_of}
use cywl_oopz.Delegation.Calls.{after}
use cywl_oopz.Delegation.Lifecycle.{Evolves-refl, Follows, adds, evolves, Holds, is_sound}

pub Holds-find :
    (p : TaskRow → Bool) (rows : Rows) (r : TaskRow)
    → find p rows ≡ some r
    → Holds r rows × (p r ≡ true)
Holds-find p [] r h = cc
Holds-find p (s ∷ rows) r h = elim (Bool-cases (p s)) [
  | inl e ↦ let same : s ≡ r = ground arith in (inl same, ap p (sym same) ∙ e)
  | inr e ↦ let (k, q) = Holds-find p rows r (ground arith) in (inr k, q)
]

pub Holds-insert_by :
    (key : TaskRow → ℕ) (s r : TaskRow) (rows : Rows)
    → Holds r (insert_by key s rows)
    → (s ≡ r) ⊎ Holds r rows
unfolding insert_by
Holds-insert_by key s r [] (inl e) = inl e
Holds-insert_by key s r [] (inr h) = absurd h
Holds-insert_by key s r (t ∷ rows) h = elim (Bool-cases (leb (key s) (key t))) [
  | inl e ↦ (rw e at h)
  | inr e ↦
      let k : (t ≡ r) ⊎ Holds r (insert_by key s rows) = (rw e at h) in
      elim k [
        | inl q ↦ inr (inl q)
        | inr held ↦ elim (Holds-insert_by key s r rows held) [
          | inl q ↦ inl q
          | inr w ↦ inr (inr w)
        ]
      ]
]

pub Holds-order_by :
    (key : TaskRow → ℕ) (r : TaskRow) (rows : Rows) → Holds r (order_by key rows) → Holds r rows
unfolding order_by
Holds-order_by key r [] h = h
Holds-order_by key r (s ∷ rows) h = elim (Holds-insert_by key s r (order_by key rows) h) [
  | inl e ↦ inl e
  | inr k ↦ inr (Holds-order_by key r rows k)
]

pub Holds-keep :
    (p : TaskRow → Bool) (r : TaskRow) (rows : Rows)
    → Holds r (keep p rows)
    → Holds r rows × (p r ≡ true)
Holds-keep p r [] h = absurd h
Holds-keep p r (s ∷ rows) h = elim (Bool-cases (p s)) [
  | inl e ↦
      let k : (s ≡ r) ⊎ Holds r (keep p rows) = (rw e at h) in
      elim k [
        | inl q ↦ (inl q, ap p (sym q) ∙ e)
        | inr held ↦ let (w, q) = Holds-keep p r rows held in (inr w, q)
      ]
  | inr e ↦
      let k : Holds r (keep p rows) = (rw e at h) in
      let (w, q) = Holds-keep p r rows k in (inr w, q)
]

pub Holds-take : (n : ℕ) (r : TaskRow) (rows : Rows) → Holds r (take n rows) → Holds r rows
Holds-take zero r rows h = absurd h
Holds-take (suc n) r [] h = absurd h
Holds-take (suc n) r (s ∷ rows) (inl e) = inl e
Holds-take (suc n) r (s ∷ rows) (inr h) = inr (Holds-take n r rows h)

pub Holds-first : (r : TaskRow) (rows : Rows) → first rows ≡ some r → Holds r rows
Holds-first r [] h = cc
Holds-first r (s ∷ rows) h = inl (ground arith)

pub Holds-among :
    (s : TaskRow) (chosen : Rows)
    → is_among (map id_of chosen) s ≡ true
    → (r : TaskRow) × Holds r chosen × (s.task.id ≡ r.task.id)
Holds-among s [] h = cc
Holds-among s (r ∷ chosen) h = elim (Bool-cases (nat_beq s.task.id r.task.id)) [
  | inl e ↦ (r, inl refl, (nat_beq_iff s.task.id r.task.id).0 e)
  | inr e ↦ let (t, k, q) = Holds-among s chosen (ground arith) in (t, inr k, q)
]

pub Follows-snoc :
    (rows : Rows) (r : TaskRow)
    → All (λ r. is_sound r ≡ true) rows
    → r.task.status ≡ queued
    → r.task.notification_state ≡ pending
    → Follows (r ∷ []) rows (rows ++ r ∷ [])
Follows-snoc [] r a q p = adds ((q, p), tt)
Follows-snoc (s ∷ rows) r a q p = evolves (Evolves-refl s a.0) (Follows-snoc rows r a.1 q p)

pub any-count : (id : ℕ) (rows : Rows) → any (has_id id) rows ≡ false → count (has_id id) rows ≡ 0
any-count id [] h = refl
any-count id (r ∷ rows) h = ground (arith, any-count id rows)

pub after_guard {ℓ κ} :
    {A : Type ℓ} (P : Rows → Type κ) (rows : Rows) (b : Bool) (x : A × Rows)
    → P rows
    → P x.1
    → P (after rows (raise_if b value_error >> ok x))
after_guard P rows true x p q = p
after_guard P rows false x p q = q
