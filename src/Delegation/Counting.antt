-- ===== src/Delegation/Counting.antt =====
-- How the scheduler's dict of active tasks and its counters of owners grow and shrink.
use cywl_oopz.Prelude.{
  ℕ, ◌+◌, ◌≤◌, ◌<◌, ◌≡◌, refl, sym, ap, ◌∙◌, inl, inr, Bool, true, false, ◌&&◌, List, [], ◌∷◌, none,
  some, arith, if◌then◌else◌, any, count, length, nat_beq, Bool-cases, option_or, ◌==◌, ==_iff,
  nat_eq, list_eq,
}
use cywl_oopz.Prelude.Text.{Text}
use cywl_oopz.Prelude.Dict.{Dict, get, put, pop, get-put}
use cywl_oopz.Delegation.Models.{DelegatedAgentTask, is_read}
use cywl_oopz.Delegation.Scheduler.{
  ActiveTask, Active, pop_all, reads_of, add_owner, count_owners, owners_at,
}

-- The active tasks of a predicate.
abbrev pub count_active : (DelegatedAgentTask → Bool) → Active → ℕ
count_active p active = count (λ e. p e.1.envelope) active

pub count-pop :
    (p : DelegatedAgentTask → Bool) (active : Active) (id : ℕ)
    → count_active p (pop active id) ≤ count_active p active
unfolding pop
count-pop p [] id = omega arith
count-pop p ((j, a) ∷ active) id = ground (arith, count-pop p active id)

pub count-pop_all :
    (p : DelegatedAgentTask → Bool) (ids : List ℕ) (active : Active)
    → count_active p (pop_all ids active) ≤ count_active p active
count-pop_all p [] active = omega arith
count-pop_all p (id ∷ ids) active =
    omega (arith, count-pop p active id, count-pop_all p ids (pop active id))

pub count-put :
    (p : DelegatedAgentTask → Bool) (active : Active) (id : ℕ) (a : ActiveTask)
    → count_active p (put active id a) ≤ count_active p active + (if p a.envelope then 1 else 0)
unfolding put
count-put p [] id a = ground arith
count-put p ((j, b) ∷ active) id a = ground (arith, count-put p active id a)

pub count-reads_of :
    (p : DelegatedAgentTask → Bool) (active : Active)
    → count p (reads_of active) ≡ count_active (λ t. is_read t.request.lane && p t) active
count-reads_of p [] = refl
count-reads_of p ((j, a) ∷ active) = ground (arith, count-reads_of p active)

pub length-reads_of :
    (active : Active) → length (reads_of active) ≡ count_active (λ t. is_read t.request.lane) active
length-reads_of [] = refl
length-reads_of ((j, a) ∷ active) = ground (arith, length-reads_of active)

abbrev pub owned_by : Text → DelegatedAgentTask → Bool
owned_by owner t = t.request.owner_person_id == owner

abbrev pub counted : Dict Text ℕ → Text → ℕ
counted counts owner = option_or (get counts owner) 0

pub add_owner_lem :
    (counts : Dict Text ℕ) (owner other : Text)
    → counted (add_owner counts owner) other
      ≡ counted counts other + (if owner == other then 1 else 0)
unfolding add_owner
add_owner_lem counts owner other =
    ground (arith, get-put counts owner other (counted counts owner + 1), ==_iff owner other)

pub count_owners_lem :
    (tasks : List DelegatedAgentTask) (owner : Text)
    → counted (count_owners tasks) owner ≡ count (owned_by owner) tasks
unfolding count_owners get
count_owners_lem [] owner = refl
count_owners_lem (t ∷ tasks) owner = ground (
  arith,
  add_owner_lem (count_owners tasks) t.request.owner_person_id owner,
  count_owners_lem tasks owner,
)

-- An owner who is not among those at a limit is below it.
pub owners_at-below :
    (limit : ℕ) (counts : Dict Text ℕ) (owner : Text)
    → 1 ≤ limit
    → any (λ o. owner == o) (owners_at limit counts) ≡ false
    → counted counts owner < limit
unfolding get
owners_at-below limit [] owner l h = omega arith
owners_at-below limit ((o, n) ∷ counts) owner l h =
    ground (arith, owners_at-below limit counts owner l, ==_iff o owner, ==_iff owner o)

-- Keys are distinct.
abbrev pub Distinct : Dict Text ℕ → Type 0
Distinct [] = Unit
Distinct ((o, n) ∷ counts) = (get counts o ≡ none) × Distinct counts

Distinct-put :
    (counts : Dict Text ℕ) (o : Text) (n : ℕ) → Distinct counts → Distinct (put counts o n)
unfolding get put
Distinct-put [] o n d = (refl, tt)
Distinct-put ((j, m) ∷ counts) o n d = elim (Bool-cases (j == o)) [
  | inl e ↦ rw e d
  | inr e ↦ rw e (
    ground (arith, get-put counts o j n, ==_iff o j, ==_iff j o, ap (get counts), d.0),
    Distinct-put counts o n d.1,
  )
]

pub Distinct-count_owners : (tasks : List DelegatedAgentTask) → Distinct (count_owners tasks)
unfolding count_owners add_owner
Distinct-count_owners [] = tt
Distinct-count_owners (t ∷ tasks) =
    Distinct-put (count_owners tasks) _ _ (Distinct-count_owners tasks)

pub Distinct-add_owner :
    (counts : Dict Text ℕ) (o : Text) → Distinct counts → Distinct (add_owner counts o)
unfolding add_owner
Distinct-add_owner counts o d = Distinct-put counts o _ d

owners_at-absent :
    (limit : ℕ) (counts : Dict Text ℕ) (owner : Text)
    → get counts owner ≡ none
    → any (λ o. owner == o) (owners_at limit counts) ≡ false
unfolding get
owners_at-absent limit [] owner h = refl
owners_at-absent limit ((o, n) ∷ counts) owner h =
    ground (arith, owners_at-absent limit counts owner, ==_iff o owner, ==_iff owner o)

-- An owner among those at a limit has reached it.
pub owners_at-reached :
    (limit : ℕ) (counts : Dict Text ℕ) (owner : Text)
    → Distinct counts
    → any (λ o. owner == o) (owners_at limit counts) ≡ true
    → limit ≤ counted counts owner
unfolding get
owners_at-reached limit [] owner d h = absurd (ground arith)
owners_at-reached limit ((o, n) ∷ counts) owner d h = elim (Bool-cases (o == owner)) [
  | inl e ↦
      let same = (==_iff o owner).0 e in
      let absent = owners_at-absent limit counts owner (ap (get counts) (sym same) ∙ d.0) in
      ground arith
  | inr e ↦ ground (arith, owners_at-reached limit counts owner d.1, ==_iff o owner, ==_iff owner o)
]

-- An entry whose task stays the same.
pub count-put_same :
    (p : DelegatedAgentTask → Bool) (active : Active) (id : ℕ) (a b : ActiveTask)
    → get active id ≡ some a
    → b.envelope ≡ a.envelope
    → count_active p (put active id b) ≡ count_active p active
unfolding get put
count-put_same p [] id a b h e = absurd (ground arith)
count-put_same p ((j, c) ∷ active) id a b h e = elim (Bool-cases (nat_beq j id)) [
  | inl q ↦
      let same : c ≡ a = ground arith in
      let env : b.envelope ≡ c.envelope = e ∙ ap (λ (x : ActiveTask). x.envelope) (sym same) in
      rw (q, env) refl
  | inr q ↦ rw q (ground (arith, count-put_same p active id a b (ground arith) e))
]
