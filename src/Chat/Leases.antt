-- ===== src/Chat/Leases.antt =====
-- The counters of features/chat/rate_limit.py count the outstanding leases.
use mathlib.Core.Path.{subst}
use cywl_oopz.Prelude.{
  Bool-cases, ◌↔◌, ℕ, suc, ◌+◌, ◌-◌, ◌≤◌, ◌<◌, ◌≡◌, refl, Bool, inl, inr, List, [], ◌∷◌, ◌++◌, some,
  arith, if◌then◌else◌, leb, Option-cases, count, count-append, length, length-append, ok, err,
  nat_eq, list_eq, pair_eq, Eq, ◌==◌, ==_iff, ==_refl,
}
use cywl_oopz.Prelude.Text.{Text}
use cywl_oopz.Prelude.Dict.{Dict, get, put, pop, get-put, get-pop}
use cywl_oopz.Chat.RateLimit.{
  ConversationKey, ChatSettings, RateLimitExceeded, Counters, new_counters, channel_key, count_of,
  acquire, acquired, given_back, decrement, release, cooldown_remaining,
}

abbrev pub on_channel : Text × Text → ConversationKey → Bool
on_channel k key = channel_key key == k

abbrev pub of_user : Text → ConversationKey → Bool
of_user p key = key.person_id == p

-- The leases that have been granted and not released.
abbrev pub Leases : Type 0
Leases = List ConversationKey

pub record IsCounted (settings : ChatSettings) (leases : Leases) (c : Counters) : Type 0 where
  pub global_count : c.global_requests ≡ length leases
  pub channel_count :
      (k : Text × Text) → count_of c.channel_requests k ≡ count (on_channel k) leases
  pub user_count : (p : Text) → count_of c.user_requests p ≡ count (of_user p) leases
  pub global_bound : length leases ≤ settings.max_global_concurrency
  pub channel_bound :
      (k : Text × Text) → count (on_channel k) leases ≤ settings.max_channel_concurrency
  pub user_bound : (p : Text) → count (of_user p) leases ≤ settings.max_user_concurrency

pub new_counters-IsCounted : (settings : ChatSettings) → IsCounted settings [] new_counters
unfolding get
new_counters-IsCounted settings = record {
  global_count = refl;
  channel_count = λ k. refl;
  user_count = λ p. refl;
  global_bound = omega arith;
  channel_bound = λ k. omega arith;
  user_bound = λ p. omega arith;
}

count_of-put {ℓ} :
    {K : Type ℓ} ⦃e : Eq K⦄ (d : Dict K ℕ) (k j : K) (v : ℕ)
    → count_of (put d k v) j ≡ (if k == j then v else count_of d j)
count_of-put ⦃e⦄ d k j v = ground (arith, get-put d k j v)

count_of-decrement {ℓ} :
    {K : Type ℓ} ⦃e : Eq K⦄ (d d' : Dict K ℕ) (k j : K)
    → decrement d k ≡ some d'
    → count_of d' j ≡ (if k == j then count_of d k - 1 else count_of d j)
unfolding decrement
count_of-decrement ⦃e⦄ d d' k j h = elim (Option-cases (get d k)) [
  | inl absent ↦ ground arith
  | inr (n, found) ↦ ground (arith, get-put d k j (n - 1), get-pop d k j)
]

decrement_total {ℓ} :
    {K : Type ℓ} ⦃e : Eq K⦄ (d : Dict K ℕ) (k : K)
    → 0 < count_of d k
    → (d' : Dict K ℕ) × (decrement d k ≡ some d')
unfolding decrement
decrement_total ⦃e⦄ d k h = elim (Option-cases (get d k)) [
  | inl absent ↦ absurd (ground arith)
  | inr (n, found) ↦ rw found (elim (Bool-cases (leb n 1)) [
    | inl e1 ↦ rw e1 (pop d k, refl)
    | inr e1 ↦ rw e1 (put d k (n - 1), refl)
  ])
]

-- What acquire has found when it grants a request.
record IsFree (settings : ChatSettings) (now : ℕ) (key : ConversationKey) (c : Counters)
    : Type 0 where
  rested : cooldown_remaining c now key ≡ 0
  global_room : c.global_requests < settings.max_global_concurrency
  channel_room : count_of c.channel_requests (channel_key key) < settings.max_channel_concurrency
  user_room : count_of c.user_requests key.person_id < settings.max_user_concurrency

module _ (settings : ChatSettings) (now : ℕ) (key : ConversationKey) where
  acquire-free :
      (c : Counters) → IsFree settings now key c → acquire settings now key c ≡ ok (acquired key c)
  unfolding acquire
  acquire-free c f = ground (arith, f.rested, f.global_room, f.channel_room, f.user_room)

  acquire-granted :
      (c c' : Counters)
      → acquire settings now key c ≡ ok c'
      → IsFree settings now key c × (acquired key c ≡ c')
  unfolding acquire
  acquire-granted c c' h = ground arith

  acquired-IsCounted :
      (leases : Leases) (c : Counters)
      → IsCounted settings leases c
      → IsFree settings now key c
      → IsCounted settings (key ∷ leases) (acquired key c)
  acquired-IsCounted leases c i f = record {
    global_count = omega (arith, i.global_count);
    channel_count = λ k. ground (
      arith,
      count_of-put c.channel_requests (channel_key key) k
          (count_of c.channel_requests (channel_key key) + 1),
      i.channel_count k,
      ==_iff (channel_key key) k,
    );
    user_count = λ p. ground (
      arith,
      count_of-put c.user_requests key.person_id p (count_of c.user_requests key.person_id + 1),
      i.user_count p,
      ==_iff key.person_id p,
    );
    global_bound = omega (arith, i.global_count, f.global_room);
    channel_bound = λ k.
        ground
          (arith, i.channel_bound k, i.channel_count k, f.channel_room, ==_iff (channel_key key) k);
    user_bound =
        λ p. ground (arith, i.user_bound p, i.user_count p, f.user_room, ==_iff key.person_id p);
  }

  -- Where the counters count the outstanding leases, within the limits, a granted request leaves
  -- counters that count one more lease, still within every limit.
  pub acquire-IsCounted :
      (leases : Leases) (c c' : Counters)
      → IsCounted settings leases c
      → acquire settings now key c ≡ ok c'
      → IsCounted settings (key ∷ leases) c'
  acquire-IsCounted leases c c' i h =
      let g = acquire-granted c c' h in
      subst (IsCounted settings (key ∷ leases)) g.1 (acquired-IsCounted leases c i g.0)

  -- With counters that count the outstanding leases, a request is granted exactly when the person's
  -- cooldown is over and the leases, those of the channel and those of the person are below their
  -- limits.
  pub acquire-granted_iff :
      (leases : Leases) (c : Counters)
      → IsCounted settings leases c
      → ((c' : Counters) × (acquire settings now key c ≡ ok c')) ↔ (
          (cooldown_remaining c now key ≡ 0)
          × (length leases < settings.max_global_concurrency)
          × (count (on_channel (channel_key key)) leases < settings.max_channel_concurrency)
          × (count (of_user key.person_id) leases < settings.max_user_concurrency))
  acquire-granted_iff leases c i = (
    λ (c', h).
        let (f, _) = acquire-granted c c' h in
        (
          f.rested,
          omega (arith, i.global_count, f.global_room),
          omega (arith, i.channel_count (channel_key key), f.channel_room),
          omega (arith, i.user_count key.person_id, f.user_room),
        ),
    λ (rested, g, ch, u). (
      acquired key c,
      acquire-free c (record {
        rested = rested;
        global_room = omega (arith, i.global_count);
        channel_room = omega (arith, i.channel_count (channel_key key));
        user_room = omega (arith, i.user_count key.person_id);
      }),
    ),
  )

  count_middle {ℓ} :
      {A : Type ℓ} (p : A → Bool) (x : A) (a b : List A)
      → count p (a ++ x ∷ b) ≡ (if p x then suc (count p (a ++ b)) else count p (a ++ b))
  count_middle p x a b = ground (arith, count-append p a (x ∷ b), count-append p a b)

  length_middle {ℓ} :
      {A : Type ℓ} (x : A) (a b : List A) → length (a ++ x ∷ b) ≡ suc (length (a ++ b))
  length_middle x a b = omega (arith, length-append a (x ∷ b), length-append a b)

  -- Where the counters count the outstanding leases, within the limits, releasing one of these
  -- raises no KeyError, and the counters then count the leases that are left, within the limits.
  pub release-IsCounted :
      (a b : Leases) (c : Counters)
      → IsCounted settings (a ++ key ∷ b) c
      → (c' : Counters) × (release settings now key c ≡ some c') × IsCounted settings (a ++ b) c'
  unfolding release
  release-IsCounted a b c i =
      let ch : 0 < count_of c.channel_requests (channel_key key) = ground (
        arith,
        i.channel_count (channel_key key),
        ==_refl (channel_key key),
        count_middle (on_channel (channel_key key)) key a b,
      ) in
      let us : 0 < count_of c.user_requests key.person_id = ground (
        arith,
        i.user_count key.person_id,
        ==_refl key.person_id,
        count_middle (of_user key.person_id) key a b,
      ) in
      let (channels, dc) = decrement_total c.channel_requests (channel_key key) ch in
      let (users, du) = decrement_total c.user_requests key.person_id us in
      (
        given_back settings now key c channels users,
        rw (dc, du) refl,
        record {
          global_count = omega (arith, i.global_count, length_middle key a b);
          channel_count = λ k. ground (
            arith,
            count_of-decrement c.channel_requests channels (channel_key key) k dc,
            count_middle (on_channel k) key a b,
            i.channel_count k,
            ==_iff (channel_key key) k,
          );
          user_count = λ p. ground (
            arith,
            count_of-decrement c.user_requests users key.person_id p du,
            count_middle (of_user p) key a b,
            i.user_count p,
            ==_iff key.person_id p,
          );
          global_bound = omega (arith, i.global_bound, length_middle key a b);
          channel_bound =
              λ k. ground (arith, i.channel_bound k, count_middle (on_channel k) key a b);
          user_bound = λ p. ground (arith, i.user_bound p, count_middle (of_user p) key a b);
        },
      )

  -- After a release, every request of the same person within the cooldown is refused, and is told
  -- the rest of it.
  acquire-release :
      (c c' : Counters) (later : ℕ) (next : ConversationKey)
      → release settings now key c ≡ some c'
      → next.person_id ≡ key.person_id
      → later < now + settings.user_cooldown
      → acquire settings later next c'
        ≡ err (RateLimitExceeded.user_cooldown (now + settings.user_cooldown - later))
  unfolding release acquire cooldown_remaining
  acquire-release c c' later next h same l = ground (
    arith,
    get-put c.user_available_at key.person_id next.person_id (now + settings.user_cooldown),
    ==_iff key.person_id next.person_id,
  )
