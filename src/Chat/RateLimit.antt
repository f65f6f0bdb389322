-- ===== src/Chat/RateLimit.antt =====
-- features/chat/rate_limit.py, each method one section under its lock. Times are whole ticks of
-- the monotonic clock.
use mathlib.Core.Option
use cywl_oopz.Prelude.{
  ℕ, ◌+◌, ◌-◌, Bool, true, Option, none, some, if◌then◌else◌, ltb, leb, option_or, Result, ok, err,
  nat_eq, list_eq, pair_eq, Eq, [],
}
use cywl_oopz.Prelude.Text.{Text}
use cywl_oopz.Prelude.Dict.{Dict, get, put, pop}

pub record ConversationKey : Type 0 where
  pub scope : Text
  pub area_id : Text
  pub channel_id : Text
  pub person_id : Text

pub record ChatSettings : Type 0 where
  pub max_global_concurrency : ℕ
  pub max_channel_concurrency : ℕ
  pub max_user_concurrency : ℕ
  pub user_cooldown : ℕ

-- RateLimitExceeded with its reason; a cooldown says how long to wait.
pub data RateLimitExceeded : Type 0 where
  user_cooldown : ℕ → RateLimitExceeded
  global_concurrency channel_concurrency user_concurrency : RateLimitExceeded

-- _Counters
pub record Counters : Type 0 where
  pub global_requests : ℕ
  pub channel_requests : Dict (Text × Text) ℕ
  pub user_requests : Dict Text ℕ
  pub user_available_at : Dict Text ℕ

abbrev pub new_counters : Counters
new_counters = record {
  global_requests = 0;
  channel_requests = [];
  user_requests = [];
  user_available_at = [];
}

abbrev pub channel_key : ConversationKey → Text × Text
channel_key key = (key.area_id, key.channel_id)

-- values.get(key, 0)
abbrev pub count_of {ℓ} : {K : Type ℓ} ⦃e : Eq K⦄ → Dict K ℕ → K → ℕ
count_of values key = option_or (get values key) 0

-- cooldown_remaining: max(available_at - now, 0), as the subtraction of ℕ.
unfoldable pub cooldown_remaining : Counters → ℕ → ConversationKey → ℕ
cooldown_remaining c now key = count_of c.user_available_at key.person_id - now

abbrev pub acquired : ConversationKey → Counters → Counters
acquired key c = record c {
  global_requests = c.global_requests + 1;
  channel_requests =
      put c.channel_requests (channel_key key) (count_of c.channel_requests (channel_key key) + 1);
  user_requests = put c.user_requests key.person_id (count_of c.user_requests key.person_id + 1);
}

-- RateLimitService.acquire
unfoldable pub acquire :
    ChatSettings → ℕ → ConversationKey → Counters → Result RateLimitExceeded Counters
unfolding cooldown_remaining
acquire settings now key c =
    if ltb 0 (cooldown_remaining c now key)
    then err (user_cooldown (cooldown_remaining c now key))
    else if leb settings.max_global_concurrency c.global_requests
    then err global_concurrency
    else if leb settings.max_channel_concurrency (count_of c.channel_requests (channel_key key))
    then err channel_concurrency
    else if leb settings.max_user_concurrency (count_of c.user_requests key.person_id)
    then err user_concurrency
    else ok (acquired key c)

abbrev decremented {ℓ} : {K : Type ℓ} ⦃e : Eq K⦄ → Dict K ℕ → K → Option ℕ → Option (Dict K ℕ)
decremented values key none = none
decremented values key (some count) =
    if leb count 1 then some (pop values key) else some (put values key (count - 1))

-- _decrement; none is the KeyError of values[key].
unfoldable pub decrement {ℓ} : {K : Type ℓ} ⦃e : Eq K⦄ → Dict K ℕ → K → Option (Dict K ℕ)
decrement values key = decremented values key (get values key)

abbrev pub given_back :
    ChatSettings → ℕ → ConversationKey → Counters → Dict (Text × Text) ℕ → Dict Text ℕ → Counters
given_back settings now key c channels users = record {
  global_requests = c.global_requests - 1;
  channel_requests = channels;
  user_requests = users;
  user_available_at = put c.user_available_at key.person_id (now + settings.user_cooldown);
}

abbrev released :
    ChatSettings
    → ℕ
    → ConversationKey
    → Counters
    → Option (Dict (Text × Text) ℕ)
    → Option (Dict Text ℕ)
    → Option Counters
released settings now key c none users = none
released settings now key c (some channels) none = none
released settings now key c (some channels) (some users) =
    some (given_back settings now key c channels users)

-- RateLimitService.release; none is a KeyError. It is called for a lease that is outstanding, so
-- the global count is not 0.
unfoldable pub release : ChatSettings → ℕ → ConversationKey → Counters → Option Counters
unfolding decrement
release settings now key c =
    released settings now key c (decrement c.channel_requests (channel_key key))
      (decrement c.user_requests key.person_id)

-- RateLimitLease
pub record RateLimitLease : Type 0 where
  pub key : ConversationKey
  pub is_released : Bool

-- RateLimitLease.release: the lease and the counters that it leaves.
unfoldable pub release_lease :
    ChatSettings → ℕ → RateLimitLease → Counters → Option (RateLimitLease × Counters)
release_lease settings now lease c =
    if lease.is_released
    then some (lease, c)
    else Option.map (λ c'. (record lease { is_released = true }, c'))
        (release settings now lease.key c)
