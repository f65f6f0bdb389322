-- ===== src/Examples/Chat.antt =====
-- The chat theorems at two people on one channel.
use cywl_oopz.Prelude.{
  ◌≤◌, ◌<◌, ◌≡◌, refl, ◌↔◌, [], ◌∷◌, ◌++◌, ok, some, length, arith, count, List, nat_eq, list_eq,
  pair_eq,
}
use cywl_oopz.Prelude.Text.{codes}
use cywl_oopz.Prelude.Dict.{get, put}
use cywl_oopz.Chat.RateLimit.{
  ConversationKey, ChatSettings, Counters, new_counters, acquire, acquired, release,
  cooldown_remaining, channel_key,
}
use cywl_oopz.Chat.Leases.{
  IsCounted, on_channel, of_user, new_counters-IsCounted, acquire-IsCounted, release-IsCounted,
  acquire-granted_iff,
}
use cywl_oopz.Chat.History.{ChatMessage, user, assistant, HistoryTrimmer, trim}
use cywl_oopz.Chat.Trimming.{characters, OpensWell, trim-fits, trim_longest}

abbrev settings : ChatSettings
settings = record {
  max_global_concurrency = 3;
  max_channel_concurrency = 2;
  max_user_concurrency = 1;
  user_cooldown = 5;
}

abbrev ann : ConversationKey
ann = record {
  scope = codes "channel";
  area_id = codes "hall";
  channel_id = codes "desk";
  person_id = codes "ann";
}

abbrev bob : ConversationKey
bob = record ann { person_id = codes "bob" }

-- Ann is served already.
abbrev busy : Counters
busy = acquired ann new_counters

busy-IsCounted : IsCounted settings (ann ∷ []) busy
unfolding acquire cooldown_remaining get
busy-IsCounted =
    acquire-IsCounted settings 0 ann [] new_counters busy (new_counters-IsCounted settings) refl

acquire-IsCounted_example : IsCounted settings (bob ∷ ann ∷ []) (acquired bob busy)
unfolding acquire cooldown_remaining get put
acquire-IsCounted_example =
    acquire-IsCounted settings 3 bob (ann ∷ []) busy (acquired bob busy) busy-IsCounted refl

release-IsCounted_example :
    (c' : Counters) × (release settings 7 ann busy ≡ some c') × IsCounted settings [] c'
release-IsCounted_example = release-IsCounted settings 7 ann [] [] busy busy-IsCounted

acquire-granted_iff_example : ((c' : Counters) × (acquire settings 3 bob busy ≡ ok c')) ↔ (
    (cooldown_remaining busy 3 bob ≡ 0)
    × (length (ann ∷ []) < settings.max_global_concurrency)
    × (count (on_channel (channel_key bob)) (ann ∷ []) < settings.max_channel_concurrency)
    × (count (of_user bob.person_id) (ann ∷ []) < settings.max_user_concurrency))
acquire-granted_iff_example = acquire-granted_iff settings 3 bob (ann ∷ []) busy busy-IsCounted

abbrev trimmer : HistoryTrimmer
trimmer = record { max_messages = 3; max_characters = 10 }

abbrev asks : ChatMessage
asks = record { role = user; content = codes "why" }

abbrev answers : ChatMessage
answers = record { role = assistant; content = codes "so" }

abbrev history : List ChatMessage
history = asks ∷ answers ∷ asks ∷ answers ∷ []

trim-fits_example :
    (older : List ChatMessage) × (history ≡ older ++ trim trimmer history)
    × (length (trim trimmer history) ≤ trimmer.max_messages)
    × (characters (trim trimmer history) ≤ trimmer.max_characters)
    × OpensWell (trim trimmer history)
trim-fits_example = trim-fits trimmer history

trim_longest_example :
    (before : List ChatMessage) × (trim trimmer history ≡ before ++ asks ∷ answers ∷ [])
trim_longest_example =
    trim_longest trimmer history (asks ∷ answers ∷ []) (asks ∷ answers ∷ []) refl (omega arith)
      (omega arith) refl
