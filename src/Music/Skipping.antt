-- ===== src/Music/Skipping.antt =====
-- skip and clear of features/music/service.py, followed by _finish_attempt of
-- features/music/playback.py, which disposes of the track that gave way.
use cywl_oopz.Prelude.{
  ◌≡◌, true, false, [], ◌∷◌, ◌++◌, none, some, arith, if◌then◌else◌, ==_refl, nat_eq,
}
use cywl_oopz.Prelude.Dict.{get-pop}
use cywl_oopz.Music.Models.{VoiceChannelKey, QueuedTrack, is_all}
use cywl_oopz.Music.Session.{MusicSession}
use cywl_oopz.Music.Requests.{Surroundings}
use cywl_oopz.Music.Controls.{skip, clear}
use cywl_oopz.Music.Prepare.{Run, PlaybackAttempt, retries}
use cywl_oopz.Music.Worker.{finish_attempt}

-- What disposing of a skipped track leaves.
abbrev pub Skipped : QueuedTrack → MusicSession → Run → Type 0
Skipped item s t =
    (t.session.queue ≡ s.queue)
    × (t.session.cycle_history
        ≡ (if s.retain_skipped_for_cycle then s.cycle_history ++ item ∷ [] else s.cycle_history))
    × (t.session.current ≡ none)
    × (t.session.skip_requested ≡ false)
    × (t.session.retain_skipped_for_cycle ≡ false)
    × (retries t.backend_retries item ≡ 0)
    × (retries t.media_retries item ≡ 0)

finish-Skipped :
    (item : QueuedTrack) (a : PlaybackAttempt) (r : Run)
    → r.session.skip_requested ≡ true
    → Skipped item r.session (finish_attempt item a r)
unfolding finish_attempt
finish-Skipped item a r h = ground (
  arith,
  get-pop r.backend_retries item.id item.id,
  get-pop r.media_retries item.id item.id,
  ==_refl item.id,
)

-- However the attempt of the current track ended, if the track was skipped just before its
-- disposal it is not queued again, and it joins the next cycle exactly when everything is
-- repeated. Its retries are forgotten.
pub finish_attempt-skip :
    (item : QueuedTrack) (a : PlaybackAttempt) (r : Run) (s : MusicSession)
    → s.current ≡ some item
    → r.session ≡ (skip s).1
    → let t = finish_attempt item a r in
      (t.session.queue ≡ s.queue)
      × (t.session.cycle_history
          ≡ (if is_all s.policy.repeat then s.cycle_history ++ item ∷ [] else s.cycle_history))
      × (t.session.current ≡ none)
      × (retries t.backend_retries item ≡ 0)
      × (retries t.media_retries item ≡ 0)
unfolding skip
finish_attempt-skip item a r s c e = ground (
  arith,
  get-pop r.backend_retries item.id item.id,
  get-pop r.media_retries item.id item.id,
  ==_refl item.id,
  finish-Skipped item a r,
)

-- A track that was skipped and retained for the next cycle, whose attempt is disposed of after a
-- clear, is then in the cycle, alone.
pub finish_attempt-clear :
    (env : Surroundings) (channel : VoiceChannelKey) (item : QueuedTrack) (a : PlaybackAttempt)
    (r : Run) (s : MusicSession)
    → s.skip_requested ≡ true
    → s.retain_skipped_for_cycle ≡ true
    → r.session ≡ (clear env channel s).1
    → (finish_attempt item a r).session.cycle_history ≡ item ∷ []
unfolding clear
finish_attempt-clear env channel item a r s k t e = ground (arith, finish-Skipped item a r)
