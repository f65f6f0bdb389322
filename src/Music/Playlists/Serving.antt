-- ===== src/Music/Playlists/Serving.antt =====
-- What features/music/playlists.py makes of a stored playlist: the queue that it loads.
use cywl_oopz.Prelude.Text.{strip, Text}
use cywl_oopz.Prelude.{
  suc, ◌∙◌, inr, Result-cases, Option-cases, some, inl, Bool-cases, ap, ◌+◌, Option, refl, ℕ, ◌≡◌,
  arith, List, [], ◌∷◌, map, length, Result, ok, err,
}
use cywl_oopz.Music.Models.{
  QueuedTrack, MusicError, QueueRebuildResult, VoiceChannelKey, MusicTrack,
}
use cywl_oopz.Music.Session.{MusicSession}
use cywl_oopz.Music.Requests.{Surroundings, reserve_voice, start_worker}
use cywl_oopz.Music.Controls.{replace_queue}
use cywl_oopz.Music.Playlists.Rows
use cywl_oopz.Music.Playlists.Tables.{MusicPlaylist, Tables, TrackRow}
use cywl_oopz.Music.Playlists.Shelf.{Album, Entry, shelf, find_album, entry_of}
use cywl_oopz.Music.Playlists.Rearranged.{IsOrderly}
use cywl_oopz.Music.Playlists.Orderly.{shown, get-shelf}
use cywl_oopz.Music.Playlists.Service
use cywl_oopz.Music.Playlists.Service.{
  queued_tracks, loaded, load_found, load, tracks_of, has_no_tracks, area_id, ActorContext,
  PlaylistQueueLoad,
}

pub replace_queue-ok :
    (limit : ℕ) (env : Surroundings) (channel : VoiceChannelKey) (items : List QueuedTrack)
    (s s' : MusicSession) (r : QueueRebuildResult) (stopped : Option ℕ)
    → replace_queue limit env channel items s ≡ (ok (r, stopped), s')
    → (s'.queue ≡ items) × (r.loaded_count ≡ length items)
unfolding replace_queue reserve_voice start_worker
replace_queue-ok limit env channel [] s s' r stopped e = ground (arith, e)
replace_queue-ok limit env channel (item ∷ rest) s s' r stopped e = ground (arith, e)

tracks-queued_tracks :
    (ids : ℕ → ℕ) (by : Text) (n : ℕ) (tracks : List MusicTrack)
    → map (λ (q : QueuedTrack). q.track) (queued_tracks ids by n tracks) ≡ tracks
unfolding queued_tracks
tracks-queued_tracks ids by n [] = refl
tracks-queued_tracks ids by n (track ∷ tracks) =
    ground (arith, tracks-queued_tracks ids by (n + 1) tracks)

length-queued_tracks :
    (ids : ℕ → ℕ) (by : Text) (n : ℕ) (tracks : List MusicTrack)
    → length (queued_tracks ids by n tracks) ≡ length tracks
unfolding queued_tracks
length-queued_tracks ids by n [] = refl
length-queued_tracks ids by n (track ∷ tracks) =
    ground (arith, length-queued_tracks ids by (n + 1) tracks)

tracks-entries :
    (rows : List TrackRow)
    → map (λ (r : TrackRow). r.track) rows ≡ map (λ (e : Entry). e.1) (map entry_of rows)
tracks-entries [] = refl
tracks-entries (r ∷ rows) = ap (r.track ∷◌) (tracks-entries rows)

length-entries :
    (rows : List TrackRow)
    → length (map (λ (r : TrackRow). r.track) rows) ≡ length (map entry_of rows)
length-entries [] = refl
length-entries (r ∷ rows) = ap suc (length-entries rows)

loaded-ok :
    (p : MusicPlaylist) (r : Result MusicError (QueueRebuildResult × Option ℕ) × MusicSession)
    (outcome : PlaylistQueueLoad) (stopped : Option ℕ) (s' : MusicSession)
    → loaded p r ≡ (ok (outcome, stopped), s')
    → (r ≡ (ok (outcome.queue, stopped), s')) × (outcome.playlist_id ≡ p.id)
loaded-ok p (ok (queue, stop), s) outcome stopped s' e = ground (arith, e)
loaded-ok p (err problem, s) outcome stopped s' e = ground (arith, e)

load_found-ok :
    (limit : ℕ) (env : Surroundings) (channel : VoiceChannelKey) (ids : ℕ → ℕ) (by : Text)
    (s s' : MusicSession) (p : MusicPlaylist) (outcome : PlaylistQueueLoad) (stopped : Option ℕ)
    → load_found limit env channel ids by s (ok p) ≡ (ok (outcome, stopped), s')
    → (map (λ (q : QueuedTrack). q.track) s'.queue ≡ tracks_of p)
      × (outcome.queue.loaded_count ≡ length (tracks_of p))
      × (outcome.playlist_id ≡ p.id)
load_found-ok limit env channel ids by s s' p outcome stopped e =
    elim (Bool-cases (has_no_tracks (tracks_of p))) [
      | inl none_left ↦ ground (arith, e, none_left)
      | inr some_left ↦
          let items = queued_tracks ids by 0 (tracks_of p) in
          let (called, same) =
            loaded-ok p (replace_queue limit env channel items s) outcome stopped s'
              (ground (arith, e, some_left)) in
          let (queued, counted) =
            replace_queue-ok limit env channel items s s' outcome.queue stopped called in
          (
            rw queued (tracks-queued_tracks ids by 0 (tracks_of p)),
            counted ∙ length-queued_tracks ids by 0 (tracks_of p),
            same,
          )
    ]

get-ok :
    (identity : ActorContext) (id : ℕ) (t : Tables) (p : MusicPlaylist)
    → Service.get identity id t ≡ ok p
    → Rows.get (strip identity.conversation.area_id) id t ≡ some p
unfolding Service.get area_id
get-ok identity id t p e =
    elim (Option-cases (Rows.get (strip identity.conversation.area_id) id t)) [
      | inl missing ↦ ground (arith, e, missing)
      | inr (q, found) ↦ ground (arith, e, found)
    ]

-- Where every playlist is numbered, a load that succeeds is of an album of the caller's area, and
-- leaves the tracks of that album, in its order, as the queue of the session.
pub load-queue :
    (limit max_queue_length : ℕ) (env : Surroundings) (channel : VoiceChannelKey) (ids : ℕ → ℕ)
    (identity : ActorContext) (id : ℕ) (t : Tables) (s s' : MusicSession)
    (outcome : PlaylistQueueLoad) (stopped : Option ℕ)
    → IsOrderly limit t
    → load max_queue_length env channel ids identity id t s ≡ (ok (outcome, stopped), s')
    → (a : Album) × (find_album (strip identity.conversation.area_id) id (shelf t) ≡ some a)
      × (map (λ (q : QueuedTrack). q.track) s'.queue ≡ map (λ (e : Entry). e.1) a.entries)
      × (outcome.queue.loaded_count ≡ length a.entries)
unfolding load
load-queue limit max_queue_length env channel ids identity id t s s' outcome stopped o e =
    elim (Result-cases (Service.get identity id t)) [
      | inl (p, found) ↦
          let (queued, counted, same) =
            load_found-ok max_queue_length env channel ids identity.person_id s s' p outcome stopped
              (ground (arith, e, found)) in
          (
            shown p,
            ground (
              arith,
              (get-shelf limit (strip identity.conversation.area_id) id t o).0,
              get-ok identity id t p found,
            ),
            queued ∙ tracks-entries p.entries,
            counted ∙ length-entries p.entries,
          )
      | inr (problem, failed) ↦ ground (arith, e, failed)
    ]
