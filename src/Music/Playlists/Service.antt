-- ===== src/Music/Playlists/Service.antt =====
-- features/music/playlists.py over the repository of Rows and one session of the queue. `nfkc` and
-- `casefold` are unicodedata.normalize("NFKC", s) and str.casefold; a source of Netease playlists
-- is a function of its reference and its limit. Log lines are left out, and so are the methods that
-- look a track up in the catalog before they append it.
use cywl_oopz.Prelude.{
  ℕ, ◌+◌, ◌-◌, Bool, true, false, ◌||◌, List, [], ◌∷◌, map, Option, none, some, if◌then◌else◌, ltb,
  leb, length, Result, ok, err, ◌>>=◌,
}
use cywl_oopz.Prelude.Text.{Text, strip}
use cywl_oopz.Commands.Parsing.{split, is_empty}
use cywl_oopz.Delegation.Rows.{join}
use cywl_oopz.Chat.RateLimit.{ConversationKey}
use cywl_oopz.Music.Models.{
  MusicTrack, MusicError, QueuedTrack, QueueRebuildResult, VoiceChannelKey,
}
use cywl_oopz.Music.Session.{MusicSession}
use cywl_oopz.Music.Requests.{Surroundings}
use cywl_oopz.Music.Controls.{replace_queue}
use cywl_oopz.Music.Playlists.Rows
use cywl_oopz.Music.Playlists.Rows.{create_with_tracks}
use cywl_oopz.Music.Playlists.Tables.{
  Tables, PlaylistRow, TrackRow, MusicPlaylist, MusicPlaylistSummary, PlaylistTrackRemoval,
  PlaylistRename, PlaylistDeletion, PlaylistClear, PlaylistError,
}

pub record ActorContext : Type 0 where
  pub person_id : Text
  pub conversation : ConversationKey

pub data ServiceError : Type 0 where
  area_required playlist_name playlist_empty : ServiceError
  not_found catalog netease_too_large netease_incomplete : ServiceError
  of_repository : PlaylistError → ServiceError
  of_music : MusicError → ServiceError

pub record NeteasePlaylistSnapshot : Type 0 where
  pub source_id : Text
  pub name : Text
  pub declared_track_count : ℕ
  pub tracks : List MusicTrack

abbrev pub is_complete : NeteasePlaylistSnapshot → Bool
is_complete p = leb p.declared_track_count (length p.tracks)

pub record NeteasePlaylistImport : Type 0 where
  pub source_id : Text
  pub source_name : Text
  pub declared_track_count : ℕ
  pub playlist : MusicPlaylist

abbrev pub imported_track_count : NeteasePlaylistImport → ℕ
imported_track_count i = length i.playlist.entries

-- max(0, …), as the subtraction stops at 0
abbrev pub skipped_track_count : NeteasePlaylistImport → ℕ
skipped_track_count i = i.declared_track_count - imported_track_count i

pub record PlaylistQueueLoad : Type 0 where
  pub playlist_id : ℕ
  pub playlist_name : Text
  pub queue : QueueRebuildResult

abbrev pub max_name_characters : ℕ
max_name_characters = 80

-- What the repository answers, with its errors.
abbrev pub stored {ℓ} : {A : Type ℓ} → Result PlaylistError A → Result ServiceError A
stored (ok a) = ok a
stored (err e) = err (of_repository e)

-- _area_id
unfoldable pub area_id : ActorContext → Result ServiceError Text
area_id identity =
    let area = strip identity.conversation.area_id in
    if is_empty area then err area_required else ok area

-- _normalize_name: the name that is shown, and the one that is compared.
unfoldable pub normalize_name :
    (Text → Text) → (Text → Text) → Text → Result ServiceError (Text × Text)
normalize_name nfkc casefold name =
    let display_name = join (split (nfkc name)) in
    let normalized_name = casefold display_name in
    if is_empty display_name
    then err playlist_name
    else if ltb max_name_characters (length display_name)
        || ltb max_name_characters (length normalized_name)
    then err playlist_name
    else ok (display_name, normalized_name)

unfoldable create :
    (Text → Text)
    → (Text → Text)
    → ℕ
    → ℕ
    → ActorContext
    → Text
    → Tables
    → Result ServiceError (MusicPlaylist × Tables)
unfolding area_id normalize_name Rows.create
create nfkc casefold now id identity name t = do
  area ← area_id identity
  names ← normalize_name nfkc casefold name
  stored (Rows.create now id area names.0 names.1 identity.person_id t)

unfoldable list :
    (List PlaylistRow → List PlaylistRow)
    → ActorContext
    → Tables
    → Result ServiceError (List MusicPlaylistSummary)
unfolding area_id Rows.list
list order identity t = do area ← area_id identity; ok (Rows.list order area t)

abbrev pub required : Option MusicPlaylist → Result ServiceError MusicPlaylist
required none = err not_found
required (some p) = ok p

unfoldable pub get : ActorContext → ℕ → Tables → Result ServiceError MusicPlaylist
unfolding area_id Rows.get
get identity id t = do area ← area_id identity; required (Rows.get area id t)

-- _append, of a track that the catalog has given
unfoldable append :
    ℕ → ℕ → ℕ → ActorContext → ℕ → MusicTrack → Tables → Result ServiceError (TrackRow × Tables)
unfolding area_id Rows.append
append max_playlist_tracks now entry_id identity id track t = do
  area ← area_id identity
  stored (Rows.append now entry_id area id track identity.person_id max_playlist_tracks t)

unfoldable remove :
    ℕ → ActorContext → ℕ → ℕ → Tables → Result ServiceError (PlaylistTrackRemoval × Tables)
unfolding area_id Rows.remove
remove now identity id entry_id t = do
  area ← area_id identity
  stored (Rows.remove now area id entry_id t)

unfoldable rename :
    (Text → Text)
    → (Text → Text)
    → ℕ
    → ActorContext
    → ℕ
    → Text
    → Tables
    → Result ServiceError (PlaylistRename × Tables)
unfolding area_id normalize_name Rows.rename
rename nfkc casefold now identity id name t = do
  area ← area_id identity
  names ← normalize_name nfkc casefold name
  stored (Rows.rename now area id names.0 names.1 t)

unfoldable delete : ActorContext → ℕ → Tables → Result ServiceError (PlaylistDeletion × Tables)
unfolding area_id Rows.delete
delete identity id t = do area ← area_id identity; ok (Rows.delete area id t)

unfoldable clear : ℕ → ActorContext → ℕ → Tables → Result ServiceError (PlaylistClear × Tables)
unfolding area_id Rows.clear
clear now identity id t = do area ← area_id identity; stored (Rows.clear now area id t)

-- tuple(entry.track for entry in playlist.entries)
abbrev pub tracks_of : MusicPlaylist → List MusicTrack
tracks_of p = map (λ (r : TrackRow). r.track) p.entries

-- deque(QueuedTrack(track, identity.person_id) for track in tracks), with the identities drawn
unfoldable pub queued_tracks : (ℕ → ℕ) → Text → ℕ → List MusicTrack → List QueuedTrack
queued_tracks ids person_id n [] = []
queued_tracks ids person_id n (track ∷ tracks) =
    record { track = track; requested_by = person_id; id = ids n }
    ∷ queued_tracks ids person_id (n + 1) tracks

abbrev pub has_no_tracks : List MusicTrack → Bool
has_no_tracks [] = true
has_no_tracks (track ∷ tracks) = false

abbrev pub loaded :
    MusicPlaylist
    → Result MusicError (QueueRebuildResult × Option ℕ) × MusicSession
    → Result ServiceError (PlaylistQueueLoad × Option ℕ) × MusicSession
loaded p (err e, s) = (err (of_music e), s)
loaded p (ok (queue, stopped), s) =
    (ok (record { playlist_id = p.id; playlist_name = p.name; queue = queue }, stopped), s)

abbrev pub load_found :
    ℕ
    → Surroundings
    → VoiceChannelKey
    → (ℕ → ℕ)
    → Text
    → MusicSession
    → Result ServiceError MusicPlaylist
    → Result ServiceError (PlaylistQueueLoad × Option ℕ) × MusicSession
load_found max_queue_length env channel ids person_id s (err e) = (err e, s)
load_found max_queue_length env channel ids person_id s (ok p) =
    let items = queued_tracks ids person_id 0 (tracks_of p) in
    if has_no_tracks (tracks_of p)
    then (err playlist_empty, s)
    else loaded p (replace_queue max_queue_length env channel items s)

-- load: its result with the playback that replace_queue stops, and the session.
unfoldable pub load :
    ℕ
    → Surroundings
    → VoiceChannelKey
    → (ℕ → ℕ)
    → ActorContext
    → ℕ
    → Tables
    → MusicSession
    → Result ServiceError (PlaylistQueueLoad × Option ℕ) × MusicSession
unfolding get queued_tracks replace_queue
load max_queue_length env channel ids identity id t s =
    load_found max_queue_length env channel ids identity.person_id s (get identity id t)
