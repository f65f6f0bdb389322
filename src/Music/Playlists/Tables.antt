-- ===== src/Music/Playlists/Tables.antt =====
-- features/music/playlist_repository.py over the rows of its two tables: each method is one
-- transaction, a function of the tables, and `now` is the time that it reads. The identities that
-- uuid4 draws are arguments. A database error changes nothing. The rows of one playlist are read by
-- ORDER BY position alone, so their order in the list is the model's own.
use cywl_oopz.Prelude.{ℕ, Bool, ◌&&◌, List, Option, nat_beq, ◌==◌, nat_eq, list_eq}
use cywl_oopz.Prelude.Text.{Text}
use cywl_oopz.Music.Models.{MusicTrack}

pub record PlaylistRow : Type 0 where
  pub id : ℕ
  pub area_id : Text
  pub name : Text
  pub normalized_name : Text
  pub created_by : Text
  pub created_at : ℕ
  pub updated_at : ℕ

pub record TrackRow : Type 0 where
  pub id : ℕ
  pub playlist_id : ℕ
  pub position : ℕ
  pub track : MusicTrack
  pub added_by : Text
  pub created_at : ℕ

pub record Tables : Type 0 where
  pub playlists : List PlaylistRow
  pub tracks : List TrackRow

-- MusicPlaylistEntry has the columns of a track's row.
pub record MusicPlaylist : Type 0 where
  pub id : ℕ
  pub area_id : Text
  pub name : Text
  pub normalized_name : Text
  pub created_by : Text
  pub entries : List TrackRow
  pub created_at : ℕ
  pub updated_at : ℕ

pub record MusicPlaylistSummary : Type 0 where
  pub id : ℕ
  pub area_id : Text
  pub name : Text
  pub track_count : ℕ
  pub updated_at : ℕ

pub record PlaylistTrackRemoval : Type 0 where
  pub playlist_id : ℕ
  pub entry_id : ℕ
  pub removed : Bool

pub record PlaylistRename : Type 0 where
  pub playlist_id : ℕ
  pub old_name : Text
  pub new_name : Text
  pub changed : Bool

pub record PlaylistDeletion : Type 0 where
  pub playlist_id : ℕ
  pub name : Option Text
  pub deleted : Bool
  pub removed_track_count : ℕ

pub record PlaylistClear : Type 0 where
  pub playlist_id : ℕ
  pub name : Text
  pub removed_track_count : ℕ

pub data PlaylistError : Type 0 where
  playlist_not_found playlist_conflict playlist_full : PlaylistError

abbrev pub is_named : Text → Text → PlaylistRow → Bool
is_named area normalized_name p = p.area_id == area && p.normalized_name == normalized_name

-- WHERE id = playlist_id AND area_id = area_id
abbrev pub is_playlist : Text → ℕ → PlaylistRow → Bool
is_playlist area id p = nat_beq p.id id && p.area_id == area

abbrev pub is_of : ℕ → TrackRow → Bool
is_of playlist_id r = nat_beq r.playlist_id playlist_id
