-- ===== src/Music/Playlists/Rows.antt =====
-- features/music/playlist_repository.py over the rows of its two tables: each method is one
-- transaction, a function of the tables, and `now` is the time that it reads. The identities that
-- uuid4 draws are arguments. A database error changes nothing. The rows of one playlist are read by
-- ORDER BY position alone, so their order in the list is the model's own.
use cywl_oopz.Prelude.{
  ℕ, ◌+◌, ◌-◌, Bool, true, false, not, ◌&&◌, ◌||◌, List, [], ◌∷◌, ◌++◌, map, Option, none, some,
  if◌then◌else◌, ltb, leb, nat_beq, length, any, keep, count, Result, ok, err, ◌==◌, nat_eq,
  list_eq,
}
use cywl_oopz.Prelude.Text.{Text}
use cywl_oopz.Music.Models.{MusicTrack}
use cywl_oopz.Music.Playlists.Tables.{
  playlist_not_found, playlist_full, playlist_conflict, PlaylistRow, TrackRow, Tables,
  MusicPlaylist, MusicPlaylistSummary, PlaylistTrackRemoval, PlaylistRename, PlaylistDeletion,
  PlaylistClear, PlaylistError, is_named, is_playlist, is_of,
}

unfoldable pub find_playlist : Text → ℕ → List PlaylistRow → Option PlaylistRow
find_playlist area id [] = none
find_playlist area id (p ∷ rows) =
    if is_playlist area id p then some p else find_playlist area id rows

abbrev pub new_playlist : ℕ → ℕ → Text → Text → Text → Text → PlaylistRow
new_playlist now id area name normalized_name created_by = record {
  id = id;
  area_id = area;
  name = name;
  normalized_name = normalized_name;
  created_by = created_by;
  created_at = now;
  updated_at = now;
}

abbrev pub playlist_with : PlaylistRow → List TrackRow → MusicPlaylist
playlist_with p entries = record {
  id = p.id;
  area_id = p.area_id;
  name = p.name;
  normalized_name = p.normalized_name;
  created_by = p.created_by;
  entries = entries;
  created_at = p.created_at;
  updated_at = p.updated_at;
}

-- create; the unique constraint is on the area and the normalized name.
unfoldable pub create :
    ℕ → ℕ → Text → Text → Text → Text → Tables → Result PlaylistError (MusicPlaylist × Tables)
create now id area name normalized_name created_by t =
    let p = new_playlist now id area name normalized_name created_by in
    if any (is_named area normalized_name) t.playlists
    then err playlist_conflict
    else ok (playlist_with p [], record t { playlists = t.playlists ++ p ∷ [] })

-- The tracks of a playlist, by their positions.
unfoldable pub insert_by_position : TrackRow → List TrackRow → List TrackRow
insert_by_position r [] = r ∷ []
insert_by_position r (s ∷ rows) =
    if leb r.position s.position then r ∷ s ∷ rows else s ∷ insert_by_position r rows

unfoldable pub order_by_position : List TrackRow → List TrackRow
unfolding insert_by_position
order_by_position [] = []
order_by_position (r ∷ rows) = insert_by_position r (order_by_position rows)

abbrev pub found_playlist : Tables → Option PlaylistRow → Option MusicPlaylist
found_playlist t none = none
found_playlist t (some p) = some (playlist_with p (order_by_position (keep (is_of p.id) t.tracks)))

-- get
unfoldable pub get : Text → ℕ → Tables → Option MusicPlaylist
unfolding find_playlist order_by_position
get area id t = found_playlist t (find_playlist area id t.playlists)

-- list, in an order of the server that only moves rows.
unfoldable pub list :
    (List PlaylistRow → List PlaylistRow) → Text → Tables → List MusicPlaylistSummary
list order area t =
    map
      (λ (p : PlaylistRow). record {
        id = p.id;
        area_id = p.area_id;
        name = p.name;
        track_count = count (is_of p.id) t.tracks;
        updated_at = p.updated_at;
      })
      (order (keep (λ (p : PlaylistRow). p.area_id == area) t.playlists))

-- playlist.updated_at = now, for the row of an identity.
abbrev pub touch : ℕ → ℕ → PlaylistRow → PlaylistRow
touch now id p = if nat_beq p.id id then record p { updated_at = now } else p

abbrev pub new_track : ℕ → ℕ → ℕ → ℕ → MusicTrack → Text → TrackRow
new_track now id playlist_id position track added_by = record {
  id = id;
  playlist_id = playlist_id;
  position = position;
  track = track;
  added_by = added_by;
  created_at = now;
}

abbrev pub append_found :
    ℕ
    → ℕ
    → ℕ
    → MusicTrack
    → Text
    → ℕ
    → Tables
    → Option PlaylistRow
    → Result PlaylistError (TrackRow × Tables)
append_found now entry_id id track added_by max_tracks t none = err playlist_not_found
append_found now entry_id id track added_by max_tracks t (some p) =
    let entry = new_track now entry_id id (count (is_of id) t.tracks + 1) track added_by in
    if leb max_tracks (count (is_of id) t.tracks)
    then err playlist_full
    else ok (
      entry,
      record { playlists = map (touch now id) t.playlists; tracks = t.tracks ++ entry ∷ [] },
    )

unfoldable pub append :
    ℕ → ℕ → Text → ℕ → MusicTrack → Text → ℕ → Tables → Result PlaylistError (TrackRow × Tables)
unfolding find_playlist
append now entry_id area id track added_by max_tracks t =
    append_found now entry_id id track added_by max_tracks t (find_playlist area id t.playlists)

-- enumerate(tracks, start=position), with the identities that are drawn for them.
unfoldable pub enumerate : ℕ → (ℕ → ℕ) → ℕ → Text → ℕ → List MusicTrack → List TrackRow
enumerate now ids id added_by position [] = []
enumerate now ids id added_by position (track ∷ tracks) =
    new_track now (ids position) id position track added_by
    ∷ enumerate now ids id added_by (position + 1) tracks

unfoldable pub create_with_tracks :
    ℕ
    → ℕ
    → (ℕ → ℕ)
    → Text
    → Text
    → Text
    → List MusicTrack
    → Text
    → ℕ
    → Tables
    → Result PlaylistError (MusicPlaylist × Tables)
unfolding enumerate
create_with_tracks now id ids area name normalized_name tracks created_by max_tracks t =
    let p = new_playlist now id area name normalized_name created_by in
    let entries = enumerate now ids id created_by 1 tracks in
    if ltb max_tracks (length tracks)
    then err playlist_full
    else if any (is_named area normalized_name) t.playlists
    then err playlist_conflict
    else ok (
      playlist_with p entries,
      record { playlists = t.playlists ++ p ∷ []; tracks = t.tracks ++ entries },
    )

abbrev pub is_entry : ℕ → ℕ → TrackRow → Bool
is_entry id entry_id r = nat_beq r.id entry_id && is_of id r

unfoldable pub find_position : ℕ → ℕ → List TrackRow → Option ℕ
find_position id entry_id [] = none
find_position id entry_id (r ∷ rows) =
    if is_entry id entry_id r then some r.position else find_position id entry_id rows

-- position - 1, for the later entries of the playlist.
abbrev pub close_gap : ℕ → ℕ → TrackRow → TrackRow
close_gap id position r =
    if is_of id r && ltb position r.position then record r { position = r.position - 1 } else r

abbrev pub without : ℕ → ℕ → ℕ → List TrackRow → List TrackRow
without id entry_id position rows =
    map (close_gap id position) (keep (λ (r : TrackRow). not (is_entry id entry_id r)) rows)

abbrev pub remove_at : ℕ → ℕ → ℕ → Tables → Option ℕ → PlaylistTrackRemoval × Tables
remove_at now id entry_id t none =
    (record { playlist_id = id; entry_id = entry_id; removed = false }, t)
remove_at now id entry_id t (some position) = (
  record { playlist_id = id; entry_id = entry_id; removed = true },
  record {
    playlists = map (touch now id) t.playlists;
    tracks = without id entry_id position t.tracks;
  },
)

abbrev pub remove_found :
    ℕ → ℕ → ℕ → Tables → Option PlaylistRow → Result PlaylistError (PlaylistTrackRemoval × Tables)
remove_found now id entry_id t none = err playlist_not_found
remove_found now id entry_id t (some p) =
    ok (remove_at now id entry_id t (find_position id entry_id t.tracks))

unfoldable pub remove :
    ℕ → Text → ℕ → ℕ → Tables → Result PlaylistError (PlaylistTrackRemoval × Tables)
unfolding find_playlist find_position
remove now area id entry_id t = remove_found now id entry_id t (find_playlist area id t.playlists)

abbrev pub renamed : ℕ → ℕ → Text → Text → PlaylistRow → PlaylistRow
renamed now id name normalized_name p =
    if nat_beq p.id id
    then record p { name = name; normalized_name = normalized_name; updated_at = now }
    else p

-- Another playlist of the area has the name.
abbrev pub is_taken : ℕ → Text → Text → PlaylistRow → Bool
is_taken id area normalized_name p = not (nat_beq p.id id) && is_named area normalized_name p

abbrev pub rename_found :
    ℕ
    → Text
    → ℕ
    → Text
    → Text
    → Tables
    → Option PlaylistRow
    → Result PlaylistError (PlaylistRename × Tables)
rename_found now area id name normalized_name t none = err playlist_not_found
rename_found now area id name normalized_name t (some p) =
    let changed = not (p.name == name) || not (p.normalized_name == normalized_name) in
    let outcome : PlaylistRename = record {
      playlist_id = id;
      old_name = p.name;
      new_name = name;
      changed = changed;
    } in
    if not changed
    then ok (outcome, t)
    else if any (is_taken id area normalized_name) t.playlists
    then err playlist_conflict
    else ok
        (outcome, record t { playlists = map (renamed now id name normalized_name) t.playlists })

unfoldable pub rename :
    ℕ → Text → ℕ → Text → Text → Tables → Result PlaylistError (PlaylistRename × Tables)
unfolding find_playlist
rename now area id name normalized_name t =
    rename_found now area id name normalized_name t (find_playlist area id t.playlists)

abbrev pub delete_found : ℕ → Tables → Option PlaylistRow → PlaylistDeletion × Tables
delete_found id t none =
    (record { playlist_id = id; name = none; deleted = false; removed_track_count = 0 }, t)
delete_found id t (some p) = (
  record {
    playlist_id = id;
    name = some p.name;
    deleted = true;
    removed_track_count = count (is_of id) t.tracks;
  },
  record {
    playlists = keep (λ (q : PlaylistRow). not (nat_beq q.id id)) t.playlists;
    tracks = keep (λ r. not (is_of id r)) t.tracks;
  },
)

-- delete; the foreign key deletes the tracks of the playlist with it.
unfoldable pub delete : Text → ℕ → Tables → PlaylistDeletion × Tables
unfolding find_playlist
delete area id t = delete_found id t (find_playlist area id t.playlists)

abbrev pub clear_found :
    ℕ → ℕ → Tables → Option PlaylistRow → Result PlaylistError (PlaylistClear × Tables)
clear_found now id t none = err playlist_not_found
clear_found now id t (some p) = ok (
  record { playlist_id = id; name = p.name; removed_track_count = count (is_of id) t.tracks },
  record {
    playlists = map (touch now id) t.playlists;
    tracks = keep (λ r. not (is_of id r)) t.tracks;
  },
)

unfoldable pub clear : ℕ → Text → ℕ → Tables → Result PlaylistError (PlaylistClear × Tables)
unfolding find_playlist
clear now area id t = clear_found now id t (find_playlist area id t.playlists)
