-- ===== src/Music/Playlists/Importing.antt =====
-- What an import of features/music/playlists.py stores, and how it is loaded again.
use cywl_oopz.Prelude.{
  ==_refl, ◌+◌, nat_beq, suc, nat_beq_iff, ap, All, refl, ℕ, ◌≡◌, ◌≤◌, arith, Bool, true, false,
  List, [], ◌∷◌, ◌++◌, map, length, Option, some, ok, Result, Bool-cases, Result-cases, inl, inr,
}
use cywl_oopz.Prelude.Text.{Text, strip}
use cywl_oopz.Commands.Parsing.{is_empty}
use cywl_oopz.Music.Models.{MusicTrack}
use cywl_oopz.Music.Playlists.Rows
use cywl_oopz.Music.Playlists.Rows.{
  create_with_tracks, new_playlist, playlist_with, find_playlist, enumerate, order_by_position,
}
use cywl_oopz.Music.Playlists.Tables.{
  Tables, PlaylistRow, TrackRow, MusicPlaylist, is_of, is_playlist,
}
use cywl_oopz.Music.Playlists.Contents.{Unused}
use cywl_oopz.Music.Playlists.Numbering
use cywl_oopz.Music.Playlists.Identities.{keep-unused}
use cywl_oopz.Music.Playlists.Service
use cywl_oopz.Music.Playlists.Service.{
  ServiceError, normalize_name, area_id, ActorContext, NeteasePlaylistSnapshot,
  NeteasePlaylistImport, tracks_of, skipped_track_count,
}
use cywl_oopz.Music.Playlists.Imports.{
  imported, chosen_name, Source, preview_netease, check_snapshot, import_netease,
}

find_playlist-last :
    (area : Text) (p : PlaylistRow) (ps : List PlaylistRow)
    → All (λ (q : PlaylistRow). nat_beq q.id p.id ≡ false) ps
    → is_playlist area p.id p ≡ true
    → find_playlist area p.id (ps ++ p ∷ []) ≡ some p
unfolding find_playlist
find_playlist-last area p [] h own = ground (arith, own)
find_playlist-last area p (q ∷ ps) h own = ground (arith, h.0, find_playlist-last area p ps h.1 own)

tracks-enumerate :
    (now : ℕ) (ids : ℕ → ℕ) (id : ℕ) (by : Text) (n : ℕ) (tracks : List MusicTrack)
    → map (λ (r : TrackRow). r.track) (enumerate now ids id by n tracks) ≡ tracks
unfolding enumerate
tracks-enumerate now ids id by n [] = refl
tracks-enumerate now ids id by n (track ∷ tracks) =
    ap (track ∷◌) (tracks-enumerate now ids id by (n + 1) tracks)

length-enumerate :
    (now : ℕ) (ids : ℕ → ℕ) (id : ℕ) (by : Text) (n : ℕ) (tracks : List MusicTrack)
    → length (enumerate now ids id by n tracks) ≡ length tracks
unfolding enumerate
length-enumerate now ids id by n [] = refl
length-enumerate now ids id by n (track ∷ tracks) =
    ap suc (length-enumerate now ids id by (n + 1) tracks)

-- What get loads after create_with_tracks.
pub get-create_with_tracks :
    (now id : ℕ) (ids : ℕ → ℕ) (area name normalized : Text) (tracks : List MusicTrack) (by : Text)
    (t : Tables)
    → Unused id t.playlists t.tracks
    → let p = new_playlist now id area name normalized by in
      let entries = enumerate now ids id by 1 tracks in
      Rows.get area id (record { playlists = t.playlists ++ p ∷ []; tracks = t.tracks ++ entries })
      ≡ some (playlist_with p entries)
unfolding Rows.get
get-create_with_tracks now id ids area name normalized tracks by t fresh =
    let p = new_playlist now id area name normalized by in
    let entries = enumerate now ids id by 1 tracks in
    rw
      (
        find_playlist-last area p t.playlists fresh.0
            (rw ((nat_beq_iff id id).1 refl, ==_refl area) refl),
        Numbering.keep-append (is_of id) t.tracks entries,
        (keep-unused id t.tracks fresh.1).0,
        Numbering.keep-enumerate now ids id id by 1 tracks,
        (nat_beq_iff id id).1 refl,
        Numbering.order-Numbered 1 entries (Numbering.Numbered-enumerate now ids id by 1 tracks),
      )
      refl

create_with_tracks-ok :
    (now id : ℕ) (ids : ℕ → ℕ) (area name normalized : Text) (tracks : List MusicTrack) (by : Text)
    (max_tracks : ℕ) (t t' : Tables) (playlist : MusicPlaylist)
    → create_with_tracks now id ids area name normalized tracks by max_tracks t ≡ ok (playlist, t')
    → let p = new_playlist now id area name normalized by in
      let entries = enumerate now ids id by 1 tracks in
      (length tracks ≤ max_tracks)
      × (playlist ≡ playlist_with p entries)
      × (t' ≡ record { playlists = t.playlists ++ p ∷ []; tracks = t.tracks ++ entries })
unfolding create_with_tracks
create_with_tracks-ok now id ids area name normalized tracks by max_tracks t t' playlist e =
    ground (arith, e)

-- Nothing is skipped without leave to.
check_snapshot-whole :
    (limit : ℕ) (allow_partial : Bool) (snapshot : NeteasePlaylistSnapshot)
    → check_snapshot limit allow_partial snapshot ≡ ok tt
    → allow_partial ≡ false
    → snapshot.declared_track_count ≤ length snapshot.tracks
unfolding check_snapshot
check_snapshot-whole limit allow_partial snapshot e full = ground (arith, e, full)

-- The outcome of an import, and what the caller then loads.
pub record IsImported (identity : ActorContext) (id limit : ℕ) (allow_partial : Bool)
    (snapshot : NeteasePlaylistSnapshot) (outcome : NeteasePlaylistImport) (t : Tables)
    : Type 0 where
  pub kept : tracks_of outcome.playlist ≡ snapshot.tracks
  pub within : length outcome.playlist.entries ≤ limit
  pub whole : allow_partial ≡ false → skipped_track_count outcome ≡ 0
  pub stored : Service.get identity id t ≡ ok outcome.playlist

import_ok :
    (snapshot : NeteasePlaylistSnapshot) (playlist : MusicPlaylist) (t : Tables)
    (outcome : NeteasePlaylistImport) (t' : Tables)
    → ◌≡◌ {A = Result ServiceError (NeteasePlaylistImport × Tables)}
        (ok (imported snapshot (playlist, t)))
        (ok (outcome, t'))
    → (outcome ≡ (imported snapshot (playlist, t)).0) × (t' ≡ t)
import_ok snapshot playlist t outcome t' e = ground (arith, e)

imported-IsImported :
    (limit now id : ℕ) (ids : ℕ → ℕ) (identity : ActorContext) (normalized title : Text)
    (allow_partial : Bool) (t t' : Tables) (snapshot : NeteasePlaylistSnapshot)
    (playlist : MusicPlaylist)
    → Unused id t.playlists t.tracks
    → is_empty (strip identity.conversation.area_id) ≡ false
    → check_snapshot limit allow_partial snapshot ≡ ok tt
    → create_with_tracks now id ids
        (strip identity.conversation.area_id)
        title
        normalized
        snapshot.tracks
        identity.person_id
        limit
        t
      ≡ ok (playlist, t')
    → IsImported identity id limit allow_partial snapshot (imported snapshot (playlist, t')).0 t'
unfolding area_id Service.get
imported-IsImported limit now id ids identity normalized title allow_partial t t' snapshot playlist
      fresh given checked created =
    let area = strip identity.conversation.area_id in
    let by = identity.person_id in
    let (short, same, later) =
      create_with_tracks-ok now id ids area title normalized snapshot.tracks by limit t t' playlist
        created in
    let counted = length-enumerate now ids id by 1 snapshot.tracks in
    rw (same, later)
      (record {
        kept = tracks-enumerate now ids id by 1 snapshot.tracks;
        within = rw counted short;
        whole = λ full.
            rw counted
              (omega (arith, check_snapshot-whole limit allow_partial snapshot checked full));
        stored =
            rw
              (
                given,
                get-create_with_tracks now id ids area title normalized snapshot.tracks by t fresh,
              )
              refl;
      })

-- An import that succeeds has stored the source's tracks, all of them and in their order, within
-- the limit, and unless a part was allowed, none that the source declares is missing. The playlist
-- that it returns is what the caller then loads under its identity, which no row had before.
pub import_netease-get :
    (nfkc casefold : Text → Text) (source : Option Source) (limit now id : ℕ) (ids : ℕ → ℕ)
    (identity : ActorContext) (reference : Text) (name : Option Text) (allow_partial : Bool)
    (t t' : Tables) (snapshot : NeteasePlaylistSnapshot) (outcome : NeteasePlaylistImport)
    → Unused id t.playlists t.tracks
    → preview_netease source limit reference ≡ ok snapshot
    → import_netease nfkc casefold source limit now id ids identity reference name allow_partial t
      ≡ ok (outcome, t')
    → IsImported identity id limit allow_partial snapshot outcome t'
unfolding import_netease area_id Service.get
import_netease-get nfkc casefold source limit now id ids identity reference name allow_partial t t'
      snapshot outcome fresh previewed e =
    let area = strip identity.conversation.area_id in
    let chosen = chosen_name name snapshot.name in
    elim (Bool-cases (is_empty area)) [
      | inl none_given ↦ ground (arith, e, none_given)
      | inr given ↦ elim (Result-cases (check_snapshot limit allow_partial snapshot)) [
        | inr (problem, refused) ↦ ground (arith, e, given, previewed, refused)
        | inl (tt, checked) ↦ elim (Result-cases (normalize_name nfkc casefold chosen)) [
          | inr (problem, refused) ↦ ground (arith, e, given, previewed, checked, refused)
          | inl (names, named) ↦
              elim (Result-cases (
                create_with_tracks now id ids area names.0 names.1 snapshot.tracks
                  identity.person_id limit t)) [
                    | inr (problem, refused) ↦
                        ground (arith, e, given, previewed, checked, named, refused)
                    | inl ((playlist, t''), created) ↦
                        let (same, later) =
                          import_ok snapshot playlist t'' outcome t'
                            (ground (arith, e, given, previewed, checked, named, created)) in
                        rw (same, later)
                          (imported-IsImported limit now id ids identity names.1 names.0
                            allow_partial t t'' snapshot playlist fresh given checked created)
                  ]
        ]
      ]
    ]
