-- ===== src/Music/Playlists/Rearranged.antt =====
-- The invariant of the tables of features/music/playlist_repository.py, and what get reads of them.
use mathlib.Core.List.{append-nil}
use cywl_oopz.Prelude.{
  nat_eq, list_eq, if_ind, refl, ℕ, ◌+◌, ◌≤◌, ◌<◌, ◌≡◌, false, not, List, [], ◌∷◌, ◌++◌, some,
  arith, nat_beq, nat_beq_iff, length, All, keep, count, count-append, Bool-cases, inl, inr,
}
use cywl_oopz.Prelude.Text.{Text}
use cywl_oopz.Music.Models.{MusicTrack}
use cywl_oopz.Music.Playlists.Tables.{PlaylistRow, TrackRow, Tables, is_of}
use cywl_oopz.Music.Playlists.Rows.{new_track, enumerate, without, is_entry, find_position}
use cywl_oopz.Music.Playlists.Shelf.{
  Change, creates, imports, appends, removes, renames, deletes, clears,
}
use cywl_oopz.Music.Playlists.Numbering
use cywl_oopz.Music.Playlists.Numbering.{Numbered, Unseen, Distinct}
use cywl_oopz.Music.Playlists.Identities.{
  Distinct-append, Distinct-enumerate, Apart-enumerate, Distinct-keep, Distinct-close_gap,
  count-keep-le, count-close_gap, count-enumerate, keep-unused,
}

-- Every playlist has at most max_tracks entries, at the positions 1, 2 and so on, and no two
-- entries have one identity.
pub record IsOrderly (max_tracks : ℕ) (t : Tables) : Type 0 where
  pub numbered : (id : ℕ) → Numbered 1 (keep (is_of id) t.tracks)
  pub distinct : Distinct t.tracks
  pub within : (id : ℕ) → count (is_of id) t.tracks ≤ max_tracks

-- The identities that uuid4 draws are new, and the limit is that of the settings.
abbrev pub IsDrawn : ℕ → Change → Tables → Type 0
IsDrawn limit (creates now id area name normalized by) t = Unit
IsDrawn limit (imports now id ids area name normalized tracks by max_tracks) t =
    All (λ r. is_of id r ≡ false) t.tracks
    × ((i : ℕ) → Unseen (ids i) t.tracks)
    × ((i j : ℕ) → ids i ≡ ids j → i ≡ j)
    × (max_tracks ≡ limit)
IsDrawn limit (appends now entry_id area id track by max_tracks) t =
    Unseen entry_id t.tracks × (max_tracks ≡ limit)
IsDrawn limit (removes now area id entry_id) t = Unit
IsDrawn limit (renames now area id name normalized) t = Unit
IsDrawn limit (deletes area id) t = Unit
IsDrawn limit (clears now area id) t = Unit

pub appended-IsOrderly :
    (limit now entry_id id : ℕ) (track : MusicTrack) (by : Text) (t : Tables)
    (ps : List PlaylistRow)
    → IsOrderly limit t
    → Unseen entry_id t.tracks
    → count (is_of id) t.tracks < limit
    → IsOrderly limit (record {
      playlists = ps;
      tracks = t.tracks ++ new_track now entry_id id (count (is_of id) t.tracks + 1) track by ∷ [];
    })
appended-IsOrderly limit now entry_id id track by t ps o u room =
    let new = new_track now entry_id id (count (is_of id) t.tracks + 1) track by in
    record {
      numbered = λ q. rw (Numbering.keep-append (is_of q) t.tracks (new ∷ [])) (
          Numbering.Numbered-append 1 (keep (is_of q) t.tracks) (keep (is_of q) (new ∷ []))
            (o.numbered q)
            (if_ind (Numbered (1 + length (keep (is_of q) t.tracks))) (nat_beq id q)
              (λ same.
                (ground (arith, nat_beq_iff id q, Numbering.length-keep (is_of q) t.tracks), tt))
              (λ _. tt)));
      distinct = Distinct-append t.tracks (new ∷ []) o.distinct (tt, tt) (u, tt);
      within = λ q.
          ground
            (arith, count-append (is_of q) t.tracks (new ∷ []), o.within q, nat_beq_iff id q, room);
    }

pub imported-IsOrderly :
    (limit now id : ℕ) (ids : ℕ → ℕ) (tracks : List MusicTrack) (by : Text) (t : Tables)
    (ps : List PlaylistRow)
    → IsOrderly limit t
    → All (λ r. is_of id r ≡ false) t.tracks
    → ((i : ℕ) → Unseen (ids i) t.tracks)
    → ((i j : ℕ) → ids i ≡ ids j → i ≡ j)
    → length tracks ≤ limit
    → IsOrderly limit
        (record { playlists = ps; tracks = t.tracks ++ enumerate now ids id by 1 tracks })
imported-IsOrderly limit now id ids tracks by t ps o unused unseen injective room =
    let more = enumerate now ids id by 1 tracks in
    let (none_kept, none_counted) = keep-unused id t.tracks unused in
    record {
      numbered = λ q. elim (Bool-cases (nat_beq id q)) [
        | inl same ↦
            let e = (nat_beq_iff id q).0 same in
            rw
              (
                ← e,
                Numbering.keep-append (is_of id) t.tracks more,
                none_kept,
                Numbering.keep-enumerate now ids id id by 1 tracks,
                (nat_beq_iff id id).1 refl,
              )
              (Numbering.Numbered-enumerate now ids id by 1 tracks)
        | inr other ↦
            rw
              (
                Numbering.keep-append (is_of q) t.tracks more,
                Numbering.keep-enumerate now ids id q by 1 tracks,
                other,
                append-nil,
              )
              (o.numbered q)
      ];
      distinct =
          Distinct-append t.tracks more o.distinct
            (Distinct-enumerate now ids id by 1 tracks injective)
            (Apart-enumerate now ids id by 1 tracks t.tracks unseen);
      within = λ q. ground (
        arith,
        count-append (is_of q) t.tracks more,
        count-enumerate now ids id q by 1 tracks,
        nat_beq_iff id q,
        o.within q,
        none_counted,
        room,
      );
    }

pub emptied-IsOrderly :
    (limit id : ℕ) (t : Tables) (ps : List PlaylistRow)
    → IsOrderly limit t
    → IsOrderly limit (record { playlists = ps; tracks = keep (λ r. not (is_of id r)) t.tracks })
emptied-IsOrderly limit id t ps o = record {
  numbered = λ q.
      rw (Numbering.emptied_other id q t.tracks)
        (if_ind (Numbered 1) (nat_beq q id) (λ _. tt) (λ _. o.numbered q));
  distinct = Distinct-keep (λ r. not (is_of id r)) t.tracks o.distinct;
  within = λ q. omega (arith, o.within q, count-keep-le (is_of q) (λ r. not (is_of id r)) t.tracks);
}

pub removed-IsOrderly :
    (limit id entry_id position : ℕ) (t : Tables) (ps : List PlaylistRow)
    → IsOrderly limit t
    → find_position id entry_id t.tracks ≡ some position
    → IsOrderly limit (record { playlists = ps; tracks = without id entry_id position t.tracks })
removed-IsOrderly limit id entry_id position t ps o found =
    let rest = keep (λ (r : TrackRow). not (is_entry id entry_id r)) t.tracks in
    record {
      numbered = λ q. elim (Bool-cases (nat_beq q id)) [
        | inl same ↦ rw ((nat_beq_iff q id).0 same) (
            Numbering.Numbered-without id entry_id 1 position t.tracks o.distinct (o.numbered id)
              found)
        | inr other ↦
            rw (Numbering.without_other id q entry_id position t.tracks other) (o.numbered q)
      ];
      distinct =
          Distinct-close_gap id position rest
            (Distinct-keep (λ (r : TrackRow). not (is_entry id entry_id r)) t.tracks o.distinct);
      within = λ q. omega (
        arith,
        o.within q,
        count-close_gap q id position rest,
        count-keep-le (is_of q) (λ (r : TrackRow). not (is_entry id entry_id r)) t.tracks,
      );
    }
