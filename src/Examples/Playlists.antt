-- ===== src/Examples/Playlists.antt =====
-- The playlists' theorems at one playlist of two tracks, of which the first is taken out.
use mathlib.Core.Option.{join}
use cywl_oopz.Commands.Parsing.{split_from, split_from, split}
use mathlib.Core.Option
use cywl_oopz.Music.Models.{QueuedTrack}
use cywl_oopz.Music.Session.{MusicSession, new_session}
use cywl_oopz.Music.Requests.{reserve_voice, start_worker}
use cywl_oopz.Music.Controls.{replace_queue}
use cywl_oopz.Music.Playlists.Service
use cywl_oopz.Music.Playlists.Service.{
  ServiceError, ActorContext, NeteasePlaylistSnapshot, NeteasePlaylistImport, PlaylistQueueLoad,
  load, area_id, normalize_name, queued_tracks,
}
use cywl_oopz.Music.Playlists.Imports.{import_netease, preview_netease, check_snapshot}
use cywl_oopz.Music.Playlists.Serving.{load-queue}
use cywl_oopz.Music.Playlists.Importing.{IsImported, import_netease-get}
use cywl_oopz.Examples.Music.{channel, song, granting}
use cywl_oopz.Music.Playlists.Tables.{Tables}
use cywl_oopz.Music.Playlists.Rows.{
  enumerate, insert_by_position, create_with_tracks, order_by_position, new_track, new_playlist,
  playlist_with, get, create, append, find_playlist,
}
use cywl_oopz.Music.Playlists.Shelf.{
  Entry, Album, Change, creates, appends, removes, change, shelf, spec, find_album,
}
use cywl_oopz.Music.Playlists.Rearranged.{IsOrderly}
use cywl_oopz.Music.Playlists.Refinement.{shelf_after, change-shelf}
use cywl_oopz.Music.Playlists.Orderly.{
  run, no_tables, run-IsOrderly, AllDrawn, shown, InPlace, get-shelf,
}
use cywl_oopz.Prelude.{
  length, ◌+◌, ok, map, some, true, Result, false, none, ◌≡◌, refl, List, [], ◌∷◌,
}
use cywl_oopz.Prelude.Text.{is_space, lstrip, strip, codes}

abbrev changes : List Change
changes =
    creates 100 1 (codes "hall") (codes "Night") (codes "night") (codes "ann")
    ∷ appends 101 7 (codes "hall") 1 song (codes "ann") 2
    ∷ appends 102 8 (codes "hall") 1 song (codes "bob") 2
    ∷ []

abbrev tables : Tables
tables = run no_tables changes

changes-drawn : AllDrawn 2 no_tables changes
unfolding run change create append find_playlist
changes-drawn = (tt, ((tt, refl), (((refl, tt), refl), tt)))

run-IsOrderly_example : IsOrderly 2 tables
run-IsOrderly_example = run-IsOrderly 2 changes changes-drawn

tables-IsOrderly : IsOrderly 2 tables
tables-IsOrderly = run-IsOrderly 2 changes changes-drawn

change-shelf_example :
    shelf_after (change (removes 103 (codes "hall") 1 7) tables)
    ≡ spec (removes 103 (codes "hall") 1 7) (shelf tables)
change-shelf_example = change-shelf (removes 103 (codes "hall") 1 7) tables tt

get-shelf_example :
    (Option.map shown (get (codes "hall") 1 tables) ≡ find_album (codes "hall") 1 (shelf tables))
    × InPlace (get (codes "hall") 1 tables)
get-shelf_example = get-shelf 2 (codes "hall") 1 tables tables-IsOrderly

abbrev ann : ActorContext
ann = record {
  person_id = codes "ann";
  conversation = record {
    scope = codes "s";
    area_id = codes " hall ";
    channel_id = codes "desk";
    person_id = codes "ann";
  };
}

abbrev outcome : PlaylistQueueLoad
outcome = record {
  playlist_id = 1;
  playlist_name = codes "Night";
  queue = record {
    voice_channel = channel;
    loaded_count = 2;
    replaced_current = false;
    started_worker = true;
  };
}

abbrev later : MusicSession
later = (load 9 granting channel (λ n. n) ann 1 tables new_session).1

loads : load 9 granting channel (λ n. n) ann 1 tables new_session ≡ (ok (outcome, none), later)
unfolding load Service.get area_id strip lstrip is_space get find_playlist order_by_position
    insert_by_position queued_tracks replace_queue reserve_voice start_worker run change create
    append
loads = refl

load-queue_example :
    (a : Album) × (find_album (strip ann.conversation.area_id) 1 (shelf tables) ≡ some a)
    × (map (λ (q : QueuedTrack). q.track) later.queue ≡ map (λ (e : Entry). e.1) a.entries)
    × (outcome.queue.loaded_count ≡ length a.entries)
load-queue_example =
    load-queue 2 9 granting channel (λ n. n) ann 1 tables new_session later outcome none
      tables-IsOrderly loads

abbrev snapshot : NeteasePlaylistSnapshot
snapshot = record {
  source_id = codes "5";
  name = codes " Late  Show ";
  declared_track_count = 2;
  tracks = song ∷ song ∷ [];
}

abbrev import : Tables → Result ServiceError (NeteasePlaylistImport × Tables)
import =
    import_netease (λ s. s) (λ s. s) (some (λ reference limit. ok snapshot)) 9 104 2 (λ n. n + 20)
      ann (codes "5") none false

abbrev stored : NeteasePlaylistImport
stored = record {
  source_id = codes "5";
  source_name = codes " Late  Show ";
  declared_track_count = 2;
  playlist =
      playlist_with
        (new_playlist 104 2 (codes "hall") (codes "Late Show") (codes "Late Show") (codes "ann"))
        (new_track 104 21 2 1 song (codes "ann") ∷ new_track 104 22 2 2 song (codes "ann") ∷ []);
}

abbrev with_import : Tables
with_import = record {
  playlists =
      new_playlist 104 2 (codes "hall") (codes "Late Show") (codes "Late Show") (codes "ann") ∷ [];
  tracks = new_track 104 21 2 1 song (codes "ann") ∷ new_track 104 22 2 2 song (codes "ann") ∷ [];
}

imports_it : import no_tables ≡ ok (stored, with_import)
unfolding import_netease area_id strip lstrip is_space preview_netease check_snapshot normalize_name
    create_with_tracks split split_from join enumerate
imports_it = refl

import_netease-get_example : IsImported ann 2 9 false snapshot stored with_import
unfolding preview_netease
import_netease-get_example =
    import_netease-get (λ s. s) (λ s. s) (some (λ reference limit. ok snapshot)) 9 104 2
      (λ n. n + 20) ann (codes "5") none false no_tables with_import snapshot stored (tt, tt) refl
      imports_it
