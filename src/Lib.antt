-- ===== src/Lib.antt =====
-- CYWL is a community bot: it chats, plays music in voice channels and lets administrators give
-- roles. This library models the parts of it that keep state under a lock and decide what happens,
-- and proves what they promise. Paths are from the repository's root.
--
-- Access/ models src/cywl_oopz/features/access/. Models.antt has the values of models.py, each with
-- a maker that runs its __post_init__; Policy.antt has policy.py, Service.antt AuthorizationService,
-- and Administration.antt RoleAdministrationService with the rows of repository.py as a list.
-- Roles, Visibility and Grants hold the proofs. A command asks `allows`; the roles that it reads are
-- those that `grant` and `revoke` wrote.
--
-- Music/ models src/cywl_oopz/features/music/: Session.antt is session.py, Requests.antt and
-- Controls.antt are the requests of service.py, Prepare.antt is track_playback.py, Attempt.antt has
-- the handlers of playback.py, and Worker.antt its loop. Requests and the worker share one
-- MusicSession and change it in sections under session.lock, one function each. What other tasks do
-- while the worker awaits something is a function of the session (Meanwhile), and Interleaving.antt
-- lists the requests that they can make. Consistency, Interleaving, Resting and Rounds prove an
-- invariant over all interleavings, Calm, Sums, Retries and Drain that the loop ends, and Enqueue,
-- Skipping, Shuffle, Cycle and Closing what single operations promise. Music/Playlists/ models
-- playlist_repository.py over the rows of its two tables (Tables, Rows) and states in Shelf what it
-- promises of the playlists alone; Contents and Refinement prove it, and Numbering, Identities,
-- Rearranged, Upkeep and Orderly the numbering of the entries. Service and Imports are playlists.py
-- over these rows and one session of the queue, with their proofs in Serving and Importing.
--
-- Chat/ models rate_limit.py and history.py of src/cywl_oopz/features/chat/ (RateLimit, History),
-- with their proofs in Leases and Trimming. Audio/ models source_queue.py of
-- src/cywl_oopz/features/audio/ (SourceQueue), with its proofs in Delivery, and of the same folder
-- the slices and cursors of models.py (Slices) and the playout ledger, ledger.py (Ledger/): Values,
-- Registering, Reconciling, Cursors and Remixing have its methods, each with what it leaves where it
-- raises; Tracked, Chained, Sound, Registered, Marked, Progress, Reconciled and Calls prove its
-- invariant, Frames, Survivors and Remixed what remix hands over, and Answers when a cursor is taken.
--
-- Commands/ models src/cywl_oopz/commands/parsing.py (Parsing), with its proofs in Words,
-- Tokens and Pieces.
--
-- Delegation/ models src/cywl_oopz/features/agent/delegation/: Models.antt has models.py, Rows,
-- Notices and Submissions the methods of repository.py over a list of rows, and Calls lists them.
-- Scheduler and Operations are scheduler.py, with an await of the repository as a Pass, and
-- Scheduling lists its events. Lifecycle, Held, Moves, Steps, Runs, Numbering and Claims hold the
-- proofs on the rows, Counting, Limits, Loop, Capacity, Work and Shrinking those on the scheduler,
-- and Restart those on both together, over a close and the next start.
--
-- VoiceLease/ models src/cywl_oopz/integrations/oopz/voice_lease.py: Manager has the sections of the
-- lease manager between its awaits, Tasks the tasks that use it, one event for each section, so that
-- a list of events is an interleaving. Exclusive and Owners hold the proofs on its owners, Silence
-- and Closed those on aclose.
--
-- Prelude/ has what the parts share: tests, lists over the native numbers, equality, results, and
-- Python's dict and str. Examples/ applies the theorems at concrete inputs.
--
-- Parameters stand for what is not in these files: the random generator (a function of the bound),
-- the clock (an argument, in whole ticks), the server's ORDER BY (a function that keeps the rows),
-- str.casefold and the NFKC normalization (functions on texts), the answers of the voice backend and
-- of the catalog (the records Surroundings and Answers, and arguments of the events of the voice
-- lease), the source of Netease playlists (a function), and the identities that uuid4 draws
-- (numbers). A stereo frame is a number. A transaction of the playlists sees the tables alone: the
-- lock of a playlist's row keeps its other changes away.
--
-- The worker's loop runs over a list of rounds, each with what it meets. Three rounds for each
-- queued track and one more are enough where nothing is repeated, since a track is retried once
-- after a failure of the backend and once after one of its media.
--
-- What other tasks do while a handler of the worker waits for session.lock, or for a playback to
-- stop, counts as done in the worker's last or next await.
--
-- Not modelled: log lines, MusicFailure.occurred_at, the mixing of audio samples, a cancellation
-- while a section waits for its lock or for voice.release, closing the service, and the table that
-- finds a session; of the playlists, the methods that look a track up in the catalog. The other
-- parts of the program (agent, voice, admin, web, the other commands, the other integrations,
-- storage) are not modelled either.
pub mod Prelude
pub mod Access
pub mod Music
pub mod Chat
pub mod Audio
pub mod Commands
pub mod Delegation
pub mod VoiceLease
pub mod Examples
