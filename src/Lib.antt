-- ===== src/Lib.antt =====
-- A model of zorkd, a web host for Zork: what a player's commands do to stored games, who a request
-- comes from, and how often it may ask.
--
-- The parts, and where they are modelled:
--   Base, Go       numbers, bytes as texts, maps as association lists; what the program uses of Go's
--                  packages utf8, unicode, strings, strconv and slices. The tables of unicode are a
--                  parameter (Unicode) with the documented facts about ASCII.
--   Errors         an error as the row of sentinels that it wraps, and errors.Is.
--   Game           internal/game. Types: the records. Fault: Classify and Retryable (errors.go).
--                  Command: Interpret (command.go). Transcript: appendTranscript, appendNotice and
--                  trimTranscript (transcript.go). SaveName: CleanSaveName (saves.go). Runner:
--                  NewRunner, Start and Run (turn.go). Library: NewLibrary (library.go). Store: the
--                  interface Store of session.go, with the laws that its documentation promises.
--                  Memory: MemoryStore (memstore.go). Screen and Service: the service of session.go
--                  and saves.go (NewGame, Play, Restart, Save, Restore and the rest). Lock: keyedMutex
--                  of session.go, as a step relation on goroutines.
--   Login          internal/session, over the table of internal/database/authsessions.go (Rows).
--   Database       internal/database: Games the statements of sessions.go, Saves those of saves.go,
--                  over tables of rows with the constraints of migrations/. Contract: they keep the
--                  laws of Store. Integrity: what the tables keep to. Privacy: what a statement does to
--                  the rows of other users. Opening: database.go, with the checks of a path, the
--                  creation of a file and DB.migrate.
--   Migrations     migrations/migrations.go: the order of the embedded scripts.
--   Account        internal/auth. Password: password.go. Users: internal/database/users.go. Service:
--                  Register, Authenticate and User (auth.go).
--   Invite         internal/invite, over the table of internal/database/invitations.go (Rows).
--   Web            internal/httpserver/game.go, with answers of saves.go there: playTurn, restartGame,
--                  deleteGame and askAbout. Views: the values that the templates draw, and their
--                  builders in game.go. Saves: the handlers of saves.go. Pages: the lobby, the
--                  page of a game and that of its saves. Session: logIn, logOut, register and the
--                  forms of auth.go, and requireUser of server.go. Routes: the routes of server.go,
--                  over one state of browser sessions, accounts, invitations and games. Health: the
--                  loop and the answer of health.go. Isolation: what one request does to the games of
--                  another user.
--   Cmd            Reaper: cmd/zorkd/reaper.go. Policy: checkCookiePolicy, env, envDuration
--                  and what run makes of its first argument (cmd/zorkd/main.go). Play: the loop of
--                  cmd/zorkplay/main.go.
--   Limiter, Proxy internal/httpserver/ratelimit.go: token buckets, and the address of a request.
--   Terminal       internal/terminal: a turn printed for a character terminal.
--   Examples       concrete inputs at which the theorems are applied.
--
-- How they interact: Service reads a game from its Store, runs it on the engine through Runner, and
-- writes it back, conditional on the version that it read. The engine (package zmachine), SHA-256,
-- base64, net and netip are parameters, and so are the arithmetic of float64, bufio.Scanner and, for
-- opening a database, the SQLite driver, os and filepath. A call is a function from the store to a
-- result and the store after it, since what was written before a failure stays written. An operation
-- of the service holds its game's lock (Lock) from its read to its write, and the memory store holds
-- its own, so each is one step; so is a statement or a transaction of the database. The services of
-- accounts and of invitations call the tables directly. Redeem looks an invitation up before its
-- transaction, so the tables that it reads first are an argument of their own. The key that SQLite
-- gives a new row, and Argon2id with its encoding, are parameters (Sqlite, Crypto) with the facts
-- that are documented.
--
-- Bounds and fuel: runes, decimals and wrapping take a byte at least with each round, so the length
-- of the text is fuel enough; evicting drops a key with each round, so the number of keys is.
-- Tokens of a bucket are multiples of the least float64, and its rounded operations are a parameter.
-- Durations and widths of zero or less are zero.
--
-- Not modelled: a connection to the database that fails, and a stored time or key that cannot be
-- read; in DeleteSave, a save that is gone between the two statements; the options of the pool of
-- connections, and Ping. Of the web host, the text of the templates, the static files, the
-- cross-origin check, the log, and New with what it checks of its configuration. Of the commands, the
-- flags, the subcommands that initialize a database, invite and notify, the signals and the order
-- in which the process is put together and taken down. The channels of the probe are the events of
-- its loop. The time that a login takes is not modelled, so neither is what the decoy hash is for.
-- keyedMutex is modelled apart from the service: that an operation is one step is how the service
-- is written here, and so is each request.
pub mod Base
pub mod Go
pub mod Errors
pub mod Game
pub mod Migrations
pub mod Login
pub mod Database
pub mod Invite
pub mod Web
pub mod Cmd
pub mod Terminal
pub mod Account
pub mod Limiter
pub mod Proxy
pub mod Examples
