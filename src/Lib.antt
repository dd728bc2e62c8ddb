-- ===== src/Lib.antt =====
-- A verification library of circleftp-jellyfin: the server (packages/server), from what it reads of
-- the upstream site to the files that it writes and the accounts that it keeps, and the list of
-- downloads that the browser folds from the server's events (packages/web).
--
-- The parts and their files.
-- * Circleftp is packages/server/src/circleftp. Circleftp.Types is types.ts; Circleftp.Text is
--   `sanitize` of text.ts, Text.Patterns, Text.Numbers and Text.Names its parsers, whose regular
--   expressions are functions that consume the front of a text; Circleftp.Plan the data and
--   `deduplicatePaths` of plan.ts and Plan.Build `buildPlan`; Circleftp.Client client.ts,
--   Circleftp.Search search.ts, Circleftp.Probe probe.ts, whose `probeSizes` is a relation of the
--   steps of its workers in Probe.Pool, and Circleftp.Posters imageCache.ts with the route of the
--   posters in routes/library.ts. A text is the list of its character codes.
-- * Downloads.Paths is downloads/paths.ts: `resolve_destination` joins the media root, the
--   sanitised folder and the sanitised segments by Node's `path.resolve`, which is written out
--   for POSIX paths; the root enters absolute and normal, as `path.resolve(env.MEDIA_ROOT)` gives
--   it.
-- * Downloads.Disk is what the code uses of node:fs: the content at each path.
-- * Downloads.Fetcher is downloads/fetcher.ts. A host is a function from the `Range` header to a
--   reply; a reply holds the chunks and the timer's ticks in the order in which they happen, and
--   how many bytes had reached the disk if the transfer fails. Fetcher.Transfer is the counting
--   stream with its stall timer, Fetcher.Headers `totalFromHeaders`, and Fetcher.Serving what is
--   relied on in an honest host: the meaning of the statuses 200, 206 and 416.
-- * Downloads.Model is the rows of packages/server/prisma/schema.prisma with the statuses of
--   packages/shared/src/enums.ts; Downloads.Rows the writes of downloads/queue.ts to them;
--   Downloads.Job `processFile`, `processJob` and `finishJob`; Downloads.Queue the class
--   `DownloadQueue` with `recoverFromCrash`, `drain`, `abort` and `shutdown`; Downloads.Progress
--   its chain of progress writes, which land between the job's own, as a relation of database
--   calls.
-- * Downloads.Service is downloads/service.ts: create, cancel, retry and delete over the table;
--   Downloads.Listing its `listDownloads`, Downloads.Speed its speed samples and Downloads.Dto
--   its DTOs.
-- * Routes.Downloads is packages/server/src/routes/downloads.ts: the handlers of parsed requests,
--   and sequences of them; Routes.Accounts is routes/auth.ts and routes/account.ts, and
--   Routes.Admin routes/admin.ts, over the operations of Auth.
-- * Routes.Library is routes/library.ts: the search and the page of a title, with the size that a
--   probe gives each file as an argument.
-- * Routes.Http is lib/http.ts, the errors of a request as they are sent, and Web.Client is
--   packages/web/src/api/client.ts, which reads them; Web.SignedIn is
--   packages/web/src/auth/AuthContext.tsx, with the requests that are lost on the way.
-- * Routes.Events is routes/events.ts over the bus of lib/events.ts: the open streams between
--   their awaits. Format is packages/shared/src/format.ts.
-- * System is packages/server/src/index.ts: the server as a relation of its steps, which are the
--   requests, the wake-ups of the queue, the ends of jobs, shutdowns and restarts.
-- * Web.Live is packages/web/src/hooks/useDownloads.tsx: `applyEvent` and the fold over a stream.
--   Web.Users, Web.Jobs and Web.Title are what the pages admin/Users.tsx, Downloads.tsx and
--   Title.tsx of packages/web/src/pages offer and send, the last with `toStringArray` of
--   packages/shared/src/schemas.ts.
-- * Cli is packages/server/src/cli/manage.ts: the flags in Cli.Parsing, and the commands on
--   accounts.
-- * Auth is packages/server/src/auth over the tables of users, sessions, invites and resets,
--   which Auth.Model holds with the deletions that the foreign keys of the schema cause:
--   Auth.Users is users.ts, Auth.Admin admin.ts with its lists in Admin.Listing, Auth.Session
--   session.ts, Auth.Reset passwordReset.ts and Auth.Middleware the guards of middleware.ts;
--   Auth.Changes runs their changes one after the other. The hash of a token is a parameter; the
--   hash of a password, random tokens and codes, and the keys of new rows are arguments.
-- * Base.Result is lib/errors.ts: what throws an `ApiError` returns it.
--
-- How they interact: a request of Service changes the table of rows; Queue claims a QUEUED row and
-- hands it to Job, which asks Paths for the destination of each file, lets Fetcher transfer it, and
-- writes the outcome by Rows. A creation asks Client for the post and Plan.Build for its files. Each
-- request publishes an event, and Web.Live folds the events into the list that the browser shows.
--
-- Bounds and fuel. `process_file` recurses on fuel; `max_attempts` is enough, since every further
-- call has one attempt more and stops at that number. `drain` has one round for every QUEUED row,
-- which is enough, since every round takes one away. `decimal` has one round more than its number.
-- All other functions are structural. Numbers are natural numbers; the 64-bit integers of the
-- database and the rounding of doubles above 2 ^ 53 are not modelled.
--
-- The platform's `URL`, `decodeURIComponent`, `encodeURIComponent`, `Number` on names, `JSON.parse` and
-- SHA-256 are parameters. `toLowerCase` is that of ASCII letters.
--
-- Not modelled: the database itself, whose updates are functions on rows and whose failures are
-- left out; the interleaving of two handlers or of two jobs between two awaits, except for the
-- cancellation of a running job, which may arrive at every file, for two changes of accounts in
-- Auth.Admin.Race, for two creations in Downloads.Service.Race, and for the writes of progress in
-- Downloads.Progress; directories; delays and time-outs; the parsing of requests, the rate limits
-- and the hashing of passwords; `enrichSeries`, which fills in counts for display;
-- post-processing, the remaining routes, which only read and list, the commands that list users
-- and make invites, and what the pages of the web client display.
mod Base
pub mod Circleftp
pub mod Auth
pub mod Downloads
pub mod Routes
pub mod Web
pub mod Cli
pub mod Format
pub mod System
