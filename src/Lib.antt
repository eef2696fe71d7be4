-- ===== src/Lib.antt =====
-- The core of the in-house match server, as functions: groups, recruiting, matches, results.
--
-- A group's members play matches of ten. src/matches/matches.service.ts makes a match and takes it
-- through recruiting, locking and the two teams; src/results/results.service.ts takes a result, asks
-- the players to confirm it, and lets src/results/result-confirmation-policy.service.ts decide whether
-- it is confirmed, disputed or open; an admin settles a dispute. src/matchmaking/ proposes the teams.
-- Groups post what they look for in src/recruiting/recruiting.service.ts, where others apply; users
-- block and report one another in src/blocks/ and src/reports/; src/notifications/ keeps and delivers
-- what all of them announce; src/admin/ oversees.
-- The files below leave out the leading src/ of a path.
--
-- Files:
--   Common     lists, options, Boolean tests, tables as lists of rows (Rows, Keys) and the stable
--              sort of `Array.prototype.sort`
--   Model      Enums and Rows are the tables of prisma/schema.prisma, where a match carries its
--              players, its result with the confirmations, and its stats; World is the database
--              with the queues and the clock; Outcome is a value or an AppException; Action is a
--              handler, which keeps what it wrote when it throws later, and holds the audit log,
--              createMany of src/notifications/notification.service.ts and src/queue/queue.service.ts
--   Groups     src/groups/groups.service.ts: access, assertGroupMember, assertGroupAdmin,
--              capabilities; Changes and Handlers are createGroup, updateGroup, deleteGroup and
--              addMember, Members and GroupRequests what they keep
--   Blocks     src/blocks/: Handlers are blockUser and unblockUser, Spec the relation behind the rows
--   Auth       src/auth/auth.service.ts: Accounts and SignUp are signupWithEmail and
--              loginWithSocialIdentity, Handlers loginWithEmail, issueTokens, refresh and logout, with
--              the libraries for tokens and hashes as the parameter `Ports`; Sessions, Rotation and
--              SignedUp relate them
--              Strategy is the guard of src/auth/jwt.strategy.ts
--   Users      src/users/users.service.ts: who may see whom, Handlers (the profile, its image, and
--              withdrawMe), Invites (findInviteUsers, and searchMemberCandidates of the groups);
--              Withdrawn and Invitable relate them to the sessions and to addMember
--   Accounts   the requests of src/auth/auth.controller.ts, src/users/me.controller.ts and
--              src/blocks/blocks.controller.ts behind their guard, and what all of them keep
--   Recruiting  src/recruiting/recruiting.service.ts: what is checked, Detail (the response for a
--              post), Changes (the writes), Handlers, Listing (the lists); Ready, Sound, Applied and
--              Requests lead to what the handlers keep, RoundTrip, Flags and Listed relate them
--   Reports    src/reports/reports.service.ts, with Window on repeated reports
--   Notifications  reading and delivery in src/notifications/notification.service.ts: Life, Delivery
--   Admin      src/admin/admin.service.ts: the writes and the pages of a list
--   Matches    src/matches/matches.service.ts: Access (who may), Roster (players), Teams (seats and
--              readiness), Guards (what is refused), Handlers (createMatch, addPlayers,
--              updatePlayer, lockMatch, saveManualBalance, assignCandidate, reopenMatch), Effects
--   Results    src/results/results.service.ts: Input, Preview, Rows (the writes), Guards, Handlers
--              (submitQuickResult, confirmResult, adminResolveDispute, finalizeResultStatus),
--              Dispute (buildDisputeSummary); Policy is the confirmation policy, with what
--              its verdicts rest on; Readiness, Finality, Repeated and Recipients relate them
--   Lifecycle  what the rows of a match owe each other, handler by handler; Reach is the worlds
--              that the service can come to, and Balanced puts reroll among its steps
--   Matchmaking  generateCandidates of src/matchmaking/matchmaking-algorithm.service.ts: Combinations,
--              Roles (the search for a team's roles), Metrics, Splits, Candidates (the scores and the
--              choice for each mode); Optimum, Seating, Locks and Chosen say what comes out. History, Service
--              and Handlers are autoBalance and reroll of src/matchmaking/matchmaking.service.ts,
--              with the answer of src/power/power.service.ts as an argument; Kept and Rerolled say what a reroll does
--   Examples   a match played through, and the theorems at it
--
-- How it is modelled. Ids and times are numbers, since the code only compares them. A handler is
-- named after its method in snake_case: `X_ready` is what it reads and refuses before its first
-- write, and the handler writes, logs, notifies and enqueues in the order of the code. A
-- transaction is one write of the match with its rows. Handlers run one after the other; requests
-- that interleave between their reads and their writes are not modelled. A row is
-- looked up and updated as the first one with its key, since keys are unique. Every definition of
-- the code is structurally recursive; a client that walks through pages takes fuel, one step for
-- each row that is left. The tests of seven tenths are tests of doubles, and
-- are written over whole numbers: 10 * confirmed >= 7 * participants gives the same answer for
-- counts below 2 ^ 49. The metrics and scores of candidates are computed in the order of the code
-- over doubles that are a parameter (`Doubles`), and so are the texts of ids (`KeyTexts`). A date
-- in a query is a whole day or an instant, as it was parsed.
--
-- Not modelled: the shapes of responses, messages and log lines; the JSON payloads of the audit
-- log, and the reasons of a failed balance; previewBalance; power profiles, the positions that
-- are derived from them, the history and statistics of a user; the verification of tokens of Apple
-- and Google, src/riot/, the lists of groups and most of those of src/admin/; the web
-- framework, the file storage behind its interface and the database client.
pub mod Common
pub mod Model
pub mod Notifications
pub mod Blocks
pub mod Groups
pub mod Auth
pub mod Users
pub mod Accounts
pub mod Recruiting
pub mod Reports
pub mod Admin
pub mod Matches
pub mod Results
pub mod Lifecycle
pub mod Matchmaking
pub mod Examples
