-- ===== src/Lib.antt =====
-- PicoAide keeps AI agents for the users of a company. A Go server stores users, groups and jobs
-- in SQLite (internal/store, internal/scheduler), serves a web interface (internal/web), and runs
-- the agents, whose sessions are files (internal/agent). This library models the parts that carry
-- state and decisions of their own.
--
-- The files:
--   Prelude: numbers, tests, lists, maps, rows of tables, and the texts that Go's fmt prints and
--     scans.
--   Store: internal/store. Db holds the tables' rows. Action runs a function of the store as a
--     chain of statements, each of which may fail, and a session that rolls back; Action/Outcomes
--     has the rules that follow every such outcome, Action/Calm those for functions that succeed
--     where no statement fails. Users is users.go (CreateUser, EnsureExternalUser,
--     ChangePassword, DeleteUser, DeleteAllRegularUsers), Users/Queries its reads. Ips is
--     ip_allocation.go, Cookies is cookies.go (SetCookie, GetCookie, DeleteCookie). Groups is
--     groups.go (CreateGroup, DeleteGroup, AddUsersToGroup, RemoveUserFromGroup, SyncUserGroups,
--     SetGroupParent, and ClearAllGroups of users.go), Groups/Replace its
--     ReplaceGroupMembersBySource, Groups/Tree its GetSubGroupIDs, Groups/Members its lists of
--     members.
--   Config: internal/config. Types is the structs of types.go, the default configuration of
--     defaults.go and the modes of globalconfig.go; Values is what configToKV writes and
--     LoadFromDB reads under each key; Settings is SaveToDB and LoadFromDB of dbconfig.go and
--     InitDBDefaults of defaults.go. Flat is flatten.go, Raw is LoadRawFromDB and SaveRawToDB of
--     dbconfig.go.
--   Scheduler: internal/scheduler. Schedule is ParseSchedule and NextRunTime of cron.go, Jobs the
--     table of store.go, Polling the poll, the goroutines that it starts and RecoverStaleJobs of
--     cron.go.
--   Agent: internal/agent. Messages is the messages of session.go, Compactor is compactor.go,
--     Sessions is session_io.go, Sessions/Rewrite is CompactAndRewrite of compactor.go, Tools is
--     tool_registry.go. Engine is engine.go: Events is what Process reads and reports, Context
--     the estimates of tokens and compactLLMMessages, Calls the calls of the model in one
--     iteration, Loop the loop of Process.
--   Util: internal/util. Tree is MergeMap, DeepGet, SetByPath and DeleteByPath of util.go.
--   Web: internal/web. RateLimit is ratelimit.go, Pagination is pagination.go, TaskQueue is
--     taskqueue.go, ServiceHub is service_hub.go (Steps interleaves its goroutines),
--     SessionTokens is createSessionToken and parseSessionToken of server.go.
--
-- Each module has its tests and examples in Tests.
--
-- Bounds and fuel: GetSubGroupIDs recurses in the source without a bound; the model takes the
-- depth of the calls as fuel, and a depth above the height of the tree is enough. Moments are
-- nanoseconds since 1970. A duration of NextRunTime keeps the wrap-around of its int64. The loop
-- of Process is given its number of iterations, and its compaction ten passes, as in the source.
-- Counters of the task queue are below 2^31, the size of a batch.
--
-- Parameters: the hash of a password, the signature of a session token, the cron library,
-- encoding/json, the order in which a map is ranged over, the models that answer and that
-- summarise, what the database and the file system refuse, and the order that ORDER BY gives.
--
-- Not modelled: HTTP handlers, the tools themselves, how the prompt is built, LDAP and single
-- sign-on, messengers and e-mail, the sandbox, the front ends, and the store's tables of skills,
-- channels and shared folders beyond the rows that deleting a user touches, and the two listings
-- of cookies.
pub mod Prelude
pub mod Store
pub mod Config
pub mod Scheduler
pub mod Agent
pub mod Util
pub mod Web
