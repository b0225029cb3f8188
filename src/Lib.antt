-- ===== src/Lib.antt =====
-- stohr is a self-hosted file store: teams of users keep folders and files, share them by grants and
-- spaces, upload in chunks under storage caps, let other programs in through an OAuth 2.0
-- authorization server, and offer space to each other in federations. This library models the server's
-- core logic, the TypeScript under src/, and proves what makes it correct.
--
-- The parts and their sources:
-- - Common: Boolean tests, lists over the native numbers, and tables as lists of rows.
-- - Db: the rows of the shared tables, as the queries of src/permissions/index.ts and its clients use
--   them. A table is the list of its rows, `SELECT … LIMIT 1` is the first row that satisfies the
--   condition, a nullable column is an Option, and a time is a number of milliseconds.
-- - Permissions: src/permissions/index.ts. `folderAccess` is `folder_access`, `fileAccess` is
--   `file_access`, `inheritedFolderRole` is `inherited_folder_role`, and the filters of the listings are
--   `visible_file`, `visible_folder` and `personal_file`. Permissions/Inherited is about the recursive
--   query and Permissions/Access about the resolvers.
-- - Usage: src/usage/index.ts, src/uploads/quota.ts and `computeTeamUsage` of src/teams/members.ts: the
--   two storage caps and the checks before and after a write.
-- - Uploads: Uploads/Store is the local object store (src/storage/index.ts), Uploads/Finalize is
--   `finalizeUpload` (src/uploads/finalize.ts), with its rollback; Uploads/Rows, Uploads/Init and
--   Uploads/Sessions have the session rows and the five handlers of src/uploads/index.ts. A handler
--   resolves the folder with Permissions, checks and reserves with Usage, and finishes with
--   Uploads/Finalize.
-- - Oauth: Oauth/Scopes is src/oauth/helpers.ts, Oauth/State the rows and the checks of a client and a
--   user, Oauth/Issue, Oauth/Grants and Oauth/Poll the three grants of src/oauth/token.ts, Oauth/Token
--   its endpoint, and Oauth/Device the device flow of src/oauth/device.ts. The children of Oauth/Token
--   are about one grant each, and Oauth/Device/Decisions takes both source files for one transition
--   system.
-- - Auth: Auth/Sessions and Auth/Touch are src/security/sessions.ts, and Auth/Credentials and Auth/Guard
--   are `requireAuth` of src/auth/guard.ts, which reads the sessions, the app tokens, and the clients
--   and scopes of Oauth.
-- - Teams: Teams/Slug is src/teams/slug.ts, Teams/Resolve the cached look-ups of src/teams/resolve.ts,
--   whose two maps are lists of entries, Teams/Urls is src/teams/urls.ts, and Teams/Request is
--   src/teams/host.ts, `withTeams` of src/teams/request.ts and src/teams/guards.ts. A request's host is
--   taken from the headers if Security trusts the peer, parsed by Teams/Slug, and looked up by
--   Teams/Resolve. Teams/Resolve/Staleness sets the look-ups against the table of teams as a function
--   of the time.
-- - Folders: Folders/Tree has the recursive queries of src/folders/index.ts, Folders/Routes its handlers
--   that create, change, trash and restore, and Folders/Purge the two that remove for good, of that
--   file and of src/trash/index.ts, with the rows that the foreign keys of folders and files take
--   along. Folders/Purge/Subtree tells the folders below one by the rows' parents. The handlers ask
--   Permissions for the caller's role.
--   Folders/Moves is about the parents of folders.
-- - Files: src/files/index.ts. Files/Routes changes, trashes, restores and purges a file, Files/Versions
--   has the old versions and Files/Range is src/files/range.ts. A replaced version is archived as in
--   Uploads/Finalize, and events are those of Folders.
-- - Spaces: src/spaces/index.ts, its slugs in Spaces/Names, the spaces in Spaces/Routes and their
--   members and folders in Spaces/Members; Spaces/Steps takes the handlers for one step relation.
-- - Security: Security/Proxies is src/security/proxies.ts with `clientIp` of src/security/ratelimit.ts,
--   Security/Rates the rest of that file, and Security/Inline src/security/inline.ts.
-- - Shares: src/shares/index.ts. Shares/Routes makes, lists, deletes and sweeps links, and Shares/View
--   is `GET /s/:token`, which counts in Security/Rates, asks the guard of Auth who is viewing, and
--   reads the store of Uploads.
-- - Federation: Federation/Erasure is src/federation/erasure.ts.
--
-- An operation that changes state is a function from the state to the new state and its reply; an
-- error reply is a value. The clock, random ids, hashes, the signature check of the token library, the
-- image library and the outcome of a write that the source lets fail are arguments. A database
-- transaction is one step. The recursive query over a folder's ancestors is a recursion on 65 rows, the
-- query's own bound, and that over the folders below one a recursion on 64 levels, likewise; the cascade
-- of a deletion is a recursion on as many levels as there are folders, which no chain exceeds; the search
-- for a slug or a token that is free is a recursion on those drawn, and every other loop on its list.
--
-- Not modelled: the calls to S3, reads of a part of an object and failing drivers; audit entries and the
-- texts of replies; white space and capital letters outside ASCII; webhooks; what a folder's actions do
-- when their event is fired; the order and the paging of listings; the consent page that creates
-- authorization codes; and the server's other modules (login, the administration of teams, the listing,
-- the plain download and the upload of files in one request, gateways, settings), the web client, the
-- apps and the SDKs.
pub mod Common
pub mod Db
pub mod Permissions
pub mod Usage
pub mod Uploads
pub mod Oauth
pub mod Auth
pub mod Federation
pub mod Teams
pub mod Folders
pub mod Files
pub mod Spaces
pub mod Security
pub mod Shares
