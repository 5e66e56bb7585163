-- ===== src/Lib.antt =====
-- heidi.microservices is a set of NestJS services for towns: users, their roles in cities,
-- content, notifications and terms of use. This library models the parts that decide who may do
-- what, and the services and the orchestrator whose correctness lies in a state over time.
--
-- The parts and their files:
--   * Rbac (libs/rbac/src): whether a request is let through. Roles models utils/role.utils.ts
--     and `hasRole`; Cities city-hierarchy.service.ts (`getChildCities`, `getAllManagedCities`,
--     `getCityPath`, `getHierarchicalCities`); Permissions permission.service.ts; UserContext
--     user-context.service.ts; Request the parts of a request that guards read; Guards the
--     `canActivate` of roles.guard.ts, admin-only.guard.ts, permissions.guard.ts and of
--     guards/city-management, city-scope and content-moderation; TermsGuard that of
--     guards/terms-acceptance.guard.ts. The guards call UserContext and Permissions, which ask
--     the core database for a user's assignments and Cities for what lies below the cities
--     assigned.
--   * Redis (libs/redis/src/redis.service.ts): `get`, `set`, `del`, `exists` and `expire`. The
--     cache of `hasPermission` and the sagas are kept with it.
--   * Saga (libs/saga/src/saga-orchestrator.service.ts): the state of a distributed transaction,
--     with the methods as functions on that state and then as methods that read and write it
--     through Redis.
--   * Terms (apps/users/src/modules/terms/terms.service.ts): Queries and Changes are its methods.
--     The terms guard asks the service over the message bus.
--   * Verification (apps/notification/src/modules/verification/verification.service.ts): tokens
--     that verify an address, from their sending to their use.
--   * Jwt (libs/jwt/src/jwt.service.ts): the tokens that say who asks, their payload and expiry; the
--     signer is a parameter.
--   * Auth (apps/auth/src/modules/auth/auth.service.ts): Login, Refresh, Sessions (logout and the
--     revocation of sessions), CityAdmin (the assignment of city administrators) and Guests, with
--     EffectiveRole, TermsInfo and Tokens for the parts that they share. They keep refresh tokens
--     with Redis, make tokens with Jwt and ask the services of users and of terms.
--   * Slugs (apps/core/src/modules/listings/listings.service.ts, and in the same words
--     apps/core/src/modules/tiles/tiles.service.ts): `slugify` and `ensureUniqueSlug`. The categories
--     use them too; Kept has the lemmas that the tables share.
--   * Paging (the same two files): page numbers and sizes, sorting and the conditions of filters;
--     Ordered says what the database promises of an order that rows are asked in.
--   * Listings (apps/core/src/modules/listings/listings.service.ts): Create, Update with Patches
--     (the request and the refusals) and Sync (the rows that belong to a listing; Keyed is about those
--     known by a key), Moderation, Favorites, and Pages with the filter of `listListings`.
--   * Categories (apps/core/src/modules/categories/categories.service.ts): the categories of towns and
--     the requests for them, Editing and Removal, and Hierarchy, the nested lists. The slugs are those
--     of Slugs.
--   * PasswordReset (apps/notification/src/modules/password-reset/password-reset.service.ts, and
--     `requestPasswordReset` and `resetPassword` of apps/users/src/modules/users/users.service.ts):
--     the tokens that reset a password, and the message that marks them.
--   * Tiles (apps/core/src/modules/tiles/tiles.service.ts): the access checks of the methods that
--     write, by the cities that UserContext says are managed, and the cities of a tile; Store has the
--     rows, Editing `createTile`, `updateTile` and `deleteTile`, Pages the filter and `listTiles`.
--   * Database: the calls of Prisma that the services make on a table, as a record of
--     operations with the laws that the proofs use; Database/Memory and Redis/Memory are
--     instances.
--   * Categories, Tiles and PasswordReset have their tables as lists of rows, with what the schema refuses
--     written out.
--   * Common: results and exceptions (Outcome), methods on a state (Action), lists, texts, tests.
--
-- How code becomes definitions: an asynchronous method that only reads returns an `Outcome`,
-- which is a value, an exception or, where a loop has no bound in the source, the lack of fuel. A
-- method that writes is a function of the state that also returns the new one; what was written
-- before an exception stays written. A `try … catch` that logs and returns a default is
-- `catch_with`. Texts that the source compares with `if (x)` are tested for being present and not
-- empty. The clock, random identifiers and tokens are arguments, times are milliseconds since the
-- epoch, and queries to a database, the Redis client, the message bus and the verification
-- strategies are parameters. Exceptions carry the key or the beginning of their text, logging and
-- translation are left out.
--
-- Fuel: `getChildren` and the loop of `getCityPath` end only if the hierarchy of cities has no
-- cycle, which nothing in the source checks. `IsForest` and `IsRooted` say so by a height that
-- falls from a city to its children and a depth that falls to its parent; fuel above the height,
-- or above the depth by two, is enough, and the theorems say that a result is then returned.
-- The loop of `ensureUniqueSlug` tries one candidate after the other; fuel above the number of
-- rows is enough, since the candidates differ. `buildCategoryHierarchy` has as much fuel as there are
-- categories, since a chain of parents that ends at a root has no category twice.
--
-- Not modelled: `roleStringToNumber`, calls of a service that overlap in time,
-- expiry in Redis, JSON itself, locks, counters, sets and channels of Redis, the media of listings
-- and the files of tiles and categories, the mapping of listings to answers, the modules,
-- decorators and controllers that only wire the services together, and the other services (users,
-- the assignments in core, integrations, push messages, scheduler, terminals,
-- storage, monitoring).
pub mod Auth
pub mod Common
pub mod Redis
pub mod Database
pub mod Jwt
pub mod Listings
pub mod Rbac
pub mod Saga
pub mod Slugs
pub mod Terms
pub mod Tiles
pub mod Verification
pub mod Categories
pub mod PasswordReset
pub mod Paging
