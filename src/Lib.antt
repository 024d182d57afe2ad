-- ===== src/Lib.antt =====
-- A model of the multi-tenant backend, and what holds of it. The program is a NestJS service over
-- PostgreSQL: the public schema holds tenants and invitations, and each tenant has a schema of its own
-- with users, products, changelogs and feedback, reached through a cached data source.
--
-- Parts, by file:
--   Prelude       texts, numbers, lists, association lists and whole numbers that the parts share
--   Enums, Exceptions, Entities (with Clash, the unique columns)
--                 src/common/enums, src/common/exceptions, and the entities of each module
--   Cache         CacheWrapper of src/common/cache/index.cache.ts, used by Provisioning and Interceptors
--   World         the state: the platform's tables, the schemas with the tenant tables, the cache of
--                 connections, the commands sent to Redis, the clock and the number of statements sent.
--                 An action takes a state to a result, a value or an exception, and the state after it,
--                 which keeps what was written before an exception. World.Evolves has a rule for each
--                 way to build an action, for relations between the states around it; World.Runs has
--                 the same for triples
--   Platform      what is not in the repository, as one record of operations with their documented
--                 behaviour: TypeORM and PostgreSQL, argon2, uuid, SHA-256, the signing of tokens, the
--                 configuration. A statement may be rejected at any point, and takes time. `Calm sys n`
--                 says that none is rejected from the n-th statement on
--   Repository    getRepository(Entity) with findOne, save, update and delete, one statement each
--   Provisioning  src/database/tenant-datasource.service.ts and the tenant migration. The migrations
--                 that run are an argument, `ups`; `checked_in` are those of the repository
--   Utils, Token  src/common/utils/index.utils.ts and src/token/token.service.ts
--   Auth          src/auth/auth.service.ts: signup with its compensation, login
--   Invitations   src/tenant/tenant.service.ts and src/tenant/tenant-invitation-cleanup.service.ts.
--                 Invitations.Lifecycle has the step relation of requests, cleanups and waits
--   Races         requests that overlap: an operation on the invitations as the sequence of its
--                 statements (Races.Requests), and any number of them under way, whose steps
--                 alternate. A switch is possible before each step, also where Node runs on
--   Pagination, Products, Changelogs, Feedback
--                 the services of src/products, src/changelogs and src/feedback; Pagination has the
--                 arithmetic of both listings, over whole numbers, and what JavaScript gives for a
--                 division by 0
--   Validation, Bodies
--                 the transfer objects of each module: what the decorators ask of a signup, and for every
--                 class the properties with their decorators (Bodies.Classes), how a body is read as an
--                 object of the class (Bodies.Readers), and what the pipe of src/app.create.ts lets
--                 through. The pipe with the validator is an argument, with its documented behaviour
--   Requests, Controllers
--                 the tenant middleware, the guard, and the routes, which call the services with the
--                 tenant of the request
--   Serving       a request as a whole: the middleware on all routes and the guards of the controllers,
--                 then the interceptors around the pipe and the handler (src/app.module.ts,
--                 src/app.create.ts). Serving.Refusals has the requests that do not get to their
--                 handler, Serving.Replays the cache of responses over many requests
--   Interceptors, Responses, Json
--                 src/common/interceptors in the order of src/app.create.ts, and the response builder
--   Redis         src/redis: the commands that the program sends, and in Redis.Service the service over
--                 a client and a codec for JSON
--   Migrations    src/database/migrations as lists of statements (Undone: `down` after `up`), the data
--                 source options of src/database (Options) and what a first start makes of both (Startup)
--   Bootstrap     src/main.ts and src/app.create.ts: the port, the allowed origins and what CORS answers
--   Tests         a platform in memory, and the results below at concrete inputs
--
-- How a function of the code becomes one of the model: `await` is the bind of actions, `throw` is
-- `raise`, try and catch are `catch`, a query is one statement of a repository. Names are those of the
-- code, in snake case. The update in updateFeedback that is not awaited takes an argument that says
-- whether it would land before or after the read that follows. Redis keeps the commands that were sent,
-- also where the connection is lost before the answer.
--
-- Bounds: dates are milliseconds and counts are natural numbers, far below 2 ^ 53, where JavaScript's
-- are exact. There is no loop in the modelled code and no fuel, except for the digits of a number in
-- the text of a timeout, where the number itself is enough fuel.
--
-- Not modelled: Swagger and the wiring of modules, which are declarations for NestJS; the passport
-- strategy's check of a token, whose verdict is an argument of the guard (its `validate` is in
-- Requests); the listing by cursors, which is commented out; foreign keys and their cascades; and
-- requests that overlap, but for those on invitations; and what the process does about a rejection that
-- nobody handles. The execution of a migration's SQL, the Redis client and the JSON codec are
-- arguments.
pub mod Prelude
pub mod Enums
pub mod Exceptions
pub mod Json
pub mod Cache
pub mod Entities
pub mod Redis
pub mod World
pub mod Platform
pub mod Repository
pub mod Provisioning
pub mod Utils
pub mod Invitations
pub mod Token
pub mod Auth
mod Tests
pub mod Pagination
pub mod Products
pub mod Changelogs
pub mod Feedback
pub mod Races
pub mod Migrations
pub mod Bootstrap
pub mod Responses
pub mod Validation
pub mod Bodies
pub mod Requests
pub mod Controllers
pub mod Interceptors
pub mod Serving
