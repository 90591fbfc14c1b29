-- ===== src/Lib.antt =====
-- aerobi-api is the server of a platform that runs public aerodromes: accounts with four roles, each
-- bound to a group of aerodromes, and pilots who ask without an account for leave to land.
--
-- The program's parts and how they interact. A request first meets the guards: the API key on the
-- public routes, the access token, the role, the permission matrix, and the group scope, which looks
-- the resource and the user up in the database. The session services issue, rotate and revoke the
-- tokens that the guards read. A request to land is submitted by a pilot and decided once by the
-- staff of the group. The limiter stands before the public routes. Cameras and staff register movements
-- of aircraft; each landing is evaluated afterwards, query by query and beside the others, against the
-- approved requests, and one without a request leaves a record of non-conformity.
--
-- Where each part is modelled:
--   Common              lists, Boolean tests, results, services that read and write, text
--   Common/Errors       src/common/exceptions, src/common/enums/error-code.enum.ts
--   Authz/Permissions   src/modules/auth/permissions/permissions.ts: `PERMISSIONS`, `can`, `rolesFor`,
--                       `permissionsForRole`
--   Authz/Guards        src/modules/auth/guards (JWT, roles, permissions) and
--                       src/common/guards/aerobi-api-key.guard.ts
--   Authz/Scope         src/common/utils/group-scope.util.ts
--   Authz/Resolvers, Authz/GroupScope
--                       src/modules/auth/guards/group-scope.resolvers.ts, group-scope.guard.ts
--   Accounts            prisma/schema.prisma (users and tokens),
--                       src/modules/auth/repositories/refresh-token.repository.ts
--   Tokens              src/modules/tokens: repository, creation and validation of one-time tokens
--   Users               src/modules/users/services: accept-invite, confirm-password-reset
--   Sessions            src/modules/auth/services: login, refresh, logout, signing, verification
--   RateLimit           src/common/services/in-memory-ip-rate-limiter.service.ts
--   Landing             src/modules/landing-requests: schedule, repository, decision, removal
--   Administration      src/modules/users: create-user, update-user, remove-user and their rules
--   Registrations       src/modules/rab/utils/normalize-marcas.ts,
--                       src/modules/landing-requests/utils/aircraft-registration.util.ts
--   Movements           src/modules/movements: conformity-status.util.ts, movement.repository.ts
--                       (Movements/Store), create-movement (Movements/Create), update-movement,
--                       remove-movement, find-movement-by-id, movement-scope (Movements/Edit)
--   Conformity          src/modules/conformity: postgres-directory.adapter.ts (Conformity/Directory),
--                       conformity.listener.ts and the listener of the movements that writes the
--                       status (Conformity/Evaluate)
--   Submission          src/modules/landing-requests: the form and its row (Submission/Form), the RAB
--                       (Submission/Aircraft), the checks (Submission/Prepare), create-landing-request
--                       and the rules of the form (Submission/Validation)
--   Validators          src/common/validators/is-cpf.validator.ts, is-e164-phone.validator.ts,
--                       src/common/utils/security-code.util.ts
--   Pagination          src/common/utils/pagination-params.util.ts, pagination.util.ts
--   Listing             src/modules/landing-requests: build-landing-request-where.ts, list-order.ts
--                       (Listing/Filter), landing-request.mapper.ts, landing-request-pii.ts
--                       (Listing/Mapper), list, pending-count, find-landing-request-by-id
--   Passwords           src/modules/users/services: change-password, request-password-reset,
--                       admin-reset-password, verify-password-reset-token, update-profile
--   Invites             src/modules/users/services/resend-invite.service.ts; Invites/Creation is about create-user
--   Notifications       src/modules/notifications: phone.util.ts, notification-dispatch.service.ts,
--                       movement-notifications.listener.ts
--   Csv                 src/common/utils/csv.util.ts, and a reader to test it against
--
-- How it is modelled. A table is the list of its rows, and a service is a function from the
-- database to its result and the database it leaves: what was written before an exception stays
-- written, and a transaction that throws is rolled back. An exception is a value with its status,
-- its code and the parameters of its message. The clock, the ids that the database draws and the
-- outcome of what may fail without consequence are arguments. The libraries behind the services
-- (jsonwebtoken, bcrypt, SHA-256, class-validator's isUUID, the case rules of Unicode, the UTF-8
-- encoder) and the services outside (ANAC, the storage, the WhatsApp client) are parameters; the
-- hypotheses on the libraries are that a token carries the same claims whenever it verifies, and
-- that bcrypt recognises a text by the hash that was drawn for it, and what
-- `Registrations.Laws.UpperCase` says of the upper case of characters outside ASCII; that the
-- decimal form of a number has no comma, quote or line end is assumed too. An evaluation of a
-- movement is a state that each of its queries moves on (`Phase`); the evaluations on their way are
-- a part of the state, so that their queries interleave with the requests in any order. Instants
-- are milliseconds, natural numbers; nothing in the modelled code overflows a JavaScript number. No
-- definition needs fuel: all loops walk a list.
--
-- Not modelled: the export of requests, the batch and the listing of movements, the texts of
-- notifications, the validators of dates and passwords, maintenances, the modules that only move
-- rows between the database and the client, network access, rendering, logging, start-up.
pub mod Common
pub mod Authz
pub mod Accounts
pub mod Sessions
pub mod Tokens
pub mod Users
pub mod Administration
pub mod RateLimit
pub mod Landing
pub mod Registrations
pub mod Movements
pub mod Conformity
pub mod Csv
pub mod Submission
pub mod Pagination
pub mod Listing
pub mod Passwords
pub mod Validators
pub mod Notifications
pub mod Invites
