-- ===== src/Lib.antt =====
-- Substy: notifications to the subscribers of a topic.
--
-- The repository is a set of services. The notifications service stores a notification and, in the
-- same transaction, an outbox event; its scheduler turns scheduled notifications into events when
-- they are due, and its publisher hands the events to JetStream. The delivery service takes a
-- notification.created event, asks the subscriptions service page by page who is subscribed, creates
-- one delivery attempt for each subscriber and channel with a job in the queue, and its executor
-- sends each attempt through a provider, with quiet hours, retries and a dead state. The
-- subscriptions service keeps topics, subscriptions and their preferences. The auth service keeps
-- accounts and sessions and issues tokens, and the BFF gateway stands between the browser and the
-- services: it keeps the refresh token in a cookie, verifies access tokens, and forwards requests with
-- the user's id and roles in headers.
--
-- The files, and the code that they model:
--   Base            shared helpers: lists, tables as lists of rows with the SQL statements on them,
--                   sorting, Python strings, JSON values, and sessions (Base/Session): a call takes
--                   the state and answers with a value or an error. A failed statement aborts the
--                   transaction that it stands in, an aborted one accepts no statement and is rolled
--                   back at its end, and a raise rolls back too.
--   Channels        _normalize_channels of services/delivery/delivery_service/services/fanout.py
--   Pagination      core/pagination.py of the notifications and of the subscriptions service
--   Entry           api/errors.py of the notifications and of the subscriptions service
--   Delivery        services/delivery/delivery_service: QuietHours and Backoff (core/quiet_hours.py,
--                   core/backoff.py), Model, Metrics, Attempts, Processed (repositories/,
--                   core/metrics.py), Effects, Executor (services/delivery_executor.py) and Fanout
--                   (services/fanout.py, services/subscriptions_fetcher.py), Consumer
--                   (consumers/notification_created_consumer.py), Providers (providers/stub.py,
--                   providers/factory.py) and Worker (workers/arq_worker.py)
--   Notifications   services/notifications/notifications_service: Payload (core/payload.py), Model,
--                   Repository, Outbox (repositories/), Service and Listing
--                   (services/notifications.py),
--                   Scheduler (services/scheduler_service.py), Publisher
--                   (services/outbox_publisher.py); Api (api/notifications.py);
--                   Consistency, Idempotency and Cancellation hold proofs
--   Subscriptions   services/subscriptions/subscriptions_service: Model, Repository (repositories/),
--                   Service (services/subscriptions.py) and Topics
--                   (services/topics.py, repositories/topics.py), and Api (api/)
--   Auth            services/auth/auth_service: Model, Users, Sessions (repositories/), Tokens
--                   (core/security.py, core/jwt.py), Service (services/auth.py), Limiter
--                   (core/rate_limiter.py) and Api (api/)
--   Bff             services/bff/bff_gateway: Model, Headers and Proxy (proxy/), Values,
--                   Downstream (clients/downstream.py), Auth (api/auth.py), Search and
--                   Subscriptions (api/subscriptions.py), Notifications (api/notifications.py), Guards (core/body_limit.py,
--                   security/, rate_limit/, api/dependencies.py, core/exceptions_handler.py), and
--                   Services (core/dependencies.py of the notifications and of the subscriptions
--                   service)
-- A method of a class keeps its name, without a leading underscore; a long one is cut where its
-- branches meet, so that create_notification is create_notification, if_absent, create_new and
-- on_insert. A Tests module holds concrete runs.
--
-- How the data are modelled. A UUID is a number. A time is a number of microseconds, in UTC or on a
-- wall clock, a time of day one below a day; seconds are exact. Settings are natural numbers.
-- Tables are lists of rows with their keys and checks, and a CHECK constraint on a status is a data
-- type. The payload of an outbox event keeps its numbers and times, which the code prints as texts.
-- The attempts of the gateway's requests are counted down from the number that the code computes.
-- What is not code of the repository is a parameter: the time zone database (a zone is its two
-- conversions), the providers, whether JetStream and the job queue take what they are given, random
-- draws, the clocks, str.lower, uuid.UUID, ILIKE, the codec of cursors, SHA-256, Argon2, PyJWT,
-- httpx, json, Redis, and, in the notifications, subscriptions and auth services, what other
-- sessions commit between two statements outside a transaction (others) and the rows that they have
-- locked (locked). Within a transaction no other commit is seen. The generator over the pages of
-- subscribers takes fuel; as each page uses one unit, the number of pages is enough.
--
-- Not modelled: what another session commits between the UPDATE of a subscription and the SELECT that
-- reads it back, the validators of request bodies, the endless loops that fetch messages or repeat a
-- tick or a batch, the attributes of cookies, CORS, logging, tracing, measured durations and the
-- rendering of metrics.
pub mod Base
pub mod Channels
pub mod Pagination
pub mod Entry
pub mod Delivery
pub mod Notifications
pub mod Subscriptions
pub mod Auth
pub mod Bff
