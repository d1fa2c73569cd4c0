-- ===== src/Lib.antt =====
-- Weather App: a model of its engine, of the client that talks to it, and of the schema they share.
--
-- The program is an engine (weather-core) that keeps weather data fresh and answers requests over a
-- message socket, and renderers (weather-renderer) that send those requests. The engine's scheduler
-- decides when each configured station is refreshed; its resource manager keeps images of the
-- upstream service in a bounded cache; its handlers answer lists page by page. A renderer matches
-- the responses with the requests that wait for them and follows the pages of a list. Both sides
-- use the bounds and the station names of the schema (weather-schema).
--
-- Files, each with its source:
--   Common, Common/*: lists, keyed tables, text and numbers that all parts use.
--   Schema/Constants, Schema/Station: weather-schema/src/constants.rs and station.rs.
--   Engine/Refresh, Engine/Refresh/Loop: weather-core/engine/src/refresh.rs. `enabled_stations`,
--     `reconcile_schedules`, `schedule_date_refresh`, `claim_due_stations`, `finish_job`,
--     `next_scheduler_wait` and `dispatch_due` keep their names; `run_refresh_loop` is `start`,
--     then one `turn` for each pass of the loop, with `prepare` up to its `select!` and `wake` for
--     the branch that the `select!` takes.
--   Engine/ResourceCache: weather-core/engine/src/resource_cache.rs, with `register`,
--     `begin_fetch`, `finish_fetch` and `cache` (here `cache_resource`) on an explicit state.
--   Engine/Limits, Engine/Limits/Pages: weather-core/engine/src/limits.rs and `paginate` of
--     weather-core/engine/src/handlers/response.rs.
--   Client/Pagination: weather-renderer/common/src/pagination.rs.
--   Client/Pending: weather-renderer/common/src/client/pending.rs, with each oneshot channel in a
--     table of channels under the number that stands for its marker.
--   Client/Search, Client/Search/Loop: weather-renderer/tui/src/search.rs, with the request to the
--     engine as the parameter `fetch` of `execute_search_with`.
--   Engine/Singleflight: weather-core/engine/src/singleflight.rs, with the calls of `run` as steps
--     that join, work and leave in any order.
--   Engine/Fuzzy: weather-core/engine/src/handlers/fuzzy.rs, from the catalog on; `Platform` stands for
--     the library's tables of characters and for SHA-256.
--   Engine/Station: weather-core/engine/src/station.rs.
--   Db/Catalog, Db/Validation: the catalog's rows in weather-core/db/src/actor.rs, and
--     weather-core/db/src/validation.rs.
--   Schema/Uuid: weather-schema/src/uuid.rs, with SHA-256 as the parameter `digest`.
--   Schema/Messages: the messages of a search and of a resource in
--     weather-schema/weather/schema/v1/weather.proto.
--   Config, Config/Validate, Config/Normalize: weather-core/conf/src/types.rs, validate.rs and
--     normalize.rs.
--   Client/Session: weather-renderer/common/src/client/session.rs, with the supervisor's `select!`,
--     its joining of the aborted tasks and its end as steps in any order.
--   Engine/Time: the search of weather-core/engine/src/time.rs for the next change of the local date.
--   Engine/Lock: the acquisition in weather-core/engine/src/lock.rs, with the answers of the file
--     system in each attempt as an argument.
--   Schema/Correlation: weather-schema/src/correlation.rs, the nonce being a given text.
--   Engine/Lifecycle: the exit requests of weather-core/engine/src/lifecycle.rs, with the requests
--     between two reads of the channel as a list.
--   Engine/Compatibility: the request for the cities of several provinces in
--     weather-core/engine/src/handlers/compatibility.rs, with `list_cities` as a parameter.
--   Schema/Weather, Engine/Events: the messages of a weather request in weather.proto, and the events
--     of weather-core/engine/src/handlers/events.rs.
--   Engine/Weather/*: weather-core/engine/src/handlers/weather.rs. `Temperatures` has the dates and
--     temperatures (with the parsers of temperature_history.rs), `Merging` what a snapshot takes over
--     from others, `Services` the calls of a request as a record, `Fetch` the fetch and `Request` the
--     request; the others prove.
--   Engine/Task: a handler as a task over services that are awaited, which may be dropped at each await.
--   Engine/Catalog: weather-core/engine/src/catalog.rs and the helpers of
--     weather-core/engine/src/handlers/catalog.rs. `Source` has its refresh of provinces and cities,
--     `Loading` its load_provider_city_scopes, with the task that ends next and its end as an argument
--     for each wait, and `Scopes` the catalog of several provinces.
--   Engine/Transfer: weather-core/engine/src/handlers/resource.rs, without the task that fetches.
--   Client/Assembler: get_resource_bytes and ResourceAssembler of
--     weather-renderer/gui/src-tauri/src/lib.rs; the engine's answers and the instants are arguments of
--     each turn.
--   Tests/*: runs and examples at concrete inputs.
--
-- How the model is made. An instant is a number of nanoseconds, and a duration too; `Instant` plus
-- `Duration` gives nothing above `instant_max`. A HashMap is an association list in which `insert`
-- keeps the place of a key, since the source reads no order from it but in `min_by_key`, whose ties
-- are decided by place. Text is the list of its code points. A usize has 64 bits. What a loop reads
-- from outside (clocks, the time zone, the configuration channel, the task that ends next) is an
-- argument of its turn, so that a theorem about all lists of turns is about all interleavings. The
-- hash that names a resource is the parameter `resource_id`.
--
-- Fuel. The eviction loops of the resource manager run on one more unit than there are entries: each
-- round removes an entry, so they end before the fuel does. The client's list of pages needs no
-- more requests than the list has elements, and a search no more rounds than the cursor allows
-- requests, and one. The search for a change of date halves a window below 2^28 milliseconds, and
-- runs on 29 units. A loop that waits for tasks or answers runs on the list of what it is given: the
-- loading of scopes needs no more ends of tasks than there are codes, and a transfer ends with as many
-- parts as the resource has. The first tasks are spawned on fuel for the eight places.
--
-- Not modelled: sockets, HTTP, SQLite, the file system, processes and drawing, which the program
-- calls, and the parts that only carry data between them; protobuf types but for the fields that
-- the modelled code reads; the front end in TypeScript.
pub mod Common
pub mod Schema
pub mod Config
pub mod Db
pub mod Engine
pub mod Client
mod Tests
