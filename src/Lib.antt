-- ===== src/Lib.antt =====
-- huawei-solar-proxy: a Modbus TCP proxy that polls a solar inverter, keeps its registers in a cache,
-- serves reads from the cache and forwards writes.
--
-- The parts of the program and the files that model them:
--
--   cache.go        the register cache over SQLite             Cache, Cache/*; Bytes for its encoding
--   client.go       the Modbus client with mutex and pause     Client, Client/*; Errors
--   server.go       the Modbus TCP server                      Server, Server/*
--   reader.go       the polling loop                           Reader, Reader/*
--   config.go       the YAML configuration and its checks      Config, Config/Valid
--                   its durations and the inverter's address   Config/Durations, Config/Durations/Exact
--   ha_options.go   the Home Assistant options                 Config/HaOptions, Config/HaOptions/Valid
--   registers.go    the names of the registers                 Registers, Registers/*
--                   the decoding of the dashboard's fields     Dashboard, Dashboard/*
--   web.go          the status page's groups of registers      Web, Web/*
--                   the whole data of the page                 Web/Page, Web/Page/*
--                   the functions of its template              Web/Functions, Web/Functions/RelTime
--   main.go         the start of the program                   Program, Program/*
--
-- How they interact: the reader's goroutine and one goroutine for each connection share the cache and
-- the client. `Client.World` is that shared state: the database, the fields of `InverterClient`, the
-- clock, and a trace of the requests on the wire. Each method that takes the client's mutex, and each
-- transaction of the cache, is one step on it. A handler of the server and a cycle of the reader are
-- functions on it that are built of such steps in the order of the code.
--
-- What the repository does not hold is a parameter with the behaviour that the code relies on:
-- `Platform.Sqlite` (database/sql and SQLite; every call may fail), `Platform.Modbus` (goburrow/modbus
-- with the TCP connection and the inverter; it may answer anything), and in `Platform` the sleeping,
-- the time of cancellation and the format of a time. `Platform.Memory` and `Tests.Setup` are
-- instances. `Dashboard` takes the printing of a quotient with two places. Where a theorem wants a
-- database without failures it says so by `IsReliable`, and what it wants of the texts of RFC3339Nano
-- by `KeepsOrder` (Reader/Cycle/Purge) or `DropsZeros` (Reader/Cycle/Fractions, Text/Fraction).
--
-- Choices. Bytes and words are numbers; where Go wraps, `%` is written. Slices out of range panic,
-- which is `none` or `panicked`. Times are nanoseconds as numbers, and the clock goes on only in
-- requests and sleeps; `Client.Interleaving` lets it go on anywhere. An `int` of a configuration is a
-- `ℤ`, and its durations are `int64` numbers of nanoseconds that wrap (`Config.Durations`); a negative
-- pause and interval act as 0, as in the code. Where the end of a sleep and the cancellation meet,
-- Go's `select` may take either, and the model takes the cancellation. The loop of a connection has
-- fuel for its rounds: one for each byte and one more is enough, as is one more than the requests
-- sent. The loop of the reader never ends by itself, and `run` counts the cycles. No time is before
-- the epoch: a cutoff that would be is the epoch.
--
-- `Program.main` is the main goroutine up to the polling loop, and `Cache.Open.Opener` what it takes of
-- SQLite to open and migrate the database. A map of Go is the list of its entries; where the code ranges
-- over one, the order is an argument. `Cache.All.Listing` is the query for all rows, which `handleIndex`
-- uses; each of its reads of the cache has a state of its own, for other goroutines write meanwhile.
-- `Program.main` takes the connection to the inverter as a function of its address and its timeout.
-- The parts of a duration that `relTime` prints go through a float64; `Web.Functions.Parts` has them
-- with what they are below 2048 hours.
-- `Server.Accept` takes the returns of the listening socket's `Accept` as a list.
--
-- Not modelled: the HTML template and the HTTP server of web.go, flags and signals in main.go, the log,
-- and sockets.
pub mod Prelude
pub mod Text
pub mod Bytes
pub mod Errors
pub mod Platform
pub mod Cache
pub mod Client
pub mod Server
pub mod Config
pub mod Reader
pub mod Tests
pub mod Dashboard
pub mod Web
pub mod Registers
pub mod Program
