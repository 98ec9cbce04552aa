-- ===== src/Lib.antt =====
-- Verification library of xmrig-nonces-heatmap, a program that downloads the block headers of a
-- Monero chain from a daemon, keeps the nonce of each block in a file, and draws the nonces as
-- an image.
--
-- The parts. `Config` (config/Config.cpp) is read from a JSON file, with a `Daemon`
-- (Daemon.cpp) that says how to reach the daemon and a `Job` (Job.cpp) that says what to draw.
-- `Network` (Network.cpp) asks the daemon for the last height, downloads the ranges of headers
-- that are missing from the vector of nonces, several at a time, and tells its listener when
-- that is done. `Heatmap` (Heatmap.cpp) selects blocks, checks the size of the image, computes
-- the points and the file name, and draws.
--
-- The files, with the code that each models:
-- - Prelude and its children: the names that the others share, tests on numbers and bytes,
--   lists measured by native numbers.
-- - Dict: std::map with find, insert, erase and size. Dict.Unique is about the keys and the
--   size of a map.
-- - Json: the getters of base/io/json/Json.cpp, over a record `RapidJson` that stands for the
--   vendored library. Json.Objects: `Laws`, what the program relies on of that library where it
--   reads what it wrote.
-- - String: base/tools/String.cpp, a C string that may be null. Memory is not modelled.
--   String.Copies is about assignment and JSON, String.Split about `split`.
-- - Cvt: base/tools/Cvt.cpp without libsodium, with the bit arithmetic of its two loops.
--   Cvt.Digits and Cvt.Pairs put `toHex` and `fromHex` together. `randomBytes` takes the
--   numbers of the engine.
-- - Daemon, Job, Config: the members, their initial values, the constructor from JSON
--   (`of_json`, `parse`) and the way back (`to_json`, `get_json`). Their Saved children put the
--   two together.
-- - HttpData, Fetch, JsonRequest: base/net/http/HttpData.cpp, FetchRequest of Fetch.cpp, and
--   the envelope of a JSON RPC request with its static counter.
-- - Network: one function per handler of Network.cpp over the record `Network`, which holds the
--   members and what the handlers change outside of the object. `none` is the exception of
--   `m_data.at`. Network.Coverage, Ranges, Start, Steps, Retry, Reply, Runs, Header and
--   Failures hold the invariant of a download and its steps; Network.Asks describes the request
--   for a range, and Network.Sync what `sync` sends.
-- - Env: the expansion of variables in file names, base/io/Env.cpp; Env.Variables holds the
--   variables that the program gives, with the paths of Process.
-- - Arguments: base/tools/Arguments.cpp, the command line.
-- - Float: the float arithmetic of the image's width, as fractions rounded to 24 bits.
-- - Heatmap: get_iterator, nonces_heatmap, render, genName and saveInfo of Heatmap.cpp, with
--   the exceptions as values of `Error` and undefined behaviour as `crash`. Heatmap.Points,
--   Prepare, Render and Errors follow a render.
-- - Png: the writers of Heatmap.cpp as built with XMRIG_LIBPNG. What libpng, `fopen` and
--   lodepng do is a parameter; Png.Rows is about the row pointers, Png.Paths about how the
--   writers end.
-- - Contexts: the contexts of HttpContext.cpp together, in the static map, in memory and in the
--   writes that libuv has not finished; a freed address is one that the heap does not have.
-- - Client: `fetch` of base/net/http/Fetch.cpp, the client that it makes, which is an
--   HttpClient or an HttpsClient, and the calls of the event loop to it. Client.Answered and
--   Deaf are about one context, Pieces and Secure about the TLS client; Pieces.`Laws` holds
--   what is relied on of http_parser.
-- - HttpContext: base/net/http/HttpContext.cpp, one function per callback of the parser, and
--   `close`. HttpClient: the request text and the events of a connection, HttpClient.cpp. Their
--   children follow the headers and the listener, and the events after which a client is still
--   open.
-- - Nonces: Nonces.cpp with Json::get and Json::save of Json_unix.cpp. A file is the document
--   that rapidjson reads from it.
-- - HttpsClient: base/net/https/HttpsClient.cpp, over a record `Tls` that stands for OpenSSL;
--   its children follow a connection up to the request, Guarded.`Laws` holds what is relied on
--   of OpenSSL.
-- - MemPool, NetBuffer: base/net/tools/MemPool.h and NetBuffer.cpp, the pool of chunks that
--   libuv reads into. A pointer is the number of its chunk and an offset, a null pointer is
--   `none`. NetBuffer.Spec gives the promise of the pool to its callers, as a set of buffers
--   that are in use.
-- - ParseError: `convertOffset` of base/io/json/Json.cpp, and the report that
--   base/kernel/config/ConfigFile.cpp makes of a file that is no JSON.
-- - Process: base/kernel/Process.cpp, Entry.cpp and main.cpp, the data directory, the paths and
--   the exit codes.
-- - Storage, Dns: base/net/tools/Storage.h and base/net/dns, the resolution of a name. Heap
--   addresses are numbers, and a read of freed memory is `none`. Storage.Keys is about keys,
--   Dns.Records about the records of an answer, Dns.Runs about objects that come and go.
-- - Log: base/io/log/Log.cpp and backends/ConsoleLog.cpp, how a line is put into the buffer,
--   cleared of its colours, and handed out. A write outside of the buffer is `none`.
-- - Logger: the static part of Log.cpp, which holds the backends, and the constructor and
--   destructor of ConsoleLog. A deleted log is `none`. Logger.Printed says who shows a line.
-- - Handles: base/tools/Handle.h, and the timers, the signals and the console of Timer.cpp,
--   Signals.cpp and Console.cpp, each with the calls of libuv that it makes of its handle.
--   Handles.Keys follows a console.
-- - App: App.cpp, one function per handler, and ConfigFile::read and save. App.Outcomes follows
--   a response to the end of the program; App.Events says what comes in while the program is
--   online, App.Started is about its start, App.Renderings about how a rendering stops it,
--   App.Life about each of these steps, and App.Alive follows it from the start of the network
--   on.
-- - Tests: examples; Tests.Sample is a small JSON library that has the laws.
--
-- Bounds. Members of 32 and 64 bits keep their wrap-around as `% 2 ^ 32` and `% 2 ^ 64`. A
-- daemon that follows the chain is a function `chain` from heights to nonces; `Answers` says
-- what a complete answer to a range is, and `Fails` what a failed connection is. Loops are
-- structural, over lists or over the number of rounds. In Float the search for the exponent has
-- 64 rounds, which is enough for operands below 2^40, and Heatmap.digits has 20, enough below
-- 2^64. An `assert` is empty, as in the default build, Release, which defines NDEBUG; the
-- conditions that Storage and NetBuffer assert are the definitions `may_get` and `may_destroy`.
-- The loop over the colours of a line in Log has one round more than the line has bytes.
--
-- Not modelled: the event loop and sockets of libuv, the vendored libraries (rapidjson, http-
-- parser, heatmap, lodepng, OpenSSL), Process and Platform on Windows and macOS, and what is
-- read from the operating system. Where the program uses their results these are parameters.
mod Prelude
pub mod Dict
pub mod Json
pub mod String
pub mod Daemon
pub mod Job
pub mod Config
pub mod Cvt
pub mod HttpData
pub mod HttpContext
pub mod Contexts
pub mod Client
pub mod Png
pub mod Logger
pub mod Handles
pub mod HttpClient
pub mod HttpsClient
pub mod Nonces
pub mod App
pub mod Fetch
pub mod JsonRequest
pub mod Log
pub mod Process
pub mod ParseError
pub mod Storage
pub mod Dns
pub mod MemPool
pub mod NetBuffer
pub mod Network
pub mod Env
pub mod Arguments
pub mod Float
pub mod Heatmap
pub mod Tests
