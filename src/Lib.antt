-- ===== src/Lib.antt =====
-- oscdn, a caching reverse proxy: a model of its cache, its locks and its request handling, and what
-- makes them correct.
--
-- The program. A client's request reaches `Handler.ServeHTTP` (cdn/handler.go). `_Writer.Prepare`
-- (cdn/writer.go) checks it and turns it into a URL at the origin, a key host and a range, with the
-- header parsers of httputil. `Store.Get` (store/store.go) then looks for the content on the disk: a
-- content that has not expired is piped to the client, one that is being downloaded is followed, and
-- otherwise `startDownload` asks the origin, decides whether and how long the response is kept
-- (store/utils.go), and writes it through `Data` (store/data.go) with `CopyRate` (ioutil/ioutil.go).
-- `Purge`, `PurgeHost` and `PurgeAll`, which the management server calls (apps/mgmtapp.go), move
-- contents to the trash, and so does the content cleaner with those that have expired; the trash
-- cleaner removes them. All of them work under read-write locks by name (namedlock/namedlock.go), one
-- per host and one per data path. The configuration of the hosts and origins
-- (internal/config/config.go) reaches the handler and the store through main.go, which opens the store
-- under a lock file, starts the servers of apps/ in front of the handler, and releases the store at
-- the end.
--
-- The files.
--   Base         shared notation: Boolean tests on the native numbers, lists, association lists as
--                maps, integers with Go's 64-bit wrap-around, byte strings with the functions of
--                Go's strings and strconv that the code uses, and their laws.
--   HttpUtil     httputil/: Options is `ParseOptions`, CacheControl is `ParseCacheControl` and its
--                methods, Host is `SplitHost` and `GetRealIP`.
--   Ioutil       ioutil/: `CopyRate` over a source and a sink; Whole compares it with `io.Copy`, Short
--                has sources that end before the burst.
--   Fileutil     fileutil/: `WalkDir`; its other functions are in Store/World.
--   NamedLock    namedlock/: the operations on the table of holders. NamedLock/System interleaves
--                any number of threads that call the methods of lockers, with a step at every
--                access to shared memory; Invariant has what every step keeps, Safety what follows.
--                Which of the threads that wait for a mutex gets it is left open.
--   Store        store/: Expires is `httpExpires` and the choice of the expiry time, Range the
--                clamping in `pipeData` and the bytes it pipes, Urls is `getURLs` and
--                `getDataPath`, World the state on disk and in memory with `Data`, Files the files
--                of a data directory, Download is `startDownload`, Get and Purge are the operations
--                of these names with Purge/Host and Purge/All, Cleaner is a walk of
--                `contentCleaner` and Trash the walks of `trashCleaner`, Follow the loop of
--                `pipeData` beside a download and Follow/Ends the goroutine that ends its pipe,
--                Files/Handles the open files behind a `Data`. History runs any sequence of the
--                operations, History/Cache is the cache by which it is specified, one entry and
--                one event at a time, and History/Refines the run of it, History/Whole the contents
--                whose download ran to its end. Get/Hits says what a hit carries. Lifecycle is `New`
--                and `Release`, Lifecycle/Machine several stores on one system, and Lifecycle/Waits
--                `Release` beside calls of the four operations and goroutines.
--   Cdn          cdn/: Writer is `Prepare` and its steps, Encoder is `SetContentEncoder`, Handler is
--                the answer of `ServeHTTP`, Upload all of it with the copy to the client, StatusCode is
--                `maskStatusCode`. Handler/Answers composes the handler with the store.
--   Config       internal/config/ and internal/flags/, with the functions and values that main.go
--                makes of them.
--   Apps         apps/: Mgmt is `mgmtHandler` over the purges of the store, Conns is `ConnState` with
--                the connections that a server may report to it, Servers is the life of both servers,
--                their `httpHandler` and the routes of the management server.
--   Main         main.go: the start of the program and its stop function.
--   Tests        runs on concrete inputs.
--
-- How state corresponds. A Go map is an association list whose look-up takes the first entry; a
-- pointer to a holder is an address on a heap, so that sharing is visible; the disk maps a data path to
-- a directory's contents. A call of `Get` or `Purge` is one function of the shared state, since the
-- data lock makes calls on one path exclude one another; the goroutine of a download, from the copy to
-- its end, is a separate event.
-- A panic is a result of its own: `none`, or `panic` where there are errors as well. An error is a
-- constructor of `Error`. Loops are recursions over lists and trees, so there is no fuel. A
-- `time.Time` is an integer number of nanoseconds since the zero time, and adding a duration to it
-- does not saturate; a `time.Duration` is an integer, reduced to 64 bits where the code
-- multiplies.
--
-- Parameters. `url.Parse`, `URL.String`, SHA-256 and `time.Parse` are the fields of
-- Store.Download.Library; `strconv.ParseFloat` and `Time.Format` are arguments in Cdn. The answer of
-- the origin, the clock and the failures of the file system are inputs of each call. The calls that
-- `filepath.WalkDir` makes, with the outcome of `os.Remove` in each, the listing of `os.ReadDir` and
-- what the system says of a host's directory are inputs of the cleaner and of the purges. The leaky
-- bucket is an argument of `copy_rate`, the JSON of the info file and the canonical keys are the
-- fields of Store.Files.Codec, and `tls.X509KeyPair` is an argument of `certificates`. The lock
-- files of package filelock are the interface Store.Lifecycle.FileLocks, the formats of gzip and flate
-- the record Cdn.Upload.Compression, and what main.go reads and decodes is Main.Environment.
--
-- Not modelled: the mutexes around the maps (each guarded block is one step), logging, metrics, the
-- HTTP client that `New` makes, contexts that end during a call of `Get` or of the handler, a trash
-- that is filled while it is swept, an error in reading a stored body, and what is input and output
-- alone: the run of the servers by package application with its signals and timeouts, and the decoding
-- of YAML and of the command line.
pub mod Base
pub mod HttpUtil
pub mod Ioutil
pub mod Fileutil
pub mod NamedLock
pub mod Store
pub mod Cdn
pub mod Config
pub mod Apps
pub mod Main
pub mod Tests
