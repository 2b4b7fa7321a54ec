-- ===== src/Lib.antt =====
-- Magic Mirror copies sets of container images between registries. This library models the parts of
-- the program that hold its own logic, and proves what makes them correct.
--
-- Results captured from handlers (internal/parka/catch/catch.go): Catch.antt has Result, Do, DoOrExit,
-- Goexit, Panic, Return and Unwrap; Catch/Laws.antt has their laws.
--
-- The keyed work map (internal/parka/map.go) is modelled under Parka.antt.
--   Parka/Deque.antt is the interface of the deque package, with its documented behaviour as laws.
--   Parka/WorkState.antt has workState, and one function for what each method does under stateMu:
--     limit_section is Limit, schedule_section scheduleNewKeys, try_get_section tryGetQueuedKey,
--     reattach_section handleReattach, dequeue_section DequeueAll, wait_section Wait.
--   Parka/Tasks.antt has the task set: getOrCreateTasks, and the removal in DequeueAll.
--   Parka/Handle.antt has Handle. Parka/Goroutine.antt says where a goroutine may stand, and
--   Parka/System.antt has `act`, one step of one goroutine; Parka/System/Runs.antt interleaves any
--   number of goroutines, lets them pass grants, and lets calls come in at any time.
-- A step is one critical section or one channel operation. Counters are natural numbers: they do not
-- wrap, since they count goroutines and keys, which fit in memory. The initial limit, math.MaxInt, is
-- an argument. A panic of a handler ends the program, and so has no step. A call on a Handle after its
-- handler has ended panics in the goroutine that makes it and touches nothing of the map: it is no step.
--
-- The mutex for keys (internal/parka/keymutex.go): Parka/KeyMutex.antt has its two sections, and the
-- goroutines around them as a step relation; `KeyMutex/Invariant.antt` has the invariant.
--
-- Clients for registries (internal/image/registry/registry.go): Registry/Outcome.antt is the form of Go
-- code that may fail or panic over a shared store, with a rule for where a chain of calls ends.
-- Registry/Client.antt has DoExpecting, DoExpectingNoBody and GetClient. The network is the interface
-- `Net`; an exchange may change all of the store, since other goroutines run meanwhile.
--
-- Copies of blobs (internal/image/copy/blobs.go): Copy/Blobs.antt has copyBlob and what it calls.
-- Blobs/Sound.antt states what the registries promise, Blobs/Steps.antt and Blobs/Copied.antt follow the
-- calls one by one, and Blobs/Keeps.antt says which requests they send.
--
-- Manifests (internal/image/manifest.go, media.go): Image/Manifest.antt. Copy/Manifests.antt has
-- getManifest and uploadManifest of internal/image/copy/manifests.go.
--
-- Copies of images (internal/image/copy): Copy/PlatformCopier.antt is platforms.go, with CopyAll of
-- blobs.go, which collects the results of copyBlob; its PlatformCopier/Complete.antt states what the
-- registries and the shared caches promise, and PlatformCopier/Collected.antt is about CopyAll.
-- Copy/Indexer.antt is blobindexer.go. Copy/IndexEdit.antt has the parts of copyIndex that select
-- descriptors and edit the index, Copy/Copier.antt the rest of copyIndex, and copySpec, of copier.go.
-- The caches are maps of internal/parka; to their clients they are interfaces of the methods called.
--
-- Sets of strings (internal/stringkeyed/set.go) are modelled under StringKeyed.antt: Base64.antt is the
-- part of the standard library's base64 that they use, Encoding.antt the element encoding, Order.antt
-- sorting and compacting, Operations.antt the methods. Strings are lists of bytes (Prelude/Text.antt).
--
-- The variant for JSON v2 (internal/stringkeyed/set_jsonv2.go), UnmarshalJSONFrom, is StringKeyed/Tokens.antt.
--
-- The command line (main.go): Command.antt reads the requests for copies from a decoder; its loop has fuel,
-- and a stream of n values needs n + 1.
--
-- Image references (internal/image/image.go) are modelled under Image.antt: Types.antt has Repository,
-- Image and String, Parse.antt matches imageRegexp part by part and has Parse. The check of a digest is
-- an argument.
--
-- Requests for copies (internal/image/copy/spec.go): Copy/Spec.antt has Spec, Transform and
-- coalesceRequests, whose set of sources is an argument; Copy/Lookup.antt, Copy/Coalesce.antt and
-- Copy/Rules.antt reason about them. Copy/Platforms.antt has ToPlatforms and UnmarshalJSON of platform
-- sets, with the parser of platforms as an argument.
--
-- Not modelled: logging and statistics, HTTP transport and authentication, flags and files, the JSON
-- methods but for what UnmarshalJSON of a set does with its elements, and the wrappers that only build
-- maps or call them.
pub mod Prelude
pub mod Catch
pub mod Command
pub mod Copy
pub mod Image
pub mod Parka
pub mod Registry
pub mod StringKeyed
