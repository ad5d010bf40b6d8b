-- ===== src/Lib.antt =====
-- The C bridge of the CoAkka runtime for Swift, and the owners of the Swift package over it.
--
-- The program. The Swift package talks to a prebuilt Core library through a C bridge,
-- Sources/CoAkkaRuntimeC/coakka_runtime_bridge.c, declared in
-- Sources/CoAkkaRuntimeC/include/coakka_runtime_bridge.h over the Core headers in
-- include/coakka/v2. The bridge opens the library with the platform's loader and binds 42 function
-- pointers of runtime_library_t (coakka_swift_runtime_library_open, LOAD_SYMBOL); its other
-- functions test their arguments, prepare records and forward one call each, through a bound
-- pointer or, for the file and stream lanes, through a symbol that is looked up at the call
-- (CHECKED_CORE_LOADER). coakka_swift_runtime_library_close frees the library and closes the
-- handle. Over the bridge stands the package in Sources/CoAkkaRuntime. RuntimeHost.start opens and
-- configures a runtime; RuntimeSession owns it until the request runner, every ask and a close are
-- done; StreamCallbackOwners keeps the callbacks of stream sessions alive.
--
-- The model. A C function is an action World → Outcome (Machine/Effects): it returns a value and a
-- new state, or faults. A fault is undefined behaviour of C: a read through a pointer to no live
-- library, a second free, a close of a handle that is not held, a call or a write through NULL.
-- The state (Machine/Heap) is the heap of live blocks, the loader handles held, the next address
-- of the allocator, and the log of the calls into the Core library. A pointer that the bridge only
-- passes on is an Option ℕ with none for NULL; an output parameter is an Option of the content it
-- points to, and the function returns its new content.
--
-- The files.
--   Status           the status values of the bridge header
--   Abi              the C records that cross the boundary and their layout; Abi/Layout computes
--                    sizes and offsets as a compiler does, for 8-byte pointers and size_t
--   Core             runtime_library_t's members and their symbol names (Core/Slot), the records that
--                    are filled member by member (Core/Records), and the function types as a data
--                    type of calls with the type of their replies (Core/Call)
--   Machine          the state, the actions, and rules for running them
--   Loader           set_error (ErrorText), platform_library_* (Platform), load_symbol, LOAD_SYMBOL,
--                    library_open and library_close (Library); Symbols, Acquire and Opening hold what
--                    is shown of them
--   Bridge           Lifecycle, Inspect, Client, Feature, File and Stream have one definition for
--                    each coakka_swift_* function, with its name less the prefix; each has its
--                    functions as a data type of requests (Ops), their promise and refinement
--                    (Refines), their safety (Bounded), the status they return (Forwarded)
--                    and the records they pass on (Prepared); Session runs any list of requests
--                    through one library, Clients any order of opens, requests and closes
--   Enums            the named enumerations of the headers: a data type for each and the function that
--                    gives the values; Bridge has those that the bridge header repeats, and compares
--                    them (Bridge/Mirrors)
--   Swift            what the package throws (Errors) and rules for its calls of the bridge (Calls,
--                    Native); Session is RuntimeSession, one definition for each part of a method that
--                    holds the lock, with the request runner (Session/Reader), the wait for an answer
--                    (Session/Ask) and the interleaving of the threads (Session/System); CallbackOwners
--                    is StreamCallbackOwners; Startup is RuntimeHost.start; Lifetime puts a start and
--                    a schedule together
--   Tests            a concrete platform and Core library, and examples
--
-- What is a parameter. Host (Machine/Heap) stands for the code that is not in the repository: the
-- platform's loader and text conversion, whether the allocator has memory, and the Core library, a
-- reply for each call that may depend on all calls before it. It is assumed of the loader only
-- that one name of one loaded module resolves to one address, and that an open that is not closed
-- holds its handle. Nothing is assumed of the Core library's replies, but for the one theorem that
-- says that a stop succeeds.
--
-- Threads. A schedule of a session (Swift/Session/System) is any list of actions of its actors: the
-- runner of the request queue, the askers with their tickets, the callers of close, and the deinit
-- of the host. What the source does while it holds the lock is one action, and so is what an actor
-- does outside of it with an owner that it alone has: a ticket until it is answered, a reader or a
-- frame. An actor that cannot move does nothing, and a theorem about all schedules is by induction on
-- the list.
-- Swift's throwing functions return a Result; a class instance that a method changes is passed on.
--
-- Bounds. There is no fuel. The load sequence and the prune of the callback owners are by recursion on
-- their lists; the loop of the request runner is one round for each of its actions. A buffer
-- is the list of its bytes, and len the caller's length for it; a len above the buffer's length is
-- the caller's breach, and the model then writes to the end of the list. Numbers that the bridge
-- forwards are naturals without a bound, since it computes with none of them except the mask of
-- coakka_swift_runtime_apply_network and the feature flags. A digest is an array of 32 bytes in C,
-- whose bytes the caller owes; of a longer list the first 32 are copied, and a shorter one, again
-- the caller's breach, is copied as it is. Swift's == on strings is canonical equivalence: the ids of
-- stream sessions (key_eq of Swift/CallbackOwners) are compared code point by code point, so two ids
-- that differ only in how a character is composed are two keys of the model and one of the program.
--
-- Not modelled. What the Core library does in a call, the content behind pointers that are only
-- passed on, and the callbacks of the stream lane, which the bridge passes on as pointers. Threads
-- that call the bridge itself: the header leaves the serialization of close against other calls to
-- the caller. The functions that the Core headers declare and the bridge does not call have no body
-- in the repository. Of the Swift package: the waits of one second in close, the content of frames,
-- replies and answers and the dispatch to handlers (Swift/Session), the preparation of the records
-- that a start passes by pointer (Swift/Startup), the lanes, the envelope codec, the option models, the
-- executor of asks, the discovery of the library, and its tests.
pub mod Prelude
pub mod Abi
pub mod Enums
pub mod Status
pub mod Core
pub mod Machine
pub mod Loader
pub mod Bridge
pub mod Swift
pub mod Tests
