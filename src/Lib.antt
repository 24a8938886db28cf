-- ===== src/Lib.antt =====
-- zenoh-cpp, the header-only C++ API of Zenoh over the C libraries zenoh-c and zenoh-pico.
--
-- The C++ code is a layer of classes over C functions. Its own logic is: how an error of C is
-- reported, how C++ objects own C values, how C++ callbacks and buffers live behind the void
-- pointers that C keeps and are freed once, how options become C structs, and the serialization
-- format of C++ types. The C functions are not in this repository: each part takes those that it
-- calls as a parameter record, and what their documentation promises as a second record of
-- hypotheses; the tests of each part fill both with a small library of their own.
--
-- Parts, and the code that they are about (paths from the repository's root):
--   Base          what the parts share: Boolean tests (Test), lists over the native numbers
--                 (Lists), text as code points (Strings).
--   Result        include/zenoh/api/base.hxx, ZResult, ZException and __ZENOH_RESULT_CHECK. A
--                 function with a parameter `ZResult* err` is a computation over the cell that
--                 err points to (none is nullptr); Result/Modes relates a run that throws to the
--                 run that writes *err from Z_OK on, Result/Inversion takes runs apart.
--   Owned         include/zenoh/api/base.hxx, class Owned, and move_to_c_obj of
--                 include/zenoh/api/interop.hxx: memory of live objects by address, one function
--                 for each special member function; Owned/Moves has the conservation of
--                 resources, Owned/Worlds what the operations leave of the C library's state.
--                 Owned/Copies has the copy constructors and assignments, which Owned/Cloneable
--                 gives to Encoding, Hello, Link, Transport and CancellationToken (encoding.hxx,
--                 hello.hxx, link.hxx, transport.hxx, cancellation.hxx of include/zenoh/api) and
--                 KeyExpr uses; Owned/Given and Owned/Copied have the handles that the C library
--                 has given out.
--   Closures      include/zenoh/detail/closures.hxx and closures_concrete.hxx: the heap objects
--                 behind the contexts of C closures, each with its class, and the extern "C"
--                 functions; Closures/Lifetime has their use by C.
--   Bytes         include/zenoh/api/bytes.hxx, the constructors from memory and the conversions;
--                 Stream has the writer and the slice iterator. Contents and Written are about
--                 what a payload holds, and Release about when its memory is freed.
--   Channels      include/zenoh/api/channels.hxx, the receiving side: recv and try_recv of
--                 FifoHandler and RingHandler; Channels/Polling has what a receiver gets.
--   Session       include/zenoh/api/session.hxx, and publisher.hxx, querier.hxx, query.hxx,
--                 subscriber.hxx, queryable.hxx, scout.hxx and channels.hxx beside it: Options
--                 (the option structs and their conversion into C structs), Requests (the C
--                 calls, as data), Callbacks, Handlers and Operations (the functions with a
--                 callback, with a channel, and with neither), Info (those that collect ids,
--                 transports and links). Modes has programs of such calls that stop at the first
--                 error, by an exception or by looking at *err. Forwarding, Carried, Usable,
--                 Release and Modes have the proofs, and Refusing a library for the tests.
--   Extension     include/zenoh/api/ext/session_ext.hxx, advanced_publisher.hxx,
--                 advanced_subscriber.hxx, querying_subscriber.hxx, publication_cache.hxx and
--                 miss.hxx: the same division as in Session, whose Requests and bodies it uses.
--                 The defaults of the C structs are a parameter where a conversion keeps some of
--                 them. Usable has the functions whose closures keep the class of their context,
--                 and Miscast those whose extern "C" function casts it to another.
--   Batch         include/zenoh/api/session.hxx, start_batching and BatchGuard, in the build
--                 over zenoh-pico: guards by address; References and Lifetimes have the
--                 references that they hold.
--   KeyExpr       include/zenoh/api/keyexpr.hxx: construction from a string, concat and join on
--                 the memory of Owned, each with the ways it ends, with the copies of
--                 Owned/Copies; Balance and Handles have what the C library has given out.
--   Handled       include/zenoh/api/subscriber.hxx, queryable.hxx, matching.hxx,
--                 transport_events_listener.hxx and link_events_listener.hxx, and miss.hxx,
--                 querying_subscriber.hxx and advanced_subscriber.hxx of include/zenoh/api/ext:
--                 the class templates of an object with a handler, made, moved, undeclared and
--                 destroyed on the memories of Owned for the base and for the handler. Classes
--                 lists them; Conserved and Undeclared have their proofs.
--   Made          include/zenoh/api/config.hxx, encoding.hxx and session.hxx: the constructors
--                 of Config, insert_json5, the constructor of Encoding from a string and
--                 set_schema, whose C functions leave a value with a result code (Owned/Emplace
--                 has what follows, for KeyExpr too). Opening has the constructors of Session,
--                 which take a Config over, and obtain_shm_provider; Kept, Opened and Histories
--                 have the proofs.
--   Texts         link.hxx, id.hxx, encoding.hxx, config.hxx and hello.hxx of include/zenoh/api:
--                 the functions that copy a C string, or the strings of an array, and drop what
--                 they got, and get_locators, which returns views of the strings; Released has
--                 their proofs.
--   Shm           include/zenoh/api/shm: Alloc (the results of allocations), Async (the
--                 receivers of asynchronous ones), ClientStorage (its constructor from a range),
--                 with Received and Formed for their proofs; Objects and Backend (the C++
--                 backends, clients and segments behind the contexts of C, and the extern "C"
--                 functions), Histories (what the C library does with what it was handed, as
--                 events) and Virtuals (the calls of virtual functions that the events come to),
--                 with Standing, Calls and Served for their proofs.
--   Getargs       examples/getargs.hxx: CliArgParser (declarations; Parse is parse_args, Access
--                 the result, Help what is printed), ConfigCliArgParser (Config), and the
--                 readers of single values (Values). The loop of parse_args is a recursion on
--                 the arguments; an argument that is cut at = in place is not read again.
--                 Complete, Forms, Options, Reported, Declared and Settings have their proofs.
--   Serialization include/zenoh/api/ext/serialization.hxx: types and values as data, Write and
--                 Read with one function for each overload, Containers for the insertion into
--                 the C++ containers. Encoding describes the bytes of a value independently;
--                 Typing, Reads, RoundTrip, Rejects and ErrorModes have the proofs, and Toy a
--                 format to run on.
--   Examples      examples/universal: the programs with a state of their own, Throughput for
--                 z_sub_thr.cxx (Rounds has its proofs) and Storage for z_storage.cxx (Latest).
--
-- Session's functions with a callback put a Closure on the heap of Closures and hand its address
-- to C; Serialization, KeyExpr, Texts and Session report errors by Result. Owned objects that
-- are passed to C are opaque there: a call that moves an object carries its content, and Owned
-- alone follows what becomes of the source.
--
-- The build is the one over zenoh-c with the unstable API, apart from Batch. Bytes are numbers,
-- integers of w bits are numbers below 2 ^ w that the C format encodes, and floating point
-- numbers are their bit patterns. Loops run over a length that was read or over a list, and no
-- function has a fuel. Memory does not run out; of the exceptions of the C++ library,
-- std::length_error is modelled where a payload's length can cause it, and those of the command
-- line parser. std::unordered containers keep the order of insertion. Threads are not modelled:
-- a history of calls of closures is a sequence.
--
-- Not modelled: the accessors and comparisons that return one C value each (of samples, replies,
-- queries, hellos, transports, links, ids); the constants of Encoding, cancel and is_cancelled
-- of cancellation tokens, the reader of Bytes, the tasks of zenoh-pico and the buffers of shared
-- memory, which are single C calls; the casts between a C++ object and its C struct; and the
-- other programs under examples and tests, apart from their command line parser.
pub mod Base
pub mod Batch
pub mod Bytes
pub mod Channels
pub mod Closures
pub mod Examples
pub mod Extension
pub mod Getargs
pub mod Handled
pub mod KeyExpr
pub mod Made
pub mod Owned
pub mod Result
pub mod Serialization
pub mod Session
pub mod Shm
pub mod Texts
