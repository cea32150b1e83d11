-- ===== src/Lib.antt =====
-- A model of the Kademlia node of this repository (src/kademlia), what it stores for the network, whom
-- it knows, and how it answers and makes remote calls, and of the containers, the thread pool, the
-- cryptography and the sockets that the repository brings along (include/common, src/common and src).
--
-- The parts, and the files that model them:
--   DataStore and its children: src/kademlia/datastore.h and datastore.cpp. The multi-index container
--     is a list of tuples in the order of (key, value), its first index (Index, Order); the methods
--     that change it are functions from a store to a store and a result (DataStore/Operations), the
--     others read it (DataStore/Queries). `DataStore::StoreItem` is `store_item`, and so on. The
--     mutex makes each method one step; `Command` and `run` are histories of such steps.
--   KadId: src/kademlia/kadid.h and kadid.cpp, over numbers without bound. The big integers
--     (include/common/BigInt.h) are a parameter, a record of the operations that the class uses.
--   Contact: src/kademlia/contact.h and contact.cpp, with the message `ContactInfo`.
--   KBucket: src/kademlia/kbucket.h and kbucket.cpp.
--   RoutingTable: src/kademlia/kadroutingtable.h and kadroutingtable.cpp. RoutingTable/Buckets has
--     `SplitKbucket`, `ForceKAcceptNewPeer` and `AddContact`, RoutingTable/Nearest the searches by
--     distance. RoutingTable/Lookup states the invariant, that the buckets tile the identifiers.
--   KadService: src/kademlia/kadservice.h and kadservice.cpp, the handlers of the remote calls, over a
--     data store and the functions of a node (`Given`), which the owner of a service passes to it.
--     KadService/Requests has histories of requests.
--   KadRpc: src/kademlia/kadrpc.h and kadrpc.cpp, the client side of the calls; KadRpc/Served and
--     KadRpc/Deleted put it before the handlers of KadService.
--   Sll and its children: the list of include/common/sll.hh over an explicit heap (Heap). Sll/Chain
--     says what a list object stands for, Sll/History has sequences of calls.
--   HandleClass: the counted pointers of include/common/HandleClass.h.
--   Pool and its children: include/common/TThreadPool.hh and src/common/TThreadPool.cpp, as steps of
--     threads and callers in any order. Pool/Invariant counts where each thread and each job is,
--     Pool/Waiting has what `sync` and `sync_all` wait for, Pool/Liveness how calls return. The list
--     of idle threads is a list of numbers there; Sll has the class `sll` itself.
--     Pool/Ending is the destructor, with its `sync_all`.
--   GlobalPool: the functions `tp_init` to `tp_done` of src/common/TThreadPool.cpp, over which pools
--     exist and which one the global pointer names.
--   TThread: include/common/TThread.hh and src/common/TThread.cpp, the object of a thread over the calls
--     of pthreads (`Pthreads`).
--   Crypto and its children: include/common/crypto.h and src/common/crypto.cpp, over the files of the
--     system and the classes of CryptoPP. Crypto/Transfers has the switch over the operations that
--     the methods share.
--   Sockets, Socket and UdtSocket: src/Socket.cpp and src/UDTSocket.cpp with the sockets of clients and
--     servers beside them, over the calls of the system or of the library UDT (`System`).
--     Sockets/Descriptors says which descriptors are open, Sockets/Accounts who holds them, and
--     Socket/Programs has programs over several sockets, which copy none.
--   TTimer: include/common/TTimer.hh and src/common/TTimer.cpp, over what the clocks of the system read.
--   Threads has families of threads and sums over them.
--   Word, Text, Outcome and Prelude have the machine integers, texts, outcomes and shared names.
--   Tests has concrete inputs.
--
-- A service owns a data store, and reaches its node's routing table through the functions it is given;
-- the routing table is a list of buckets, and the buckets are lists of contacts.
--
-- Times of day are arguments, read as `uint32_t` where the source casts them; the sums and differences
-- of times wrap around. A read outside a list, or of a deleted object, is the outcome `undefined`,
-- and a conversion that ends the process is `none`. `AddContact` calls itself after each split, and takes fuel: a split halves the
-- width of a bucket, so that one call more than the logarithm of the width is enough. The short
-- integers that hold indices bound the number of buckets.
--
-- The address that `new` returns is a parameter, any function to an unused address. The loops of the
-- list take its size, and one more, as fuel: one call for each item, and one for the end.
-- The output of a number takes the number itself as fuel, more than its digits. A time of a timer is a
-- number of units of 2 ^ -72 seconds, of which every `double` and `float` there is a multiple; how they
-- round is a parameter. The time that `sleep` takes is exact, where the source has a `double`.
-- A job's own `run` is one step, and the liveness of a call is over the steps of the threads and the
-- caller alone. Nobody else uses the pool while its destructor runs. The files are a state that only
-- the calls at hand change; a source is read whole before anything is put into a sink, and where a
-- theorem names two files they are no links to one.
--
-- Not modelled: the searches that src/kademlia/knodeimpl.h declares; the hash map of
-- include/common/HashMap.h, a wrapper of the library's; the copies of sockets in programs over several
-- of them; logs and the player, which call the system and other libraries; and the copies of other
-- projects (BigInt, sha1, udt, librtmp, tinyxml) and the output of thrift but for the flags of
-- `StoreRequest` and `ContactInfo` and the dispatch to `Store` and `Delete`.
pub mod Prelude
pub mod Order
pub mod Index
pub mod Sll
pub mod Text
pub mod Word
pub mod DataStore
pub mod Heap
pub mod HandleClass
pub mod Threads
pub mod Pool
pub mod GlobalPool
pub mod TThread
pub mod TTimer
pub mod Crypto
pub mod Sockets
pub mod Socket
pub mod UdtSocket
pub mod KadId
pub mod Contact
pub mod KBucket
pub mod Outcome
pub mod RoutingTable
pub mod KadService
pub mod KadRpc
pub mod Tests
