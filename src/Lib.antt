-- ===== src/Lib.antt =====
-- Verification of the C++ exercises of this repository: solcomapi, a client and a server that exchange
-- commands over TCP with libuv, and StragetyDeployer, a manager program and a service that exchange
-- requests over ZeroMQ, and some of the smaller programs: sorting, trees, processes that share memory,
-- the splitting of files and a server with boost::asio.
--
-- The parts, and the files that model them:
--   * CByteArray (solcomapi/src/CByteArray.h), a block of bytes with a left and a right position,
--     is Solcom/ByteArray.antt: a record with the bytes and the two positions, one function per
--     member. Window treats appending and taking off, Grow reallocation.
--   * CachedBuffer (solcomapi/src/CachedBuffer.h), the ring of send buffers, is
--     Solcom/CachedBuffer.antt. Create treats the constructor, Positions the tests on positions
--     that wrap, Fifo and Refine the ring against a bounded queue, Current the third position.
--   * The head of a package and the commands (solcomapi/src/CommonStruct.h, ISerializable.h,
--     SillyCommand.h, PackageCodec.h, SerializableFactory.h, SerializableCache.h) are
--     Solcom/Codec.antt: Head and RoundTrip treat their bytes.
--   * SolcomApi (solcomapi/src/SolcomApi.h, SolcomApi.cpp), the client, is Solcom/Api.antt: a record
--     of its members, a function for each member and for each callback that it hands to libuv. Start
--     treats the constructor, Post
--     and Sending treat postMsg, Outgoing the writes of idle_cb, Receive, Message and Delivery
--     read_cb, EndToEnd the way from one client to another, Flight and Steps the writes in flight
--     over whole runs, Idle the keep-alive, Reconnect the state that a new connection finds.
--   * SolConnServer and SolConnClient (solcomapi/src/SolConnServer.h, SolConnServer.cpp,
--     SolConnClient.h, SolConnClient.cpp), the server end, are Solcom/Server.antt: clients in a heap
--     with indices for pointers, the map of clients, the lists of registered writes. Reading treats
--     read_cb, Writing postMsg and writeHandle, Swept and Sweep hbt_timer_cb, Waiting postMsg's loop.
--     Callbacks has the callbacks as libuv calls them, in any order; Answers treats the way from a
--     command to the write of its answer, Runs the clients over whole runs.
--   * The messages of StragetyDeployer (StragetyDeployer/CommonStruct.h) are Deployer/Protocol.antt,
--     with Deployer/Cmd.antt and Deployer/Err.antt for its enumerations. A message is the list of its
--     frames, and a structure its object representation.
--   * DispatcherManager (StragetyDeployer/DispatcherManager.h, DispatcherManager.cpp), the client's
--     side, is Deployer/Manager.antt: the requests, which end in what is sent, and recvHandle, which
--     ends in callbacks.
--   * DispatcherService (StragetyDeployer/DispatcherService.h, DispatcherService.cpp), the server's
--     side, is Deployer/Service.antt: State has the clients, Frames the reading of a message, Commands
--     onRecvCmd, Poll the parts of pollFunc, Answers what the threads send. Serving and Requests treat
--     the way of a request to its task, Delivery and Answering the way of an answer to its callbacks,
--     Login, KeepAlive and Refusals the sessions, Replies the answers without objects, Sessions and
--     Isolation whom a message can affect, Undisturbed whole runs, and Filters the SQL text.
--   * FixedThreaPool (StragetyDeployer/FixedThreaPool.h), which runs the tasks, is Deployer/Pool.antt:
--     a thread's way through its loop in steps between which the others may come in, and lists of
--     steps for interleavings.
--   * The database functions (StragetyDeployer/dbopmacros.h, dboperatefunc.h, dboperatefunc.cpp) are
--     Deployer/Database.antt, over a record of the calls of SQLite: Documented has what SQLite documents
--     of transactions, as hypotheses for Atomic, which treats the loops, Rows the objects, Objects the
--     five tables, Results (StragetyDeployer/SQLiteDatabase.cpp) the loop over a result set.
--   * AsyncZmqApi (StragetyDeployer/AsyncZmqApi.h, AsyncZmqApi.cpp), which connects the manager, is
--     Deployer/Lifecycle.antt: the calls of the manager and the steps of the poll thread, with whether
--     the sockets' calls throw as a parameter. Reopen treats managers opened and closed by turns.
--   * The prefix tree of stock codes (trivials/stock_tree_trivial.cpp) is Trivials/StockTree.antt, and
--     the union-find structure (trivials/union_find_trivial.cpp) is Trivials/UnionFind.antt,
--     and the splitting of csv files (trivials/splitMdFile.cpp) Trivials/SplitFile.antt: Strings treats
--     splitString, Pipes fixread and fixwrite, Files what the children write.
--   * The sort and the selection (test/quickSort.cpp, test/topk.cpp) are Sorting.antt. Places treats
--     swaps, Scan and Partition the loops that both repeat, Quick and Select the recursions, Copies the
--     copying of the answer, Reference the comparison with insertion sort.
--   * The exercises with two processes are Shared.antt: Semaphores the programs that write and read by
--     turns (shm_named_sem_sync, shm_anony_sem_sync), Counters those that count
--     (trivials/ipc_lock_trivial.cpp, trivials/ipc_atomic_trivial.cpp). A list of processes is an
--     interleaving, and each step what one of them does alone.
--   * The server end and the client end of zmqnet (zmqtest/zmqnet/ZmqServerEnd.cpp, ZmqClientEnd.cpp)
--     and the answers of zmqtest/server.cpp are Zmq.antt, over the frames that a socket delivers: Echo
--     treats the server end, Replies the answers.
--   * The server of boostAsioTest/serverEnd.cpp is Asio.antt, with clients in a heap; Forgotten treats
--     clients that the timer does not look after.
-- DispatcherManager sends the messages that DispatcherService takes up and submits to FixedThreaPool,
-- and receives what the service and its threads answer.
-- postMsg fills the slot of the CachedBuffer that idle_cb later writes; the slots and the receive
-- buffer are CByteArrays, and the codec moves heads and commands through them.
--
-- Conventions: an access outside a block, through a null pointer or with an undefined shift is
-- `none`. A C int is its 32-bit pattern and a position of the ring is below 2 ^ 64, with the
-- wrap-around written out. What fresh memory holds is a parameter `junk`. The calls that a callback
-- makes into libuv and into the user's SolcomSpi are the events that it returns; time is handed in,
-- in seconds for solcomapi and in milliseconds for StragetyDeployer. The loops are structural, but
-- for those that run on fuel. Fuel 32 is enough for the bit count of the constructor of CachedBuffer;
-- quickSort, topkhelper and splitString are given one more than the size of their input, and their
-- partition the size of its part, which is proved to be enough; the fuel of the union-find's find is
-- compared with the steps to the root. The waiting loop of the server's postMsg need not end.
--
-- Not modelled: libuv, ZeroMQ, SQLite and boost themselves, whose results are parameters, and the
-- system calls; the two threads of SolcomApi (the ends of the ring are a sequence of calls), its loop
-- and that of SolConnServer, and Start of the latter; the endless loop and the mutex of
-- DispatcherService; opening and closing the database; output; the relay and the clients of zmqtest,
-- anet (a copy of a layer of Redis), shmrw, and the other programs of trivials, which print what a
-- feature of the language does.
pub mod Common
pub mod Asio
pub mod Deployer
pub mod Shared
pub mod Solcom
pub mod Sorting
pub mod Trivials
pub mod Zmq
