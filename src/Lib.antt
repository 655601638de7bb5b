-- ===== src/Lib.antt =====
-- A verification library for kknet, a network library in the manner of a reactor. Paths are from
-- the root of the repository.
--
-- An Eventloop waits in a poller for descriptors that are ready, calls their handlers, and then
-- runs the tasks that other threads have queued. Timers are one more descriptor. A Connection is
-- the handler of one socket, with a buffer for each direction; a ClientConnector makes the
-- sockets of a client, and an EventloopPool spreads the connections of a server over several
-- loops. A TimeWheel closes the connections that are idle.
--
-- Prelude: the names that the modules share. A 64-bit size_t keeps its wrap-around (`add_size`,
-- `sub_size`); `Option` is the result of code that can dereference a null or a dangling pointer,
-- with `none` for the fault.
--
-- Buffer: src/reactor/KBuffer.h and KBuffer.cpp. The chain of DataBlocks is a list of lists of
-- bytes, and a pointer into it is a position. Walk has the loops that walk the chain, Ops the
-- state and the operations (`write`, `do_write`, `move_head`, `makeSpace`, `retrieve`, `peek`,
-- `read`). BLOCK_SIZE and MAX_BLOCK_SIZE are parameters, which the code sets to 1024 and 1310720.
-- The loop of `makeSpace` runs on fuel: one round for each byte, and each round takes one at
-- least. Invariant says when a KBuffer is in order, Consume is about reading, Append about
-- writing, Fifo compares a KBuffer with a queue of bytes, and Faults has the calls that go wrong.
-- Scan has `getLine`, with a round of fuel for each byte and one more, and Line is about it. Receive has
-- `readFd`, where the system call readv is a parameter that answers the lengths of the areas with the
-- bytes read; Scatter, Received and Incoming are about it. Not modelled: `showMessage`.
--
-- Poll: src/reactor/Poll.h, PollSelect.h and PollSelect.cpp, EventHandler.h and EventHandler.cpp.
-- Handler has an EventHandler with its flags and callbacks, Select the table of the descriptors
-- and `wait`, where the system call `select` is a parameter. The table is a list in the order of
-- the std::map, with null pointers, which `operator[]` can enter.
--
-- Timer: src/reactor/TimeEvent.h and TimeEvent.cpp. A std::set is a list in its order, a Timer is
-- an address in a store, and a deleted one is not in the store. Times are microseconds. The timer
-- descriptor is the time that it is armed for. Callbacks are commands to the queue. Sorted is about
-- the order of the set, Expired about the timers that are due, Armed about the descriptor, Renewed
-- about the timers that start again, Wellformed about the sets and the heap, and Kept, Taken, Again and
-- Rounds about `handleRead`, and Cancelled about `cancelInLoop`. Requests has `addTimer`, `cancel` and what Eventloop.cpp makes of them,
-- by tasks when another thread calls them, and Undone is about a timer that is added and cancelled.
-- Clock has the time that `resetTimerfd` gives to the descriptor.
--
-- Connection: src/reactor/Connection.h and Connection.cpp. Each handler returns the connection and
-- its calls of the loop, the poller, the socket and the callbacks, in order. The system call
-- `write` and what `readFd` returns are parameters. Defs has the handlers, Sending and Draining are
-- about the bytes to send, Life has the sequences of calls, and States is about the states.
--
-- Connector: src/reactor/ClientConnector.h and ClientConnector.cpp, in the same way. What
-- `connect` leaves in errno and the new descriptor are parameters. Backoff is about the delays
-- between the attempts, Attempts about the sockets and the handler.
--
-- Loop: src/reactor/Eventloop.h and Eventloop.cpp. The loop's thread and the other threads take
-- turns by actions, one for each access to what they share: `queueInLoop` in another thread is two
-- actions, `wakeup` and `addTask`. Defs has the actions, Order is about the order of the tasks,
-- Waking about the wakeup descriptor, and Turns about a turn of `loop`. `setQuit` counts from
-- the end of the turn in which it is called. Descriptors has the calls
-- that go straight to the poller, with `fdnums_`, and the constructor; Counted compares that count
-- with the table. What memory holds before it is initialised is a parameter there.
--
-- Pool: src/reactor/EventloopPool.h and EventloopPool.cpp. `std::sort` is a parameter, and a
-- record states what it promises. Defs and Choice leave the threads out; Starting has `start` with
-- `Thread::start`, `threadFunc`, `poolFunc` and the latch as two threads that take turns, Handshake is
-- about what they hand over, and Progress about their end. A thread can always be created there.
--
-- Wheel: src/reactor/TimeWheel.h. The circular list of the nodes is listed from the current one. No
-- operation of the class gives `currentNode_` a first value, and Current is about that.
--
-- Blocking: src/util/BlockingQueue.h. What a thread does between two calls of `wait` is one step.
-- A thread returns from `wait` only when it has been notified, and the bound is set before.
-- Defs has the queue with its sleeping and its notified threads, Waiting is about who sleeps,
-- and Progress about who goes on. A negative bound, which the comparison with the size turns into
-- a very large one, is left out.
--
-- Latch: src/util/CountDownLatch.h and CountDownLatch.cpp, with Mutex.h and Condition.h. A step is
-- what a thread does between two calls of `wait`; Open is about who sleeps.
--
-- Socket: src/util/Socket.h and Socket.cpp. Order has the byte orders, for a host of either one, and
-- Address the addresses that bind and connect get. The functions that only pass their arguments on to
-- a system call are left out.
--
-- Server: src/reactor/Server.h, Server.cpp, Acceptor.h and Acceptor.cpp. Acceptor has the handlers of
-- an Acceptor, Defs the operations of a Server, with `getNextEvent` of Pool. System has the steps of
-- a server, its loops and its connections, where the loops run their tasks in any order and the system
-- gives out no descriptor that is open. Entries, Keeps and Owned are about the map of the connections, and Twice about a
-- connection that is closed twice, with the handlers of Connection and the poller of Poll.
--
-- Client: src/reactor/Client.h and Client.cpp, on top of Connector and Connection. Closing is about
-- the end of its connection.
--
-- Workers: src/util/ThreadPool.h and ThreadPool.cpp, over Blocking. Order is about the order of the
-- tasks that are called, and Once about how often each is.
--
-- Thread: src/util/Thread.h and Thread.cpp. Defs has `start`, `join` and `threadFunc` as steps of two
-- threads, one for each access to the ThreadData that they share, and Race is about its end.
--
-- Timestamp: src/util/Timestamp.h and Timestamp.cpp, on integers without a bound: a result outside of
-- an int64_t is left out. Print has the conversions of `snprintf`, with at most twenty digits, which
-- are enough for 64 bits; Defs has the operations, with `gmtime_r` as a parameter; Digits and Printed
-- are about reading back what is printed. TimerQueue has its times as natural numbers instead.
--
-- Not modelled: NFile.cpp, which wraps system calls for files.
pub mod Prelude
pub mod Buffer
pub mod Poll
pub mod Timer
pub mod Connection
pub mod Connector
pub mod Pool
pub mod Wheel
pub mod Loop
pub mod Blocking
pub mod Socket
pub mod Latch
pub mod Server
pub mod Client
pub mod Workers
pub mod Thread
pub mod Timestamp
