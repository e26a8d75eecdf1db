-- ===== src/Lib.antt =====
-- PServer: a game server in C++ that takes packets from many sockets, hands them to a handler
-- thread and answers them. This library models its parts and proves what makes each of them
-- correct. Paths are from the root of the repository.
--
-- The network thread (PServer::Run) polls the sockets. Bytes of a socket go into the packet of that
-- socket (NetMessage) in the receive table (CHashTable); a packet that is complete goes into the
-- queue (CPackageList). The handler thread (PServer::PackDeal) takes packets out of the queue,
-- finds the handler of their type (DespatchCommand), and the handlers (PackageDeal) read and write
-- packets and answer through SocketServer::SendMsg. Two more threads run the clock and the timer.
-- Logs, the pool of database connections, the events and the signals are services beside these.
--
-- Prelude    shared lists, options and tests on numbers
-- Bytes      memory: bytes, integers in little endian, strings of characters
-- Kernel     the system calls as a parameter, with their documented behaviour
-- Message    net_message.h, net_message.cpp: the packet and its operations, with the names of the source
--            in lower case. Fields, Streams and RoundTrip are about writing and reading, Transfer,
--            Padding, Receive and Overflow about the socket
-- HashTable  hash_table.h: the table, its chains (Nodes), its laws as a finite map, and the
--            walks over all of it. Calls compares it with a function from indices to values,
--            Contents is the quotient that forgets buckets and chains
-- PackageList  net_packlist.h, net_packlist.cpp: the queue
-- Server     net_server.h, net_server.cpp: the state and the sending side; Loop has OnRecv, Poll has
--            DespatchEvent. Rounds, Reassembly, Joining, Delivery and Framing are about what the
--            receive loop makes of a stream of bytes, Outbox and Sending about OnSend and SendMsg.
--            Setup has Init and Bind, Sound is what holds between two events whatever peers send,
--            Turns is one round of OnRecv, Termination the end of its loop and of DespatchEvent, and
--            Hangup the end of a connection. Persisting, Reading and Cutting are about an event
--            that reads all there is, wherever the stream is cut, and Isolation is about the
--            sockets that an event, or a part of one, is not about
-- Events     event_manager.h, pevent.h: EventManager
-- Despatch   net_despatch.h, net_despatch.cpp: DespatchCommand
-- PackDeal   net_packdeal.h, net_packdeal.cpp, net_protocol.h: the handlers
-- Logs       plog.h, plog.cpp, log_manager.h, log_manager.cpp; Manager opens the four files
-- Db         db.h, db.cpp, db_manager.cpp, sql_manager.cpp: connections, the pool and statements
-- Lua        plua.h, plua.cpp: reading values of a script; Call and Results are a call into it,
--            Loading loads it, Dump prints the stack
-- Config     config.h, config.cpp: what config.lua says, and the first connection
-- Time       time_manager.h, utility.h
-- Signals    psignal.h, psignal.cpp: which signals have which handler
-- Threads    server.h, server.cpp: one round of each thread; System lets all of them take turns,
--            Safety, Draining and Answering are about the states this leads to. Response says what the
--            server owes to a packet, and Serving, Turns and Session compare the threads with it:
--            a turn is one event and the rounds of the handler thread behind it. Network, Links and
--            Many are about turns of many connections, Isolation about what events of the others
--            may do in any order. Lifecycle is main.cpp
--            and the handlers of psignal.cpp, Running takes its run into the steps of System, and
--            Ending is how the program ends
-- Singleton  macro_define.h: getInstance, with several threads in it
-- ScriptTest luatest.h, luatest.cpp: the class that scripts see
-- Tests      the theorems at concrete inputs
--
-- An Option result is `none` where the source has undefined behaviour: an access past a buffer or
-- an array, a call through a null pointer or an empty function, a va_list that was used before. A loop on a socket, on the
-- listening socket or on results runs on fuel, and its end is told apart from a fault. The receive
-- loop ends with more fuel than there are unread bytes, since each round but the last reads one,
-- and DespatchEvent with more than there are bytes and connections; ClearResult needs two rounds.
-- Integers of 16 bits wrap as the source has it, a socket is the 32-bit pattern of its int, and a
-- length is a number. Operations under one mutex are one step, and what the threads do is a
-- sequence of such steps.
--
-- System starts at the constructor. A step is Init or Bind of the sockets, with any answers of the
-- system, an event of the network thread, a part of one (Server.Parts: a connection, one round of
-- receiving, a packet that is queued, a send, or one of the five pieces of CloseConnect, which holds no
-- lock between them), or one of the two halves of a round of the handler thread: taking a packet and
-- dealing with it. So the handler thread also runs between the rounds of OnRecv and inside
-- CloseConnect. The events, their fuel and the world outside are arbitrary there. A line of the log
-- stands in the state with the step that writes it: the one of PTL_Test for each test packet, the one
-- of OnSockClose for each closed socket, the one on a wrong type, and the timer's; the lines of the
-- setup are results of its calls. The line goes to the file of its kind; what LogManager does with
-- the file of all is in Logs. Starting a thread is an entry in a list.
--
-- Not modelled: console output, but for that of the logs and of StackDump; the formatting of the C
-- library and of boost; the log lines of a failed query; the code of SocketServer under macros that
-- are not set; and the binding that SWIG generates (swig_wrap.h, swig_wrap.cpp).
pub mod Prelude
pub mod Bytes
pub mod Kernel
pub mod Message
pub mod HashTable
pub mod PackageList
pub mod Server
pub mod Events
pub mod Despatch
pub mod PackDeal
pub mod Logs
pub mod Db
pub mod Lua
pub mod Config
pub mod Time
pub mod Signals
pub mod Singleton
pub mod ScriptTest
pub mod Threads
pub mod Tests
