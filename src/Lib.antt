-- ===== src/Lib.antt =====
-- odroid-player, the server that plays media files and takes commands from its clients over a Unix
-- socket, with the library that the clients use, and the parts of both that this library models.
--
-- The server is a process of five threads that share one `t_player`. The server thread
-- (src/server/server/server.c) accepts clients and turns their messages into nodes of a queue. The
-- response thread (src/server/response/response.c) takes nodes off the queue, runs the command of
-- each (src/server/agmp/agmp_cmds.c), broadcasts it and answers. The stream thread
-- (src/server/stream/stream.c) sends the playing time to the clients that asked for it. The play
-- thread (src/server/player/player.c) forks one gst-launch process for each file of the playlist,
-- waits for it, and acts on the command that is pending then. A watchdog ends the process when the
-- stopping of the player, on SIGINT, takes longer than a second.
--
-- The client library (src/client/opc) is another process, with two threads that share one
-- `OP_CLIENT`. A request counts `msg_idx`, sends a message with it, and waits in `cmd_queue` for
-- the answer that repeats it, at most until an alarm rings. The receiver puts answers into
-- `cmd_queue` and notices into `msg_queue`, connects again when the server closes the connection,
-- and at its end tells those who wait in either queue to stop.
-- The client programs are the command line client (src/client/main.c) and the remote control
-- (src/examples/ir).
--
-- Files:
-- Prelude.antt and below: Boolean tests and lists over the native numbers, and integers.
-- Sys.antt: the calls to the system that the operations make, as values in a list, in their order.
-- Message.antt: src/message/message.proto, and `create_node` of src/server/utils/queue.c.
-- Queue.antt: src/server/utils/queue.c. Queue/Size and Queue/Wait are about its size and its waits,
-- Queue/Fifo runs it against a first-in first-out list.
-- Playlist.antt: src/server/playlist/playlist.c. Playlist/Valid shows it as a list with a cursor.
-- Pool.antt, Pool/Change.antt: src/server/client/client.c. Pool/Search, Pool/Slots,
-- Pool/Index and Pool/Removal say which slot is read and written, Pool/Valid shows the pool as a map
-- from descriptors to clients, Pool/Overlap is about two removals at the same time, Pool/Streams about
-- the streams and Pool/Snapshot about the copy for broadcasts.
-- FdSet.antt, FdSet/Wait.antt: src/server/utils/fd_set.c. Send.antt: src/server/send/send.c.
-- Player.antt: src/server/player/player.c without its threads. Player/Clock is about the
-- position, Player/Commands about the signals to the child, Player/Prepare about the file list.
-- Lifecycle.antt: the start and the end of src/server/player/player.c. Lifecycle/Threads is about the
-- threads that are started and joined.
-- Playback.antt: `run_player` of src/server/player/player.c. Playback/Cursor, Playback/Frame and
-- Playback/Turns are about its parts, Playback/Machine about all its runs, Playback/Stopping about
-- STOP and the end.
-- Agmp.antt, Agmp/Media.antt: src/server/agmp/agmp_utils.c, and the lines that it prints of a file.
-- Agmp/Moves is about its moves in the playlist.
-- Command.antt: src/server/agmp/agmp_cmds.c and `init_cmd_array`, the table of these handlers.
-- Command/Moves is about what they return and announce.
-- Stream.antt: src/server/stream/stream.c, with Stream/TimeText about the text of a time.
-- Receive.antt: src/server/receive/receive.c.
-- Server.antt: src/server/server/server.c. Server/Accept is about how clients come and go,
-- Server/Slots about what their messages leave, Server/Faults about the messages that it cannot read.
-- Response.antt: src/server/response/response.c. Response/Outcome is about what a round comes to,
-- Response/Streaming about a request for a stream.
-- System.antt: the threads of src/server together, as a step relation. System/Shared, Steady, Frame,
-- Answering, Executing and Playing say what each operation keeps of the player, System/Live and
-- System/Start what holds in every state that the threads reach.
-- Threads.antt: the loops of the server, response and stream threads, with Threads/Ends about their
-- end.
-- Watchdog.antt: src/server/utils/watchdog.c, with Watchdog/Expiry about when it ends the server.
-- Socket.antt: src/server/socket/socket.c, with Socket/Cleanup about its failures and its names.
-- Startup.antt, Startup/Options.antt: src/server/main.c. Startup/Files is about how many file names
-- fit, Startup/Options/Listed about what `main` does with them.
-- Opc.antt: the types of src/client/opc.
-- Opc/Queues.antt: src/client/opc/utils/queue.c, with Opc/Queues/Conditional about the nodes that are
-- withheld.
-- Opc/Monitors.antt: src/client/opc/monitor/monitor.c.
-- Opc/Sending.antt: src/client/opc/send/send.c and src/client/opc/opc_cmd.c.
-- Opc/Waiting.antt: src/client/opc/response/response.c and src/client/opc/opc_utils.c.
-- Opc/Waiting/Answers is about the answer that is found, Opc/Waiting/Sources about its node.
-- Opc/Connection.antt: src/client/opc/opclient.c up to `opc_destroy`, with Opc/Connection/Preparing and
-- Opc/Connection/Tries about the preparation and the attempts to connect.
-- Opc/Reception.antt, Opc/Receiver.antt: src/client/opc/receive/receive.c, one message and the loop of
-- the thread. Their children Sound say what is kept of the client, Opc/Receiver/Stops how the thread
-- ends.
-- Opc/Requests.antt: the rest of src/client/opc/opclient.c. Opc/Requests/Own is about whose answer a
-- request returns, Opc/Requests/Returns about what it leaves.
-- Console.antt, Console/Program.antt: src/client/main.c, a key at a time and as a whole. Console/Loop
-- is about what its loop keeps, Console/Closing about what ends it, Console/Program/Ends about the ends of
-- the program.
-- Listener.antt: the thread of src/client/utils.c that prints notices, with Listener/Order about the
-- order of its lines. Viewer.antt: `my_print_stream` of the same file, with Viewer/Texts about what it
-- prints.
-- Keypad.antt, Keypad/Program.antt: src/examples/ir, its keys, its device and its library, and the
-- program. Keypad/Choice is about the keys and the device, Keypad/Program/Releases about its ends.
-- Exchange.antt and Exchange/RoundTrip: a request from the client to the server and its answer back.
-- Examples.antt and below: test data, and runs of the theorems on them.
--
-- How the code is read. State is passed explicitly; an operation returns its value, the new state
-- and the calls that it makes. A function that holds a mutex is one step; `enqueue` reads `size`
-- before it locks, and is one step as well. The functions of src/server/client/client.c lock and unlock
-- several times, and are translated for a thread that runs alone; `remove_at` is the last of the
-- sections of `remove_client` by itself. A thread that waits on a condition takes the states
-- that its wake-ups find as a list, so its loop is recursion on that list. The loop of the
-- attempts to answer counts down from `resend_count`, and that of `opc_connect` from
-- `max_connect_wait`, the bounds of the code; the search for a free socket name has fuel above
-- the number of the names taken; there is no other fuel. The wait of a request is recursion on a
-- list of visits to its queue, those of the seconds before the alarm. `run_player` is cut where
-- it waits, into `before_spawn`, `spawned` and `reaped`, and a step relation interleaves these
-- with commands from other threads; between two of these points the play thread is one step. The
-- step relation of System.antt adds the other threads of the server: a step is a descriptor that is
-- accepted, a slot that is looked at, a node that is taken, executed or answered, or a stream that is
-- served. `accept` gives any descriptor there. What the sections of two threads do to the pool of
-- clients and to the sets of descriptors, in between and where they overlap, is a step to any pool and
-- any sets. The loops of
-- Threads.antt and of the client's receiver run over lists of turns, so that they take no fuel: each
-- turn says what the other threads do meanwhile. The answers of `malloc`, `fork`,
-- `accept`, `pselect`, `recv`, `send`, `sendto`, `pthread_kill` and `gettimeofday` are arguments;
-- those of one place are a record, such as `SocketApi`, `Net`, `Input` or `World`. `strdup` is
-- taken to have memory; `strdup(NULL)` and reads past an array are faults, shown as `none`. A
-- `char*` is an `Option String`, `none` for NULL. An `int`, `pid_t` or `long long` is an integer
-- that does not overflow; the 8 slots, 128 files and 65 nodes keep the counters far below the
-- limits. A `size_t` wraps at 2 ^ 64 where the code counts it up and down or converts an `int` to
-- it. Log output, assertions and the thread identifiers beyond zero or not are left out.
--
-- Not modelled: signal handlers with their masks, but for those of the client programs; a jump of the
-- client's alarm out of the middle of a step; what is logged; how `sscanf` and `strncmp` read an
-- option; the back end src/server/agmp/agmplayer.c, which is code of another project
-- around GStreamer and which the forked player does not call; and the generated protobuf code,
-- which delivers what was packed.
pub mod Prelude
pub mod Sys
pub mod Message
pub mod Queue
pub mod Playlist
pub mod Pool
pub mod FdSet
pub mod Send
pub mod Player
pub mod Playback
pub mod Command
pub mod Stream
pub mod Receive
pub mod Server
pub mod Response
pub mod Startup
pub mod Watchdog
pub mod Socket
pub mod Agmp
pub mod Lifecycle
pub mod Keypad
pub mod Opc
pub mod Viewer
pub mod Console
pub mod Listener
pub mod Exchange
pub mod System
pub mod Threads
pub mod Examples
