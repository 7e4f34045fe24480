-- ===== src/Lib.antt =====
-- Verification of multy, the file transfer program under multy/.
--
-- The program copies files: with two threads over a circular buffer, with two processes over shared
-- memory, or from clients to a server over TCP. `multy/main.cpp` reads a command from the command
-- line, the factories make tasks of it, and the tasks move spans of bytes from a reader to a
-- writer.
--
-- Base holds what all parts share: Boolean tests, lists over native numbers, `size_t` with its
-- wrap-around, and results that may be one of the exceptions that the program tells apart.
--
-- Threads.Buffer is `CircularBuffer` of multy/src/Threads/CircularBuffer.h with
-- `BufferReader::Read` (`buffer_read`), `BufferWriter::Write` (`buffer_write`) and the two flags of
-- BufferStateSync.h; each operation is a function on the record of the buffer. Bounds has the
-- representation invariant, Contents the bytes that the buffer holds, Stores what single stores do
-- to them, Transfer the two operations of the spans, and Refine the comparison with a queue.
--
-- Threads.Pipeline is the program that multy/src/Threads/MultiThreadTask.cpp starts: the reading
-- thread (`produce`) runs FileDataTransferTask over SafeWriteDataAccess, the writing thread
-- (`consume`) runs BufferTransferTask over SafeReadDataAccess. A thread is a program counter with
-- its live locals, a step is one shared access, and an interleaving is the list of the threads that
-- step (`run`). Invariant, Produce and Consume have the invariant and its preservation, and History
-- that steps only add to the account of the bytes. Calm, Fill, Read, Deliver, Loss, Hang, Overflow
-- and Hole are about particular interleavings, and Flow, Closing and Fair about all that let each
-- thread step often enough. In Pipeline the file reader and the file writer do not throw.
--
-- Threads.Objects has the objects of the two threads as MultiThreadTask::Create puts them together,
-- with what they refer to in a store: Creation compares them with the start of the two threads and
-- with the factories, and Writes the methods through the references with the functions on the
-- buffer.
--
-- Process is multy/src/MultiProcess: the two processes over the shared memory and its semaphores,
-- in the same style (`send`, `receive`, `interleave`), with the invariant in Process.Invariant and
-- Process.Handover, and what can go wrong and what helps in Process.Loss and Process.Prompt.
-- Process.Role is the choice of a process's part in MultiProcessTask.cpp. Process.Names has the
-- named semaphores and the shared memory object, as the constructors open or create them and the
-- destructors remove them, and the signal handler; Process.Restart is about what is left of them,
-- and Process.Faults about the errors of the shared memory that SharedWriteData.h and
-- SharedReadData.h catch. Process.Rounds and Process.Copy are about the processes when they take
-- turns.
--
-- Wire.Cipher is `Encryption` (multy/src/common/Encryption.h, multy/src/Network/Encryption.cpp).
-- Crypto++ is a parameter: `CtrMode`, with the laws of a stream cipher, and the result of the
-- random generator as an argument. Wire.Serializer is `Serializer` of
-- multy/src/common/Serializer.h.
--
-- FileStream is multy/src/FileStream: `FileDataReader` in FileStream, `FileDataWriter` in
-- FileStream.Writer, and the model of paths and files that they use in FileStream.Disk. The rules
-- for paths are those of Windows, which the program is written for: drives, servers and devices are
-- root names, and `join` and `filename` are `path::operator/` and `path::filename` with them.
-- Disk.Folders has the lemmas on folders, and Writer.Laws and Writer.Alike what a writer does to a
-- disk.
--
-- Transfer is the tasks of multy/src/common, over any reader and writer that may throw, as programs
-- in a state and exception monad, with the loop of NetworkTask.cpp over the tasks of a client. The
-- loops of the tasks take fuel: one round for each span that is read and one for the end. A file of
-- n bytes has at most n chunks, and `send_file` is given n + 1 rounds.
--
-- Network is `DataHandler`, and the segment readers of the client; Network.Server is TCPServer.h,
-- TCPConnection.h and the server side of NetworkTask.cpp, as callbacks that come in any order, with
-- the numbers of the connections in Server.Identity, what ends the server in Server.Failure, the
-- folders of the clients in Server.Isolation, and the server compared with one that serves a single
-- client (Server.Single, and Server.Mirror for one event) in Server.Projection. Network.Session and
-- Network.Refused are about the spans that a handler takes and does not take. Network.Folders,
-- Network.Agree, Network.Home and Network.Alone have the lemmas on folders and on the part of a
-- disk that a client depends on. Network.Client is TCPClient.h with the tasks that ReaderFactory.h
-- makes for one file: `send_file` is their run. Asio is a parameter: how the connecting went, and
-- how many bytes of each write the system takes at once. Client.Writes and Client.Pump follow the
-- writes of a file, Client.Send the whole run, Client.Short a write that the system does not take
-- whole, Client.Several a client that is given several files, Client.Deliver the way of a file to a
-- handler, Client.Joined the same where all comes in one span, and Client.Partial where
-- only the first spans come.
--
-- Command is multy/src/Command/ProgramOptions.h and multy/include/Config.h, behind the parser of
-- Boost, which is a parameter and gives the options that it finds; the default values of the others
-- are put in as the program declares them. Factory is multy/src/Factory and `main`.
--
-- Whole puts the file reader in front of the two threads and of the segments of the network, and
-- Arrival the client's tasks in front of the server, with Arrival.Spans on what comes for one
-- client.
--
-- Tests runs the code on concrete inputs.
--
-- Bounds: capacities of the buffer up to 2 ^ 63 (the program uses 2 ^ 19), sizes in segments modulo
-- 2 ^ 32 as in the code, segment sizes stored on a little-endian machine.
--
-- Paths are compared as texts: two texts that name one file on the system count as two files. The
-- current path is absolute. What the system refuses to open or to create does not change during a
-- run, and a write to a file that is open succeeds: the program does not look whether it did.
--
-- Not modelled: the console output and multy/src/common/Logger.h, the signal handler of
-- NetworkTask.cpp (it only ends the process, and leaves the disk as the events so far have left
-- it), the handler of `async_write` beyond its own body (nothing calls it), and the test program.
-- Memory orders are taken as sequentially consistent: the two indices are so in the code, and the
-- flags are released and acquired.
pub mod Base
pub mod Threads
pub mod Wire
pub mod Command
pub mod Factory
pub mod FileStream
pub mod Transfer
pub mod Network
pub mod Process
pub mod Whole
pub mod Arrival
pub mod Tests
