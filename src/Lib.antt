-- ===== src/Lib.antt =====
-- EventServer: a Lua application server over libevent, with its serialisation library `lae` and its
-- worker threads. This library models the parts of it that carry the program's data.
--
-- A message (`CLXZMessage`) is an archive (`CIArchive`) over a file in memory (`CIMemFile`) over a
-- byte buffer (`FastBufAlloc`). Numbers and texts go through the archive, in one mode for writing and
-- one for reading; WebSocket frames are built in a message and taken out of a received buffer into
-- one. A worker thread takes tasks from its queue, runs their Lua code and gives the results to a
-- list that the main thread works off.
--
-- Base: lists, splices of byte arrays, words in memory, exclusive or, and `Option` as the monad of
--   memory accesses, where `none` is an access outside an array; the ledger of what is allocated and
--   not yet freed (Ledger), where `none` is a free of something else.
-- FastBuf: lae/include/FastBufAlloc.h; a record with the inline and the heap array. `grow`,
--   `append`, `setcplen`, `release`, `assign` (operator =) and `copy` are the methods. `Holds` is the
--   invariant: which array stands behind `buf()`, and that it has `alloc_len + 1` cells.
-- MemFile: lae/source/IMemFile.cpp; `read`, `write`, `set_pos`, `remove_head_buffer`, `initial`,
--   `release`. `IsValid` is the invariant.
-- Archive: lae/source/IArchive.cpp; the overloads of `Serial` by their types, and the byte swaps,
--   which the source keeps as function pointers and the model as a flag; C strings (Strings,
--   Bounded) and saved positions (Positions).
-- WebSocket: `SetWebSocketFrame` and `GetWebSocketFrame` of lae/source/LXZMessage.cpp. Format has
--   the layout of RFC 6455, written down independently of the code.
-- Message: `SerialMsg`, `tohex` and `msg_id` of lae/source/LXZMessage.cpp: a message inside an archive,
--   its bytes in print, and its identifier. A message of the other modules has a stream; only `SerialMsg`
--   is told by `attached` whether `setMode` has given it one.
-- LuaThread: LuaThread.cpp and LuaThreadMgr.cpp; a task, what running it does to its result buffer,
--   and the interleavings of the main thread with one worker as a step relation. Its parameter `most`
--   is the largest number that `SetMaxTask` is called with, or the 10000 of the start if that is more.
-- VVector: lae/include/vvector.h; the growing array, as cells of memory with two counts.
-- Config: lae/source/LXZCoreCfg.cpp; the named values, all setters and getters (`set_value` and
--   `get_value` are what the five of each share), the cells that remember a place, texts and their
--   addresses (Texts), what one line of the file is for `load` and `save` (Lines), and how `load` takes
--   the lines from the pieces that it reads (Parsing, with the class `CStringParsing`). Found has the
--   abstract map from names to values.
-- Server: EventServer.cpp; `read_cb` and `read_cb2`, which put what comes in on a connection into its
--   message, up to the call of Lua (`chunks` is what the reads of libevent deliver); `set_char_zero`,
--   which cuts a text behind its last whole character (its loop runs on fuel, one round more than the
--   text has bytes, and `skip_chars_lem` shows that this is enough); the arithmetic on 64-bit numbers
--   and the reading of a number from bytes (Helpers).
-- Http: EventServer.cpp; the requests of the HTTP client, from `send_http_get` and `send_http_post` over
--   `start_url_request`, `get_cb` and `post_cb` with their redirections to `http_request_free`. What
--   the calls of libevent did (`Started`) and what came back (`Reply`) are data from outside.
-- Notify: EventServer.cpp; the queue `_vvMsg` over VVector, which `Notify` fills from any thread and
--   `notify_timer_cb` empties, as a sequence of events that the lock puts in an order.
-- Crc, ByteMap: `CRC16` and `MapKind` of lae/source/LuaLXZMessage.cpp, with their tables.
--
-- The target is a 64-bit machine with a 32-bit `int`, little-endian; `size_t` wraps at 2 ^ 64, and a
-- negative `int` that becomes a `size_t` is written out. An `int` is its low 32 bits as a natural number,
-- negative from `int_half` on. `new` is taken to succeed. `max_alloc` and
-- `max_file` (2 ^ 61 and 2 ^ 58 bytes) bound what the laws of files ask for, far above any memory,
-- so that doubling the size cannot wrap. On fuel are the loop in Server and the two of `load`, which
-- have one round more than there are bytes (`load_file_lem` shows that this is enough).
--
-- These things are parameters or data from outside: what a shift of an `int` by 32 and more gives,
-- which C leaves undefined (`shl_wide`, with the hypothesis that it takes 0 to 0), what the Lua
-- interpreter does with a task (`Outcome`), what memory from `new` holds (`new_chars`, `fresh`,
-- `raw`), the printing and reading of numbers by the C library (`print_int`, `atoi` and the
-- like), and what libevent does with a request (`Started`, `Reply`).
--
-- Not modelled: the rest of the server (EventServer.cpp), the Lua bindings but those named above, the
-- other methods of `CLXZMessage` and `CIArchive` (the plain fields, pointers), locks and events of the
-- platform, and the vendored libraries.
pub mod Base
pub mod FastBuf
pub mod MemFile
pub mod Archive
pub mod WebSocket
pub mod Message
pub mod VVector
pub mod Config
pub mod Crc
pub mod ByteMap
pub mod Server
pub mod Http
pub mod Notify
pub mod LuaThread
