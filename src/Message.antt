-- ===== src/Message.antt =====
-- lae/source/LXZMessage.cpp, `SerialMsg`: a message inside an archive. A message is an `Archive` here.
pub mod RoundTrip
pub mod Hex
pub mod Ids
mod Tests
use event_server.Base.{
  ℕ, ◌*◌, ◌%◌, Bool, Option, none, some, List, ltb, leb, if◌then◌else◌, replicate, int_mod, int_le,
}
use event_server.Base.Memory.{◌>>=◌, ◌>>◌}
use event_server.FastBuf
use event_server.MemFile
use event_server.MemFile.{done, minus_one}
use event_server.Archive.{Archive, Mode, sm_read, sm_write, set_mode}
use event_server.Archive.Serial.{serial_int, serial_buf, serial_chars}
use event_server.WebSocket.{msg_size}

-- The reading side takes sizes below this.
abbrev pub max_nested : ℕ
max_nested = 104857600

-- `CIArchive::setMode` of a message. `attached` says that `m_pISerial` is set: a new message has a null
-- pointer there until its own `setMode` is called.
unfoldable pub set_own_mode : Bool → Mode → Archive → Option Archive
set_own_mode attached mode msg = if attached then some (set_mode mode msg) else none

-- `new char[len]`, read into from the archive, then written at the start of the message. What `new`
-- leaves in the array does not matter, as `Serial` clears it first.
unfoldable pub take_content : Bool → ℕ → Archive → Archive → Option (Archive × Archive)
take_content attached len ar msg = do
  (buf, ar') ← serial_buf (replicate len 0) len len ar
  started ← set_own_mode attached sm_write msg
  (_, msg') ← serial_chars buf len started
  some (ar', msg')

-- `m_IMemStream.Read(NULL, 0x0FFFFFFF)`
unfoldable pub refuse : Archive → Option Archive
refuse msg = do
  (reply, s) ← MemFile.read 0x0FFFFFFF msg.stream
  elim reply [ done bytes ↦ none | minus_one ↦ some (record msg { stream = s }) ]

-- `SerialMsg` on an archive that is read, and on one that is written.
unfoldable pub read_msg : Bool → Archive → Archive → Option (Archive × Archive)
read_msg attached ar msg = do
  (len, ar') ← serial_int 0 ar
  (ar'', msg') ←
      if ltb len max_nested
      then (if ltb 0 len then take_content attached len ar' msg else some (ar', msg))
      else (do msg' ← refuse msg; some (ar', msg'))
  ended ← set_own_mode attached sm_read msg'
  some (ar'', ended)

unfoldable pub write_msg : Archive → Archive → Option (Archive × Archive)
write_msg ar msg =
    let len : ℕ = msg_size msg in
    do
      (_, ar') ← serial_int len ar
      if int_le 1 len
          then (do
            bytes ← FastBuf.buf MemFile.cache msg.stream.fast_buf
            (_, ar'') ← serial_buf bytes len len ar'
            some (ar'', msg))
          else some (ar', msg)

-- Both begin with `setVersion(ar.getVersion())`.
unfoldable pub serial_msg : Bool → Archive → Archive → Option (Archive × Archive)
serial_msg attached ar msg = elim ar.mode [
  | sm_read ↦ read_msg attached ar (record msg { version = ar.version })
  | sm_write ↦ write_msg ar (record msg { version = ar.version })
]
