-- ===== src/Server/Tests.antt =====
-- "a", a character of two bytes, and the first byte of another.
use event_server.FastBuf
use event_server.Base.{refl, splice, false, arith, ℕ, ◌≡◌, List, [], ◌∷◌, ◌++◌, some}
use event_server.MemFile.{contents}
use event_server.MemFile.Tests.{file-IsValid}
use event_server.Archive.{Archive}
use event_server.Archive.Tests.{writer}
use event_server.MemFile
use event_server.Archive
use event_server.Archive.{fresh, fetch}
use event_server.Archive.Serial.{write, serial_int, if_read}
use event_server.Config.Texts.{first_char}
use event_server.Server.Helpers.{
  to_little_endian, read_numbers, int64_op, int64_compare, pushed_boolean,
}
use event_server.Server.{set_message_mode}
use event_server.Server.Received.{Lines, no_line, one_line, joined, Received, read_cb_lem}
use event_server.Server.{read_cb, read_cb2}
use event_server.Server.Whole.{Whole}

abbrev cut_text : List ℕ
cut_text = 97 ∷ 195 ∷ 164 ∷ 195 ∷ []

abbrev chunks : List (List ℕ)
chunks = (11 ∷ 12 ∷ []) ∷ (13 ∷ []) ∷ []

chunks-Lines : Lines chunks
chunks-Lines =
    one_line (11 ∷ 12 ∷ []) ((13 ∷ []) ∷ []) (omega arith)
      (one_line (13 ∷ []) [] (omega arith) no_line)

read_cb_example :
    Received
      (read_cb chunks (writer false))
      (writer false)
      (contents (writer false).stream ++ joined chunks)
    × Received
        (read_cb2 chunks (writer false))
        (writer false)
        (splice 0 (joined chunks) (contents (writer false).stream))
read_cb_example = read_cb_lem chunks (writer false) chunks-Lines file-IsValid (omega arith)

-- What `to_little_endian` gives for four bytes.
four_bytes : to_little_endian (1 ∷ 2 ∷ 3 ∷ 4 ∷ []) ≡ some (some 0)
unfolding to_little_endian read_numbers set_message_mode write fresh MemFile.empty Archive.initial
    serial_int fetch MemFile.read MemFile.set_pos FastBuf.empty if_read
four_bytes = refl

-- "<=" on equal numbers.
same_numbers : int64_op (60 ∷ 61 ∷ []) 5 5 ≡ some (pushed_boolean false)
unfolding int64_op int64_compare first_char
same_numbers = refl
