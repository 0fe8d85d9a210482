-- ===== src/Message/Tests.antt =====
-- A message of ten bytes through an archive.
use event_server.Base.{true, ◌≡◌, refl, none, some, replicate, false, arith, length, splice}
use event_server.FastBuf
use event_server.MemFile.{contents}
use event_server.MemFile.Tests.{file, file-IsValid}
use event_server.Archive.{Archive}
use event_server.Archive.Transfer.{rewound}
use event_server.Archive.Tests.{writer}
use event_server.Message.{serial_msg}
use event_server.Message.Hex.{tohex, tohex-overruns}
use event_server.Message.Ids.{new_message, delete_message, new_message-delete_message}
use event_server.Message.RoundTrip.{serial_msg-ReadsBack}

ten_bytes : length (contents file) ≡ 10
unfolding contents FastBuf.contents FastBuf.buf
ten_bytes = refl

serial_msg_example :
    (ar' : Archive) × (ar'' : Archive) × (other' : Archive) × (serial_msg false
        (writer false)
        (writer false)
      ≡ some (ar', record (writer false) { version = 15 }))
    × (serial_msg true (rewound 4 ar') (writer false) ≡ some (ar'', other'))
    × (contents other'.stream ≡ splice 0 (contents file) (contents file))
    × (serial_msg false (rewound 4 ar') (writer false) ≡ none)
serial_msg_example =
    serial_msg-ReadsBack false (writer false) (writer false) (writer false) file-IsValid refl refl
      file-IsValid file-IsValid (omega (arith, ten_bytes)) (omega (arith, ten_bytes))
      (omega (arith, ten_bytes))

-- Ten bytes in a buffer for two.
tohex_example : tohex (replicate 4 0) 4 (writer false) ≡ none
tohex_example = tohex-overruns (replicate 4 0) 1 (writer false) refl (omega arith) (omega arith)

ids_example :
    (new_message (delete_message (new_message (new_message 41).1).1)).0
    ≡ (new_message (new_message 41).1).0
ids_example = new_message-delete_message 41 (omega arith)
