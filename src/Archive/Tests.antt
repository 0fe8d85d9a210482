-- ===== src/Archive/Tests.antt =====
-- The laws of `CIArchive` at work: values written into a file that holds ten bytes already.
use event_server.Base.{
  none, drop, ℕ, List, [], ◌∷◌, some, length, length-replicate, ◌++◌, ◌+◌, ◌%◌, ◌^◌, ◌≡◌, refl,
  Bool, true, false, not, ◌&&◌, arith, replicate, le_bytes, int_mod,
}
use event_server.MemFile.Tests.{file, file-IsValid}
use event_server.Archive.{
  Archive, sm_read, sm_write, through, short_swap, long_swap, long_long_swap,
}
use event_server.Archive.Serial.{
  serial_int, serial_uint16, serial_uint64, serial_bool, serial_long, long_of_int,
}
use event_server.MemFile.Valid.{length-contents}
use event_server.Archive.Transfer.{rewound}
use event_server.Archive.Strings.{
  NoZero, none_left, one_more, serial_string, serial_string-ReadsBack,
}
use event_server.Archive.Positions.{push_address, set_index_pos, set_index_pos-push_address}
use event_server.Archive.Reads.{Reads}
use event_server.Archive.Bounded.{serial_str, serial_str-overruns}
use event_server.FastBuf
use event_server.MemFile.{contents}
use event_server.Archive.RoundTrip.{ReadsBack, serial-ReadsBack}

-- An archive that swaps, and one that does not.
abbrev pub writer : Bool → Archive
writer swapped = record {
  stream = file;
  mode = sm_write;
  swapped = swapped;
  addresses = replicate 10 0;
  index = 0;
  version = 15;
  exe_cnt = 0;
}

serial_example :
    ReadsBack serial_uint16 (writer true) 0 258 (through short_swap (writer true) 258)
    × ReadsBack serial_int (writer true) 0 0x01020304 (through long_swap (writer true) 0x01020304)
    × ReadsBack serial_uint64
        (writer true)
        0
        (2 ^ 40 + 5)
        (through long_long_swap (writer true) (2 ^ 40 + 5))
    × ReadsBack serial_long
        (writer true)
        0
        (2 ^ 40 + 5)
        (long_of_int (through long_swap (writer true) ((2 ^ 40 + 5) % int_mod)))
    × ReadsBack serial_bool (writer true) true true (true && not true)
serial_example =
    serial-ReadsBack (writer true) file-IsValid refl 0 258 0x01020304 (2 ^ 40 + 5) true true
      (omega arith) (omega arith) (omega arith) (omega arith)

abbrev cleared : ℕ → List ℕ
cleared n = replicate n 0

length-cleared : (n : ℕ) → length (cleared n) ≡ n
length-cleared n = length-replicate {A = ℕ} n 0

greeting-NoZero : NoZero (72 ∷ 105 ∷ [])
greeting-NoZero = one_more 72 _ (omega arith) (one_more 105 _ (omega arith) none_left)

serial_string_example :
    (a' : Archive) × (a'' : Archive) × (serial_string cleared
        ((72 ∷ 105 ∷ []) ++ 0 ∷ (9 ∷ []))
        (writer false)
      ≡ some ((72 ∷ 105 ∷ []) ++ 0 ∷ (9 ∷ []), a'))
    × (serial_string cleared [] (rewound 4 a') ≡ some ((72 ∷ 105 ∷ []) ++ 0 ∷ [], a''))
serial_string_example =
    serial_string-ReadsBack cleared (72 ∷ 105 ∷ []) (9 ∷ []) [] (writer false) length-cleared
      greeting-NoZero file-IsValid refl refl (omega arith) (omega arith)

address_example :
    (l : List ℕ) × (push_address (writer false)
      ≡ some (record (writer false) { addresses = l; index = 1 }))
    × (set_index_pos 0 (record (writer true) { addresses = l })
        ≡ some (record (writer true) { addresses = l; stream = record file { cur_pos = 4 } }))
address_example =
    set_index_pos-push_address (writer false) (writer true) refl refl (omega arith) (omega arith)
      file-IsValid (omega (arith, length-contents file-IsValid))

-- The bytes 5, 6, 7 and 8 lie ahead, and then two more.
abbrev reader : Archive
reader = record (writer false) { mode = sm_read }

ahead : drop 4 (contents file) ≡ le_bytes 4 134678021 ++ (9 ∷ 10 ∷ [])
unfolding contents FastBuf.contents FastBuf.buf le_bytes
ahead = refl

reader-Reads :
    Reads reader
      (1 ∷ 2 ∷ 3 ∷ 4 ∷ 5 ∷ 6 ∷ 7 ∷ 8 ∷ 9 ∷ 10 ∷ replicate 23 0)
      (le_bytes 4 134678021 ++ (9 ∷ 10 ∷ []))
reader-Reads = record { valid = file-IsValid; ahead_eq = ahead; mode = refl; plain = refl }

serial_str_example : serial_str (0 ∷ 0 ∷ []) 2 reader ≡ none
serial_str_example =
    serial_str-overruns (0 ∷ 0 ∷ []) 134678021 reader (9 ∷ 10 ∷ []) reader-Reads (omega arith)
      (omega arith)
