-- ===== src/MemFile/Tests.antt =====
-- The laws of `CIMemFile` at work on the empty file.
use event_server.Base.{
  ◌+◌, ℕ, ◌-◌, ◌≡◌, some, none, List, ◌∷◌, arith, leb, if◌then◌else◌, length, take, drop, replicate,
  size_mod, int_mod, ◌%◌,
}
use event_server.MemFile.{
  MemFile, Reply, done, minus_one, err_no, err_read, read, write, set_pos, remove_head_buffer,
  contents,
}
use event_server.MemFile.Valid.{IsValid, read_lem}
use event_server.MemFile.Put.{Wrote}
use event_server.MemFile.Write.{write_lem}
use event_server.MemFile.Position.{read-write, remove_head_buffer_lem}

-- Ten bytes written, the position after four of them.
abbrev pub file : MemFile
file = record {
  fast_buf = record {
    heapbuf = none;
    arrbuf = 1 ∷ 2 ∷ 3 ∷ 4 ∷ 5 ∷ 6 ∷ 7 ∷ 8 ∷ 9 ∷ 10 ∷ replicate 23 0;
    cp_len = 10;
    alloc_len = 32;
  };
  cur_pos = 4;
  error_code = err_no;
}

pub file-IsValid : IsValid file (1 ∷ 2 ∷ 3 ∷ 4 ∷ 5 ∷ 6 ∷ 7 ∷ 8 ∷ 9 ∷ 10 ∷ replicate 23 0)
file-IsValid = record { holds = ground arith; pos_in = omega arith; small = omega arith }

write_example :
    (m' : MemFile) × (new : List ℕ) × (write (replicate 40 7) 40 file
      ≡ some (if leb 44 32 then done (40 % int_mod) else minus_one, m'))
    × Wrote file (take 40 (replicate 40 7)) m' new
write_example = write_lem (replicate 40 7) 40 file-IsValid (omega arith) (omega arith)

read-write_example :
    (r : Reply ℕ) × (m' : MemFile) × (m'' : MemFile) × (write (replicate 40 7) 40 file
      ≡ some (r, m'))
    × (read 40 (set_pos 4 m') ≡ some (done (replicate 40 7), m''))
    × (contents m'' ≡ contents m')
read-write_example = read-write (replicate 40 7) file-IsValid (omega arith)

remove_head_example :
    (m' : MemFile) × (new : List ℕ) × (remove_head_buffer 3 file ≡ some m')
    × IsValid m' new
    × (contents m' ≡ drop 3 (contents file))
    × (m'.cur_pos ≡ 0)
remove_head_example = remove_head_buffer_lem 3 file-IsValid

read_example : read (size_mod - 2) file ≡ (
    if leb size_mod (4 + (size_mod - 2))
    then none
    else some (
        if leb (4 + (size_mod - 2)) (length (contents file))
        then (
          done (take (size_mod - 2) (drop 4 (contents file))),
          record file { cur_pos = 4 + (size_mod - 2) },
        )
        else (minus_one, record file { error_code = err_read })))
read_example = read_lem (size_mod - 2) file-IsValid (omega arith)
