-- ===== src/ByteMap/Tests.antt =====
-- Four bytes of a message of ten, mapped and mapped back.
use event_server.Base.{
  ◌≡◌, ℕ, ◌<◌, suc, zero, some, true, false, replicate, cons, nil, Bytes, arith,
}
use event_server.MemFile.{contents}
use event_server.MemFile.Tests.{file-IsValid}
use event_server.Archive.{Archive}
use event_server.Archive.Tests.{writer}
use event_server.ByteMap.{map_kind}
use event_server.ByteMap.Inverse.{map_kind-inverse}

replicate-Bytes : (n b : ℕ) → b < 256 → Bytes (replicate n b)
replicate-Bytes zero b h = nil
replicate-Bytes (suc n) b h = cons b _ h (replicate-Bytes n b h)

map_kind-inverse_example :
    (a' : Archive) × (a'' : Archive) × (map_kind 2 4 false (writer false) ≡ some a')
    × (map_kind 2 4 true a' ≡ some a'')
    × (contents a''.stream ≡ contents (writer false).stream)
map_kind-inverse_example =
    map_kind-inverse 2 4 (writer false) file-IsValid
      (cons 1 _ (omega arith) (
        cons 2 _ (omega arith) (
          cons 3 _ (omega arith) (
            cons 4 _ (omega arith) (
              cons 5 _ (omega arith) (
                cons 6 _ (omega arith) (
                  cons 7 _ (omega arith) (
                    cons 8 _ (omega arith) (
                      cons 9 _ (omega arith)
                        (cons 10 _ (omega arith) (replicate-Bytes 23 0 (omega arith))))))))))))
      (omega arith)
