-- ===== src/Crc/Tests.antt =====
-- The checksum of two bytes, with one behind them.
use event_server.Base.{◌≡◌, some, [], ◌∷◌, cons, nil, arith}
use event_server.Crc.{crc16}
use event_server.Crc.Bitwise.{modbus, crc16-modbus}

crc16-modbus_example : crc16 (1 ∷ 2 ∷ 9 ∷ []) 65538 ≡ some (modbus (1 ∷ 2 ∷ []) 0xFFFF)
crc16-modbus_example =
    crc16-modbus (1 ∷ 2 ∷ []) (9 ∷ []) 65538
      (cons 1 (2 ∷ []) (omega arith) (cons 2 [] (omega arith) nil)) (omega arith)
