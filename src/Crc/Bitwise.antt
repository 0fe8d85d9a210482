-- ===== src/Crc/Bitwise.antt =====
-- The table-driven loop against the bitwise definition of the checksum.
use event_server.Base.{
  ℕ, zero, suc, ◌+◌, ◌*◌, ◌/◌, ◌%◌, ◌^◌, ◌<◌, ◌≡◌, refl, bit_xor, Bool, true, false, ◌==◌,
  if◌then◌else◌, passes_under, passes_under_at, ltb, ltb→lt, ==_iff, ◌&&◌, ◌++◌, length, ap, ◌∙◌,
  sym, arith, bit_xor_low, bit_xor_byte, Bytes, cons, Option, none, some, List, [], ◌∷◌, get_elem?,
}
use event_server.Crc.{crc_loop, crc16}
use event_server.Crc.Tables.{crc_hi, crc_lo}

-- One bit of the division by the polynomial 0xA001, and eight of them.
abbrev pub shift : ℕ → ℕ
shift c = if c % 2 == 1 then bit_xor (c / 2) 0xA001 else c / 2

abbrev pub shift8 : ℕ → ℕ
shift8 c = shift (shift (shift (shift (shift (shift (shift (shift c)))))))

abbrev agrees : ℕ → ℕ → ℕ → ℕ → Bool
agrees i h l lo =
    (shift8 (lo * 256 + i) == bit_xor lo h + l * 256) && ltb (bit_xor lo h) 256 && ltb l 256

abbrev row : ℕ → Bool
row i = elim (get_elem? crc_hi i) [
  | none ↦ false
  | some h ↦ elim (get_elem? crc_lo i) [ none ↦ false | some l ↦ passes_under (agrees i h l) 256 ]
]

tables_agree : passes_under row 256 ≡ true
unfolding passes_under
tables_agree = refl

-- What the tables say of the index `i`.
record Entry (i : ℕ) : Type 0 where
  h : ℕ
  l : ℕ
  hi_eq : get_elem? crc_hi i ≡ some h
  lo_eq : get_elem? crc_lo i ≡ some l
  rows : passes_under (agrees i h l) 256 ≡ true

entry_of :
    (i : ℕ) (p q : Option ℕ)
    → get_elem? crc_hi i ≡ p
    → get_elem? crc_lo i ≡ q
    → elim p [
      | none ↦ false
      | some h ↦ elim q [ none ↦ false | some l ↦ passes_under (agrees i h l) 256 ]
    ]
      ≡ true
    → Entry i
entry_of i none q e f k = absurd (ground arith)
entry_of i (some h) none e f k = absurd (ground arith)
entry_of i (some h) (some l) e f k = record { h = h; l = l; hi_eq = e; lo_eq = f; rows = k }

entry : (i : ℕ) → i < 256 → Entry i
entry i h = entry_of i _ _ refl refl (passes_under_at row 256 i h tables_agree)

split : (a b c : Bool) → (a && b && c) ≡ true → (a ≡ true) × (b ≡ true) × (c ≡ true)
split a b c h = ground arith

entry_agrees :
    (i lo : ℕ) (t : Entry i)
    → lo < 256
    → (shift8 (lo * 256 + i) ≡ bit_xor lo t.h + t.l * 256) × (bit_xor lo t.h < 256) × (t.l < 256)
entry_agrees i lo t q =
    let (e, f, g) = split _ _ _ (passes_under_at (agrees i t.h t.l) 256 lo q t.rows) in
    ((==_iff _ _).0 e, ltb→lt _ 256 f, ltb→lt _ 256 g)

turned : (x y z : ℕ) → z ≡ x + y * 256 → y * 256 + x ≡ z
turned x y z e = omega (arith, e)

-- The checksum as a division: one byte after another goes into the low byte, and eight bits are
-- shifted out.
abbrev pub modbus : List ℕ → ℕ → ℕ
modbus [] c = c
modbus (b ∷ bs) c = modbus bs (shift8 (bit_xor c b))

loop_run :
    (b : ℕ) (msg : List ℕ) (len hi lo : ℕ) {h l : ℕ}
    → get_elem? crc_hi (bit_xor hi b) ≡ some h
    → get_elem? crc_lo (bit_xor hi b) ≡ some l
    → crc_loop (b ∷ msg) (suc len) hi lo ≡ crc_loop msg len (bit_xor lo h) l
unfolding crc_loop
loop_run b msg len hi lo e f = rw (e, f)

loop_none : (msg : List ℕ) (hi lo : ℕ) → crc_loop msg zero hi lo ≡ some (hi, lo)
unfolding crc_loop
loop_none msg hi lo = refl

crc_loop_lem :
    (msg rest : List ℕ) (hi lo : ℕ)
    → Bytes msg
    → hi < 256
    → lo < 256
    → (hi' : ℕ) × (lo' : ℕ) × (crc_loop (msg ++ rest) (length msg) hi lo ≡ some (hi', lo'))
      × (lo' * 256 + hi' ≡ modbus msg (lo * 256 + hi))
crc_loop_lem [] rest hi lo all p q = (hi, lo, loop_none rest hi lo, refl)
crc_loop_lem (b ∷ bs) rest hi lo (cons _ _ small all) p q =
    let i : ℕ = bit_xor hi b in
    let t = entry i (bit_xor_byte hi b p small) in
    let (agree, next, low) = entry_agrees i lo t q in
    let (hi', lo', e, r) = crc_loop_lem bs rest (bit_xor lo t.h) t.l all next low in
    (
      hi',
      lo',
      loop_run b (bs ++ rest) (length bs) hi lo t.hi_eq t.lo_eq ∙ e,
      r
          ∙ ap (modbus bs) (
              turned (bit_xor lo t.h) t.l _ agree
              ∙ sym (ap shift8 (bit_xor_low 8 lo hi b p small))),
    )

crc_run :
    (msg : List ℕ) (len : ℕ) {hi lo : ℕ}
    → crc_loop msg (len % 2 ^ 16) 0xFF 0xFF ≡ some (hi, lo)
    → crc16 msg len ≡ some (lo * 2 ^ 8 + hi)
unfolding crc16
crc_run msg len e = rw e

-- `CRC16`, given any length, is the checksum by division of the bytes that it goes over, from 0xFFFF
-- on, whatever follows them in memory; these are the length modulo 2 ^ 16, as many as are left of it in
-- an `unsigned short`.
pub crc16-modbus :
    (msg rest : List ℕ) (len : ℕ)
    → Bytes msg
    → len % 2 ^ 16 ≡ length msg
    → crc16 (msg ++ rest) len ≡ some (modbus msg 0xFFFF)
crc16-modbus msg rest len all e =
    let (hi, lo, f, r) = crc_loop_lem msg rest 0xFF 0xFF all (omega arith) (omega arith) in
    crc_run (msg ++ rest) len (ap (λ n. crc_loop (msg ++ rest) n 0xFF 0xFF) e ∙ f) ∙ ap some r
