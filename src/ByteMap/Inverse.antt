-- ===== src/ByteMap/Inverse.antt =====
-- What `MapKind` does to the bytes of its range, and that the two tables undo each other.
use event_server.Base.{
  ℕ, zero, suc, ◌+◌, ◌≤◌, ◌<◌, ◌≡◌, refl, sym, ap, ap₂, ◌∙◌, subst, Bool, true, false, Option, none,
  some, List, [], ◌∷◌, ◌++◌, map, append_assoc, arith, length, length-append, length-take_of_le,
  length-drop, get_elem?, take, drop, take-append-drop, if◌then◌else◌, ltb, ltb→lt, ◌==◌, ==_iff,
  passes_under, passes_under_at, Bytes, nil, cons,
}
use event_server.Base.Memory.{store, store_at, get_at}
use event_server.FastBuf
use event_server.FastBuf.Holds.{set_buf-Holds, buf-Holds}
use event_server.MemFile
use event_server.MemFile.{contents}
use event_server.MemFile.Valid.{IsValid, contents-IsValid}
use event_server.Archive.{Archive}
use event_server.ByteMap.{map_bytes, map_kind}
use event_server.ByteMap.Tables.{send_byte_map, recv_byte_map}

-- The byte that a table has for another.
abbrev pub entry : List ℕ → ℕ → ℕ
entry table b = elim (get_elem? table b) [ none ↦ 0 | some m ↦ m ]

defined_at : List ℕ → ℕ → Bool
defined_at table b = elim (get_elem? table b) [ none ↦ false | some m ↦ ltb m 256 ]

-- A table for all bytes, of bytes.
abbrev IsByteMap : List ℕ → Type 0
IsByteMap table = passes_under (defined_at table) 256 ≡ true

send_byte_map-IsByteMap : IsByteMap send_byte_map
unfolding passes_under defined_at
send_byte_map-IsByteMap = refl

recv_byte_map-IsByteMap : IsByteMap recv_byte_map
unfolding passes_under defined_at
recv_byte_map-IsByteMap = refl

inverse_table : passes_under (λ b. entry recv_byte_map (entry send_byte_map b) == b) 256 ≡ true
unfolding passes_under
inverse_table = refl

inverse_at : (b : ℕ) → b < 256 → entry recv_byte_map (entry send_byte_map b) ≡ b
inverse_at b h = (==_iff _ b).0 (passes_under_at _ 256 b h inverse_table)

module _ (table : List ℕ) (total : IsByteMap table) where
  entry_cases :
      (o : Option ℕ)
      → elim o [ none ↦ false | some m ↦ ltb m 256 ] ≡ true
      → (o ≡ some (elim o [ none ↦ 0 | some m ↦ m ])) × (elim o [ none ↦ 0 | some m ↦ m ] < 256)
  entry_cases none h = absurd (ground arith)
  entry_cases (some m) h = (refl, ltb→lt m 256 h)

  entry_lem : (b : ℕ) → b < 256 → (get_elem? table b ≡ some (entry table b)) × (entry table b < 256)
  unfolding defined_at
  entry_lem b h = entry_cases (get_elem? table b) (passes_under_at (defined_at table) 256 b h total)

  entry-Bytes : (bs : List ℕ) → Bytes bs → Bytes (map (entry table) bs)
  entry-Bytes [] nil = nil
  entry-Bytes (b ∷ bs) (cons _ _ h all) = cons _ _ (entry_lem b h).1 (entry-Bytes bs all)

  map_run :
      (from len b m : ℕ) (buffer : List ℕ) {buffer1 : List ℕ}
      → get_elem? buffer from ≡ some b
      → get_elem? table b ≡ some m
      → store from (m ∷ []) buffer ≡ some buffer1
      → map_bytes table from (suc len) buffer ≡ map_bytes table (from + 1) len buffer1
  unfolding map_bytes
  map_run from len b m buffer e f g = rw (e, f, g)

  map_none : (from : ℕ) (buffer : List ℕ) → map_bytes table from zero buffer ≡ some buffer
  unfolding map_bytes
  map_none from buffer = refl

  map_bytes_lem :
      (before mid after : List ℕ)
      → Bytes mid
      → map_bytes table (length before) (length mid) (before ++ (mid ++ after))
        ≡ some (before ++ (map (entry table) mid ++ after))
  map_bytes_lem before [] after nil = map_none (length before) (before ++ after)
  map_bytes_lem before (b ∷ mid) after (cons _ _ h all) =
      map_run (length before) (length mid) b m (before ++ (b ∷ (mid ++ after)))
        (get_at before (mid ++ after) b) (entry_lem b h).0 (store_at before (mid ++ after) b m)
      ∙ ap₂ (λ k l. map_bytes table k (length mid) l) (sym (length-append before (m ∷ [])))
          (sym (append_assoc before (m ∷ []) (mid ++ after)))
      ∙ map_bytes_lem (before ++ m ∷ []) mid after all
      ∙ ap some (append_assoc before (m ∷ []) (map (entry table) mid ++ after))
    where
      m : ℕ
      m = entry table b

map-inverse :
    (bs : List ℕ) → Bytes bs → map (entry recv_byte_map) (map (entry send_byte_map) bs) ≡ bs
map-inverse [] nil = refl
map-inverse (b ∷ bs) (cons _ _ h all) = ap₂ (λ x xs. x ∷ xs) (inverse_at b h) (map-inverse bs all)

length-map : (f : ℕ → ℕ) (bs : List ℕ) → length (map f bs) ≡ length bs
length-map f [] = refl
length-map f (b ∷ bs) = ap suc (length-map f bs)

Bytes-right : (xs ys : List ℕ) → Bytes (xs ++ ys) → Bytes ys
Bytes-right [] ys all = all
Bytes-right (x ∷ xs) ys (cons _ _ h all) = Bytes-right xs ys all

Bytes-left : (xs ys : List ℕ) → Bytes (xs ++ ys) → Bytes xs
Bytes-left [] ys all = nil
Bytes-left (x ∷ xs) ys (cons _ _ h all) = cons x xs h (Bytes-left xs ys all)

-- The message after its array has been replaced by one of the same size.
replaced : Archive → List ℕ → Archive
replaced a bytes = record a {
  stream = record a.stream { fast_buf = FastBuf.set_buf MemFile.cache a.stream.fast_buf bytes };
}

replaced-IsValid :
    (a : Archive) {bytes : List ℕ} (new : List ℕ)
    → IsValid a.stream bytes
    → length new ≡ length bytes
    → IsValid (replaced a new).stream new
      × ((replaced a new).stream.fast_buf.cp_len ≡ a.stream.fast_buf.cp_len)
unfolding replaced
replaced-IsValid a new v e =
    let (h, c, l) = set_buf-Holds MemFile.cache new v.holds e in
    (
      record { holds = h; pos_in = omega (arith, c, v.pos_in); small = omega (arith, l, v.small) },
      c,
    )

kind_run :
    (from len : ℕ) (mode : Bool) (a : Archive) {bytes mapped : List ℕ}
    → IsValid a.stream bytes
    → map_bytes (if mode then recv_byte_map else send_byte_map) from len bytes ≡ some mapped
    → map_kind from len mode a ≡ some (replaced a mapped)
unfolding map_kind replaced
kind_run from len mode a v e = rw (buf-Holds MemFile.cache v.holds, e)

-- The bytes of a range in three parts.
module _ (before mid after : List ℕ) (a : Archive) (all : Bytes mid)
    (v : IsValid a.stream (before ++ (mid ++ after))) where
  sent : List ℕ
  sent = map (entry send_byte_map) mid

  same_length : length (before ++ (sent ++ after)) ≡ length (before ++ (mid ++ after))
  unfolding sent
  same_length = omega (
    arith,
    length-append before (sent ++ after),
    length-append before (mid ++ after),
    length-append sent after,
    length-append mid after,
    length-map (entry send_byte_map) mid,
  )

  there_and_back :
      (a' : Archive) × (a'' : Archive) × (map_kind (length before) (length mid) false a ≡ some a')
      × (map_kind (length before) (length mid) true a' ≡ some a'')
      × (contents a''.stream ≡ contents a.stream)
  unfolding sent
  there_and_back =
      let (w, c) = replaced-IsValid a (before ++ (sent ++ after)) v same_length in
      let a' : Archive = replaced a (before ++ (sent ++ after)) in
      let (w', c') = replaced-IsValid a' (before ++ (mid ++ after)) w (sym same_length) in
      (
        a',
        replaced a' (before ++ (mid ++ after)),
        kind_run (length before) (length mid) false a v
            (map_bytes_lem send_byte_map send_byte_map-IsByteMap before mid after all),
        kind_run (length before) (length mid) true a' w (
            ap (λ n. map_bytes recv_byte_map (length before) n (before ++ (sent ++ after)))
              (sym (length-map (entry send_byte_map) mid))
            ∙ map_bytes_lem recv_byte_map recv_byte_map-IsByteMap before sent after
                (entry-Bytes send_byte_map send_byte_map-IsByteMap mid all)
            ∙ ap (λ l. some (before ++ (l ++ after))) (map-inverse mid all)),
        contents-IsValid w'
            ∙ ap (λ n. take n (before ++ (mid ++ after))) (c' ∙ c)
            ∙ sym (contents-IsValid v),
      )

parts :
    (from len : ℕ) (bytes : List ℕ)
    → take from bytes ++ (take len (drop from bytes) ++ drop len (drop from bytes)) ≡ bytes
parts from len bytes =
    ap (λ l. take from bytes ++ l) (take-append-drop len (drop from bytes))
    ∙ take-append-drop from bytes

-- Mapping a range of a well-formed message for sending, and then the same range as received, gives
-- the message its contents back. The range lies in the array behind the message, which holds bytes.
pub map_kind-inverse :
    (from len : ℕ) (a : Archive) {bytes : List ℕ}
    → IsValid a.stream bytes
    → Bytes bytes
    → from + len ≤ length bytes
    → (a' : Archive) × (a'' : Archive) × (map_kind from len false a ≡ some a')
      × (map_kind from len true a' ≡ some a'')
      × (contents a''.stream ≡ contents a.stream)
map_kind-inverse from len a {bytes} v all h =
    let before : List ℕ = take from bytes in
    let mid : List ℕ = take len (drop from bytes) in
    let after : List ℕ = drop len (drop from bytes) in
    let p = subst Bytes (sym (parts from len bytes)) all in
    let (a', a'', e, f, same) =
      there_and_back before mid after a (Bytes-left mid after (Bytes-right before (mid ++ after) p))
        (subst (IsValid a.stream) (sym (parts from len bytes)) v) in
    let from_eq : length before ≡ from = length-take_of_le from bytes (omega arith) in
    let len_eq : length mid ≡ len =
      length-take_of_le len (drop from bytes) (omega (arith, length-drop from bytes)) in
    (
      a',
      a'',
      ap₂ (λ i n. map_kind i n false a) (sym from_eq) (sym len_eq) ∙ e,
      ap₂ (λ i n. map_kind i n true a') (sym from_eq) (sym len_eq) ∙ f,
      same,
    )
