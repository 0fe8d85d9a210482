-- ===== src/Archive/RoundTrip.antt =====
-- Values written and read back: which come back, and what the others come back as.
use event_server.Base.{
  ℕ, ◌+◌, ◌%◌, ◌^◌, ◌≤◌, ◌<◌, ◌≡◌, refl, ap, ◌∙◌, Bool, not, ◌&&◌, Option, some, List, arith,
  from_le-le_bytes_2, from_le-le_bytes_4, from_le-le_bytes_8, if◌then◌else◌, ◌==◌, int_mod,
}
use event_server.MemFile.Valid.{IsValid, max_file}
use event_server.Archive.{
  Archive, sm_read, sm_write, fetch, emit, through, short_swap, long_swap, long_long_swap, set_pos,
  set_mode,
}
use event_server.Archive.Transfer.{rewound, fetch-emit}
use event_server.Archive.Serial.{
  serial_int, serial_uint16, serial_uint64, serial_bool, serial_long, long_of_int, if_read,
}

rewound-mode : (pos : ℕ) (a : Archive) → (rewound pos a).mode ≡ sm_read
unfolding rewound set_pos set_mode
rewound-mode pos a = refl

rewound-swapped : (pos : ℕ) (a : Archive) → (rewound pos a).swapped ≡ a.swapped
unfolding rewound set_pos set_mode
rewound-swapped pos a = refl

through_eq :
    (f : ℕ → ℕ) (a b : Archive) (v : ℕ) → a.swapped ≡ b.swapped → through f a v ≡ through f b v
unfolding through
through_eq f a b v e = ap (λ s. if s then f v else v) e

-- `l`, written by `serial` where the archive stands, is read back from there as `r`, into a
-- variable that held `x`.
abbrev pub ReadsBack {ℓ} :
    {A : Type ℓ} → (A → Archive → Option (A × Archive)) → Archive → A → A → A → Type ℓ
ReadsBack serial a x l r =
    (a' : Archive) × (a'' : Archive) × (serial l a ≡ some (l, a'))
    × (serial x (rewound a.stream.cur_pos a') ≡ some (r, a''))

write_int :
    (l : ℕ) (a : Archive) {a' : Archive}
    → a.mode ≡ sm_write
    → emit 4 l a ≡ some a'
    → serial_int l a ≡ some (l, a')
unfolding serial_int
write_int l a m e = ground arith

read_int :
    (x : ℕ) (a : Archive) {v : ℕ} {a' : Archive}
    → a.mode ≡ sm_read
    → fetch 4 a ≡ some (some v, a')
    → serial_int x a ≡ some (through long_swap a v, a')
unfolding serial_int if_read
read_int x a m e = ground arith

write_uint16 :
    (l : ℕ) (a : Archive) {a' : Archive}
    → a.mode ≡ sm_write
    → emit 2 l a ≡ some a'
    → serial_uint16 l a ≡ some (l, a')
unfolding serial_uint16
write_uint16 l a m e = ground arith

read_uint16 :
    (x : ℕ) (a : Archive) {v : ℕ} {a' : Archive}
    → a.mode ≡ sm_read
    → fetch 2 a ≡ some (some v, a')
    → serial_uint16 x a ≡ some (through short_swap a v, a')
unfolding serial_uint16 if_read
read_uint16 x a m e = ground arith

write_uint64 :
    (l : ℕ) (a : Archive) {a' : Archive}
    → a.mode ≡ sm_write
    → emit 8 l a ≡ some a'
    → serial_uint64 l a ≡ some (l, a')
unfolding serial_uint64
write_uint64 l a m e = ground arith

read_uint64 :
    (x : ℕ) (a : Archive) {v : ℕ} {a' : Archive}
    → a.mode ≡ sm_read
    → fetch 8 a ≡ some (some v, a')
    → serial_uint64 x a ≡ some (through long_long_swap a v, a')
unfolding serial_uint64 if_read
read_uint64 x a m e = ground arith

-- `bool` and `long` read through `Long_Swap` as well.
write_bool :
    (l : Bool) (a : Archive) {a' : Archive}
    → a.mode ≡ sm_write
    → emit 4 (if l then 1 else 0) a ≡ some a'
    → serial_bool l a ≡ some (l, a')
unfolding serial_bool
write_bool l a m e = ground arith

read_bool :
    (x : Bool) (a : Archive) {v : ℕ} {a' : Archive}
    → a.mode ≡ sm_read
    → fetch 4 a ≡ some (some v, a')
    → serial_bool x a ≡ some (through long_swap a v == 1, a')
unfolding serial_bool
read_bool x a m e = ground arith

write_long :
    (l : ℕ) (a : Archive) {a' : Archive}
    → a.mode ≡ sm_write
    → emit 8 l a ≡ some a'
    → serial_long l a ≡ some (l, a')
unfolding serial_long
write_long l a m e = ground arith

read_long :
    (x : ℕ) (a : Archive) {v : ℕ} {a' : Archive}
    → a.mode ≡ sm_read
    → fetch 8 a ≡ some (some v, a')
    → serial_long x a ≡ some (long_of_int (through long_swap a (v % int_mod)), a')
unfolding serial_long if_read
read_long x a m e = ground arith

module _ (a : Archive) {bytes : List ℕ} (valid : IsValid a.stream bytes)
    (m : a.mode ≡ sm_write) where
  -- After the rewind, the functions are those of the archive that wrote.
  same_functions :
      (a' : Archive) (f : ℕ → ℕ) (v : ℕ)
      → a'.swapped ≡ a.swapped
      → through f (rewound a.stream.cur_pos a') v ≡ through f a v
  same_functions a' f v e =
      through_eq f (rewound a.stream.cur_pos a') a v (rewound-swapped a.stream.cur_pos a' ∙ e)

  serial_int-ReadsBack :
      (x l : ℕ)
      → l < 2 ^ 32
      → a.stream.cur_pos + 4 ≤ max_file
      → ReadsBack serial_int a x l (through long_swap a l)
  serial_int-ReadsBack x l h room =
      let (a', a'', e, r, s) = fetch-emit a 4 l valid room in
      (
        a',
        a'',
        write_int l a m e,
        read_int x (rewound a.stream.cur_pos a') (rewound-mode a.stream.cur_pos a') r
            ∙ ap (λ v. some (v, a''))
                (ap (through long_swap (rewound a.stream.cur_pos a')) (from_le-le_bytes_4 l h)
                  ∙ same_functions a' long_swap l s),
      )

  serial_uint16-ReadsBack :
      (x l : ℕ)
      → l < 2 ^ 16
      → a.stream.cur_pos + 2 ≤ max_file
      → ReadsBack serial_uint16 a x l (through short_swap a l)
  serial_uint16-ReadsBack x l h room =
      let (a', a'', e, r, s) = fetch-emit a 2 l valid room in
      (
        a',
        a'',
        write_uint16 l a m e,
        read_uint16 x (rewound a.stream.cur_pos a') (rewound-mode a.stream.cur_pos a') r
            ∙ ap (λ v. some (v, a''))
                (ap (through short_swap (rewound a.stream.cur_pos a')) (from_le-le_bytes_2 l h)
                  ∙ same_functions a' short_swap l s),
      )

  serial_uint64-ReadsBack :
      (x l : ℕ)
      → l < 2 ^ 64
      → a.stream.cur_pos + 8 ≤ max_file
      → ReadsBack serial_uint64 a x l (through long_long_swap a l)
  serial_uint64-ReadsBack x l h room =
      let (a', a'', e, r, s) = fetch-emit a 8 l valid room in
      (
        a',
        a'',
        write_uint64 l a m e,
        read_uint64 x (rewound a.stream.cur_pos a') (rewound-mode a.stream.cur_pos a') r
            ∙ ap (λ v. some (v, a''))
                (ap (through long_long_swap (rewound a.stream.cur_pos a')) (from_le-le_bytes_8 l h)
                  ∙ same_functions a' long_long_swap l s),
      )

  serial_long-ReadsBack :
      (x l : ℕ)
      → l < 2 ^ 64
      → a.stream.cur_pos + 8 ≤ max_file
      → ReadsBack serial_long a x l (long_of_int (through long_swap a (l % int_mod)))
  serial_long-ReadsBack x l h room =
      let (a', a'', e, r, s) = fetch-emit a 8 l valid room in
      (
        a',
        a'',
        write_long l a m e,
        read_long x (rewound a.stream.cur_pos a') (rewound-mode a.stream.cur_pos a') r
            ∙ ap (λ v. some (long_of_int v, a''))
                (ap (λ v. through long_swap (rewound a.stream.cur_pos a') (v % int_mod))
                    (from_le-le_bytes_8 l h)
                  ∙ same_functions a' long_swap (l % int_mod) s),
      )

  is_one : (l : Bool) → (through long_swap a (if l then 1 else 0) == 1) ≡ (l && not a.swapped)
  unfolding through long_swap
  is_one l = ground arith

  serial_bool-ReadsBack :
      (x l : Bool)
      → a.stream.cur_pos + 4 ≤ max_file
      → ReadsBack serial_bool a x l (l && not a.swapped)
  serial_bool-ReadsBack x l room =
      let v : ℕ = if l then 1 else 0 in
      let (a', a'', e, r, s) = fetch-emit a 4 v valid room in
      (
        a',
        a'',
        write_bool l a m e,
        read_bool x (rewound a.stream.cur_pos a') (rewound-mode a.stream.cur_pos a') r
            ∙ ap (λ (b : Bool). some (b, a''))
                (ap (λ w. through long_swap (rewound a.stream.cur_pos a') w == 1)
                    (from_le-le_bytes_4 v (ground arith))
                  ∙ ap (λ w. w == 1) (same_functions a' long_swap v s)
                  ∙ is_one l),
      )

  -- A number, written to a well-formed archive in write mode with eight bytes of room up to `max_file`,
  -- and read back from there: a 16-bit integer, an `int` and an `LXZuint64`, each within its width,
  -- come back as they were if the archive does not swap, and with their bytes reversed if it does; a
  -- `bool` comes back as it was, and as `false` if the archive swaps; a `long` comes back as its low 32
  -- bits taken for a signed number, with their bytes reversed if the archive swaps.
  pub serial-ReadsBack :
      (x h i l : ℕ) (y b : Bool)
      → h < 2 ^ 16
      → i < 2 ^ 32
      → l < 2 ^ 64
      → a.stream.cur_pos + 8 ≤ max_file
      → ReadsBack serial_uint16 a x h (through short_swap a h)
        × ReadsBack serial_int a x i (through long_swap a i)
        × ReadsBack serial_uint64 a x l (through long_long_swap a l)
        × ReadsBack serial_long a x l (long_of_int (through long_swap a (l % int_mod)))
        × ReadsBack serial_bool a y b (b && not a.swapped)
  serial-ReadsBack x h i l y b h_fits i_fits l_fits room = (
    serial_uint16-ReadsBack x h h_fits (omega arith),
    serial_int-ReadsBack x i i_fits (omega arith),
    serial_uint64-ReadsBack x l l_fits room,
    serial_long-ReadsBack x l l_fits room,
    serial_bool-ReadsBack y b (omega arith),
  )
