-- ===== src/Block/Decode.antt =====
-- `DecodeEntry`: the fast path, round trips, and the bounds of what it accepts.
use releveldb.Base.{
  ℕ, zero, suc, ◌+◌, ◌^◌, ◌≤◌, ◌<◌, ◌≡◌, inl, inr, refl, arith, ◌∙◌, bit_or, List, [], ◌∷◌, ◌++◌,
  append_assoc, some, ◌>>=◌, ltb, Bool-cases, ltb→lt, length, length-append,
}
use releveldb.Base.Bits.{le-bit_or}
use releveldb.Coding.Varint.{varint_bytes, get_varint32_ptr-varint_bytes, get_varint32_ptr_small}
use releveldb.Block.{decode_lengths, check_left, decode_entry}

-- three one-byte lengths
three_small :
    (s n v : ℕ) (p : List ℕ)
    → s < 128
    → n < 128
    → v < 128
    → decode_lengths (s ∷ n ∷ v ∷ p)
      ≡ some (record { shared = s; non_shared = n; value_length = v; rest = p })
unfolding decode_lengths
three_small s n v p hs hn hv =
    rw (get_varint32_ptr_small s (n ∷ v ∷ p) hs)
      (rw (get_varint32_ptr_small n (v ∷ p) hn) (rw (get_varint32_ptr_small v p hv) refl))

-- On every three bytes and what follows them `DecodeEntry` gives what its general path gives: the
-- fast path for three one-byte lengths is no different.
pub decode_entry_fast :
    (s n v : ℕ) (p : List ℕ)
    → decode_entry (s ∷ n ∷ v ∷ p) ≡ (decode_lengths (s ∷ n ∷ v ∷ p) >>= check_left)
unfolding decode_entry
decode_entry_fast s n v p = elim (Bool-cases (ltb (bit_or (bit_or s n) v) 128)) [
  | inr large ↦ rw large refl
  | inl small ↦
      let low : bit_or (bit_or s n) v < 128 = ltb→lt _ 128 small in
      let (x, hv) = le-bit_or (bit_or s n) v in
      let (hs, hn) = le-bit_or s n in
      rw (small, three_small s n v p (omega arith) (omega arith) (omega arith)) refl
]

-- the bytes of an entry's three lengths
unfoldable pub lengths_bytes : ℕ → ℕ → ℕ → List ℕ
lengths_bytes s n v = varint_bytes 4 s ++ (varint_bytes 4 n ++ varint_bytes 4 v)

pub decode_lengths-lengths_bytes :
    (s n v : ℕ) (p : List ℕ)
    → s < 2 ^ 32
    → n < 2 ^ 32
    → v < 2 ^ 32
    → decode_lengths (lengths_bytes s n v ++ p)
      ≡ some (record { shared = s; non_shared = n; value_length = v; rest = p })
unfolding decode_lengths lengths_bytes
decode_lengths-lengths_bytes s n v p hs hn hv =
    rw (append_assoc (varint_bytes 4 s) (varint_bytes 4 n ++ varint_bytes 4 v) p) (
      rw (append_assoc (varint_bytes 4 n) (varint_bytes 4 v) p) (
        rw (get_varint32_ptr-varint_bytes s _ hs) (
          rw (get_varint32_ptr-varint_bytes n _ hn)
            (rw (get_varint32_ptr-varint_bytes v p hv) refl))))

-- Any list of three bytes or more goes through the general path.
pub general : (p : List ℕ) → 3 ≤ length p → decode_entry p ≡ (decode_lengths p >>= check_left)
general [] h = absurd (omega arith)
general (s ∷ []) h = absurd (omega arith)
general (s ∷ n ∷ []) h = absurd (omega arith)
general (s ∷ n ∷ v ∷ p) h = decode_entry_fast s n v p

varint_bytes-pos : (k v : ℕ) → 1 ≤ length (varint_bytes k v)
unfolding varint_bytes
varint_bytes-pos zero v = omega arith
varint_bytes-pos (suc k) v = ground arith

pub lengths_bytes-pos : (s n v : ℕ) → 3 ≤ length (lengths_bytes s n v)
unfolding lengths_bytes
lengths_bytes-pos s n v = omega (
  arith,
  length-append (varint_bytes 4 s) (varint_bytes 4 n ++ varint_bytes 4 v),
  length-append (varint_bytes 4 n) (varint_bytes 4 v),
  varint_bytes-pos 4 s,
  varint_bytes-pos 4 n,
  varint_bytes-pos 4 v,
)

pub long_enough : (s n v : ℕ) (p : List ℕ) → 3 ≤ length (lengths_bytes s n v ++ p)
long_enough s n v p = omega (arith, length-append (lengths_bytes s n v) p, lengths_bytes-pos s n v)

-- The three lengths of an entry, written one after another, are read back by `DecodeEntry`, which
-- stops behind them, if as many bytes as the key's rest and the value need are left.
pub decode_entry-lengths_bytes :
    (s n v : ℕ) (p : List ℕ)
    → s < 2 ^ 32
    → n + v ≤ length p
    → length p < 2 ^ 32
    → decode_entry (lengths_bytes s n v ++ p)
      ≡ some (record { shared = s; non_shared = n; value_length = v; rest = p })
decode_entry-lengths_bytes s n v p hs hp small =
    general (lengths_bytes s n v ++ p) (long_enough s n v p)
    ∙ rw (decode_lengths-lengths_bytes s n v p hs (omega arith) (omega arith))
        (unfold check_left in ground arith)
