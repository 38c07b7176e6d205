-- ===== src/Block/Bounds.antt =====
-- What `DecodeEntry` of db/Block.cpp accepts, on arbitrary bytes.
use releveldb.Base.{
  ℕ, ◌+◌, ◌%◌, ◌^◌, ◌≤◌, ◌<◌, ◌≡◌, inl, inr, refl, arith, ap, sym, ◌∙◌, List, [], ◌∷◌, ◌++◌, Option,
  none, some, ◌>>=◌, ltb, Bool-cases, length,
}
use mathlib.Core.Option.{some-injective, none-ne-some}
use releveldb.Coding.{get_varint32_ptr}
use releveldb.Coding.Varint.{get_varint32_ptr_shorter}
use releveldb.Block.{Entry, decode_lengths, check_left, decode_entry}
use releveldb.Block.Decode.{
  lengths_bytes, decode_lengths-lengths_bytes, general, long_enough, decode_entry_fast,
}

-- a step that a result went through
through :
    {A B C : Type 0} (m : Option A) (f : A → Option B) (b : B)
    → (m >>= f) ≡ some b
    → ((a : A) → m ≡ some a → f a ≡ some b → C)
    → C
through none f b e k = cc
through (some a) f b e k = k a refl e

decode_lengths_shorter :
    (p : List ℕ) (e : Entry) → decode_lengths p ≡ some e → length e.rest + 3 ≤ length p
unfolding decode_lengths
decode_lengths_shorter p e h = through (get_varint32_ptr p) _ e h (λ (s, p1) e1 h1.
    through (get_varint32_ptr p1) _ e h1 (λ (n, p2) e2 h2.
      through (get_varint32_ptr p2) _ e h2 (λ (v, p3) e3 h3.
        let same : length p3 ≡ length e.rest =
          ap (λ x. length (Entry.rest x)) (some-injective _ _ h3) in
        omega (
          arith,
          same,
          get_varint32_ptr_shorter p s p1 e1,
          get_varint32_ptr_shorter p1 n p2 e2,
          get_varint32_ptr_shorter p2 v p3 e3,
        ))))

-- What `DecodeEntry` accepts lies in the bytes that are left, up to the wrap of a uint32_t.
pub decode_entry_bounds :
    (p : List ℕ) (e : Entry)
    → decode_entry p ≡ some e
    → (length e.rest + 3 ≤ length p)
      × ((e.non_shared + e.value_length) % 2 ^ 32 ≤ length e.rest % 2 ^ 32)
decode_entry_bounds [] e h = unfold decode_entry in cc
decode_entry_bounds (s ∷ []) e h = unfold decode_entry in cc
decode_entry_bounds (s ∷ n ∷ []) e h = unfold decode_entry in cc
decode_entry_bounds (s ∷ n ∷ v ∷ p) e h =
    through (decode_lengths (s ∷ n ∷ v ∷ p)) check_left e (sym (decode_entry_fast s n v p) ∙ h)
      (λ x ex hx.
        elim (Bool-cases
          (ltb (length x.rest % 2 ^ 32) ((x.non_shared + x.value_length) % 2 ^ 32))) [
            | inl short ↦ absurd (none-ne-some e (unfold check_left in (rw short at hx)))
            | inr fits ↦
                let same : x ≡ e = some-injective _ _ (unfold check_left in (rw fits at hx)) in
                (
                  rw (sym same) (decode_lengths_shorter (s ∷ n ∷ v ∷ p) x ex),
                  rw (sym same) (ground arith),
                )
          ])

-- `DecodeEntry` accepts three lengths of 32 bits of which the key's rest and the value need 2^32
-- bytes or more in sum, if only the sum less 2^32 is left behind them, of less than 2^32 bytes:
-- the entry lies outside the block.
pub decode_entry-wraps :
    (s n v : ℕ) (p : List ℕ)
    → s < 2 ^ 32
    → n < 2 ^ 32
    → v < 2 ^ 32
    → 2 ^ 32 ≤ n + v
    → n + v ≤ length p + 2 ^ 32
    → length p < 2 ^ 32
    → (decode_entry (lengths_bytes s n v ++ p)
        ≡ some (record { shared = s; non_shared = n; value_length = v; rest = p }))
      × (length p < n + v)
decode_entry-wraps s n v p hs hn hv big enough short = (
  general (lengths_bytes s n v ++ p) (long_enough s n v p)
      ∙ rw (decode_lengths-lengths_bytes s n v p hs hn hv) (unfold check_left in ground arith),
  omega arith,
)
