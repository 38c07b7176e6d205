-- ===== src/EnvPosix/Mapped.antt =====
-- `PosixMmapReadableFile::Read`.
use releveldb.Base.{
  ℕ, ◌+◌, ◌%◌, ◌^◌, ◌≤◌, ◌<◌, ◌≡◌, ◌⊎◌, inl, inr, refl, arith, none, some, true, false, ltb,
  Bool-cases, [], length, take, drop,
}
use releveldb.Act.{◌>>=◌}
use releveldb.Slice.{Slice}
use releveldb.Status.{Status, ok, ok_status}
use releveldb.Env.{Name}
use releveldb.EnvPosix.Sys.{Posix, State, io_error_of}
use releveldb.EnvPosix.Files.{mmap_read}
use releveldb.EnvPosix.Errors.{IsShort, HasShortErrors, io_error_of_lem}

module _ {W : Type 0} (p : Posix W) (short : HasShortErrors p) (filename : Name) (base size : ℕ)
    (st : State W) (mapping : length (p.mapped base st.os) ≡ size) where
  refused :
      (offset n : ℕ) (s : Status)
      → size < (offset + n) % 2 ^ 64
      → io_error_of p filename p.einval st ≡ some (s, st)
      → mmap_read p filename base size offset n st ≡ some ((s, []), st)
  unfolding mmap_read
  refused offset n s h e =
      let t : ltb size ((offset + n) % 2 ^ 64) ≡ true = ground arith in rw t (rw (e, ◌>>=◌) refl)

  -- On a mapping as long as the file, where `offset + n` does not wrap and the name and the
  -- system's messages are below 2^16 bytes, a read inside the file gives exactly its bytes there,
  -- and any other read gives an error and no bytes.
  pub mmap_read_bounds :
      (offset n : ℕ)
      → offset + n < 2 ^ 64
      → IsShort filename
      → (s : Status) × (bytes : Slice) × (mmap_read p filename base size offset n st
          ≡ some ((s, bytes), st))
        × (((offset + n ≤ size)
              × (ok s ≡ true)
              × (bytes ≡ take n (drop offset (p.mapped base st.os))))
            ⊎ ((size < offset + n) × (ok s ≡ false) × (bytes ≡ [])))
  mmap_read_bounds offset n fits name_short = elim (Bool-cases (ltb size (offset + n))) [
    | inl out ↦
        let (s, e, bad) = io_error_of_lem p short filename p.einval st (omega arith) in
        (s, [], refused offset n s (ground arith) e, inr (ground arith, bad, refl))
    | inr inside ↦ (
      ok_status,
      take n (drop offset (p.mapped base st.os)),
      unfold mmap_read in ground (arith, mapping),
      inl (ground arith, unfold ok ok_status in refl, refl),
    )
  ]

  -- On a mapping as long as the file, of less than 2^63 bytes, where the sum of two 64-bit numbers
  -- wraps to one inside the file, the test passes and the read leaves the mapped memory.
  pub mmap_read_wraps :
      (offset n : ℕ)
      → offset < 2 ^ 64
      → n < 2 ^ 64
      → 2 ^ 64 ≤ offset + n
      → offset + n ≤ 2 ^ 64 + size
      → size < 2 ^ 63
      → mmap_read p filename base size offset n st ≡ none
  unfolding mmap_read
  mmap_read_wraps offset n ho hn wraps inside small = ground (arith, mapping)
