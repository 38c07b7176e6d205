-- ===== src/PosixLogger.antt =====
-- db/posix_logger.h. `header` is the text that the first `snprintf` makes of the time and the
-- thread, and `message` what `vsnprintf` makes of the format and its arguments; both calls return
-- the length of the whole text and store as much as fits, with a NUL behind it.
pub mod Line
mod Tests
use releveldb.Base.{
  ℕ, ◌+◌, ◌-◌, List, [], ◌∷◌, ◌++◌, Option, none, some, Bool, true, false, not, ltb, leb, ◌==◌,
  if◌then◌else◌, get_or, length, take,
}

-- A round of the loop with a buffer of `bufsize` bytes: what stands in it up to the NUL, and `p`,
-- an offset from `base`.
unfoldable pub fill_buffer : ℕ → List ℕ → List ℕ → List ℕ × ℕ
fill_buffer bufsize header message =
    let p = length header in
    if ltb p bufsize
    then (header ++ take (bufsize - p - 1) message, p + length message)
    else (take (bufsize - 1) header, p)

-- if (p == base || p[-1] != '\n') *p++ = '\n'
unfoldable pub end_line : List ℕ → ℕ → List ℕ
end_line buffer p =
    if p == 0
    then b'\n' ∷ []
    else if get_or buffer (p - 1) 0 == b'\n'
    then take p buffer
    else take p buffer ++ (b'\n' ∷ [])

-- The bytes that a round writes; `none` is `continue`.
unfoldable pub round : Bool → ℕ → List ℕ → List ℕ → Option (List ℕ)
unfolding fill_buffer end_line
round first bufsize header message =
    let (buffer, p) = fill_buffer bufsize header message in
    if leb bufsize p
    then if first then none else some (end_line buffer (bufsize - 1))
    else some (end_line buffer p)

-- `sizeof(buffer)`, and the size of the second buffer
abbrev pub small_size : ℕ
small_size = 500

abbrev pub large_size : ℕ
large_size = 30000

-- `Logv`: the rounds with the headers that they make
unfoldable pub logv_line : (first second message : List ℕ) → Option (List ℕ)
unfolding round
logv_line first second message = elim (round true small_size first message) [
  | none ↦ round false large_size second message
  | some line ↦ some line
]
