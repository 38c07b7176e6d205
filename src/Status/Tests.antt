-- ===== src/Status/Tests.antt =====
-- Runs of the statuses of db/Status.h and db/Status.cpp.
use releveldb.Base.{◌∷◌, none, if◌then◌else◌, ℕ, ◌≡◌, refl, arith, List, some, ◌==◌, codes}
use releveldb.Slice.{empty_slice}
use releveldb.Status.{
  StatusCode, ok_status, new_status, to_string, not_found, corruption, not_supported,
  invalid_argument, io_error,
}
use releveldb.Status.Message.{Reports, status_texts}
use releveldb.Status.{in_buffer}
use releveldb.Status.Memory.{Memory, assign, destroy, at_address, assign-destroy}
use releveldb.Coding.{native_bytes}

abbrev print_unknown : StatusCode → List ℕ
print_unknown c = codes "Unknown code: "

to_string_run : to_string print_unknown ok_status ≡ some (codes "OK")
unfolding to_string ok_status
to_string_run = refl

status_texts_example :
    Reports print_unknown not_found 1 (codes "Not Found: ") (codes "key") (codes "gone")
    × Reports print_unknown corruption 2 (codes "Corruption: ") (codes "key") (codes "gone")
    × Reports print_unknown not_supported 3 (codes "Not Supported: ") (codes "key") (codes "gone")
    × Reports print_unknown invalid_argument 4
        (codes "Invalid Argument: ")
        (codes "key")
        (codes "gone")
    × Reports print_unknown io_error 5 (codes "IO Error: ") (codes "key") (codes "gone")
status_texts_example = status_texts print_unknown (codes "key") (codes "gone") (omega arith)

-- a status at 1 and one at 2, and the buffer of the first
abbrev key_buffer : List ℕ
key_buffer = 3 ∷ 0 ∷ 0 ∷ 0 ∷ 1 ∷ codes "key"

abbrev memory : Memory
memory q = if q == 1 then some key_buffer else if q == 2 then some (codes "old") else none

made : new_status 1 (codes "key") empty_slice ≡ some (record { status = some key_buffer })
unfolding new_status in_buffer native_bytes
made = refl

assign-destroy_example :
    (mem' between after : Memory) × (assign 3 memory (at_address 2) (at_address 1)
      ≡ some (at_address 3, mem'))
    × (destroy mem' (at_address 3) ≡ some between)
    × (destroy between (at_address 1) ≡ some after)
    × (after 2 ≡ some (codes "old"))
assign-destroy_example =
    assign-destroy 3 1 memory 1 (codes "key") empty_slice key_buffer (omega arith) (omega arith)
      (omega arith) made refl refl 2 (codes "old") refl (λ e. omega arith)
