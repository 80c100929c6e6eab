-- ===== src/Buffer/Tests.antt =====
-- Buffers with concrete bytes.
use mathlib.Core.Option
use high_concurrency_server.Common.{◌≡◌, refl, some, List, [], ◌∷◌, Bytes, codes, arith}
use high_concurrency_server.Buffer.{
  Buffer, lf, ensure_write_space_size, write_and_add, write_as_buffer_and_add, rd_string_and_pop,
  get_line_and_add,
}
use high_concurrency_server.Buffer.Inv.{IsValid, contents}
use high_concurrency_server.Buffer.Queue.{Call, run, queue_run, run_refines}
use high_concurrency_server.Buffer.Queue

-- "ab\ncd" behind two bytes that were read, and one free byte
abbrev two_lines : Buffer
two_lines = record { buffer = codes "xxab\ncd."; read_index = 2; write_index = 7 }

two_lines-IsValid : IsValid two_lines
two_lines-IsValid = record { ordered = omega arith; within = omega arith; bounded = omega arith }

abbrev script : List Call
script =
    Call.append (codes "efgh\n")
    ∷ Call.line
    ∷ Call.pop 3
    ∷ Call.line
    ∷ Call.line
    ∷ Call.reset
    ∷ Call.pop 1
    ∷ []

run_refines_example :
    Option.map (λ (r : List Bytes × Buffer). (r.0, contents r.1)) (run two_lines script)
    ≡ queue_run (contents two_lines) script
run_refines_example = run_refines script two_lines two_lines-IsValid (omega arith)

-- Without the last call the run succeeds, on the bytes and on the buffer.
lines_and_bytes :
    queue_run
      (contents two_lines)
      (Call.append (codes "efgh\n") ∷ Call.line ∷ Call.pop 3 ∷ Call.line ∷ [])
    ≡ some ([] ∷ codes "ab\n" ∷ codes "cde" ∷ codes "fgh\n" ∷ [], [])
unfolding queue_run Queue.queue_step high_concurrency_server.Buffer.memchr
lines_and_bytes = refl
