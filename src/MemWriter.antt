-- ===== src/MemWriter.antt =====
-- MLCommon/src/Tools/MemWritter.cpp: a stream that writes into a buffer of a fixed size.
use new_cpp.Prelude.{ℕ, ◌+◌, ◌-◌, min, Option, none, some, List, length, take, ◌==◌, if◌then◌else◌}
use new_cpp.Frame.Reading.{write_at}
mod Filled
mod Tests

pub record MemWritter : Type 0 where
  pub buffer : List ℕ
  pub size : ℕ
  pub position : ℕ

-- The constructor.
unfoldable pub new_mem_writter : List ℕ → MemWritter
new_mem_writter buffer = record { buffer = buffer; size = length buffer; position = 0 }

-- `MemWritter::Write`; `none` is -1.
unfoldable pub write_memory : List ℕ → MemWritter → Option ℕ × MemWritter
write_memory bs w =
    let amount = min (length bs) (w.size - w.position) in
    if amount == 0 then (none, w) else (
      some amount,
      record w {
        buffer = write_at w.position (take amount bs) w.buffer;
        position = w.position + amount;
      },
    )
