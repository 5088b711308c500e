-- ===== src/Ring.antt =====
-- The ring of 256 slots that two drivers use, each with its own copy of the code: `kb_buffer` of
-- kernel/src/drivers/keyboard.c and `serial_ring_t` of kernel/src/drivers/serial.c. One slot is
-- kept empty, so that `head == tail` means that nothing is queued.
pub mod Contents
use innovati_os.Base.{
  ℕ, ◌+◌, ◌%◌, Bool, true, false, Option, none, some, ◌==◌, if◌then◌else◌, update,
}

pub record Ring : Type 0 where
  pub buf : ℕ → ℕ
  pub head : ℕ
  pub tail : ℕ

abbrev pub ring_size : ℕ
ring_size = 256

-- `ring_is_empty`
unfoldable pub is_empty : Ring → Bool
is_empty r = r.head == r.tail

-- `ring_push`: the mask by 255 of a sum is its remainder by 256. The byte is dropped if the ring
-- is full, and the result says so.
unfoldable pub push : Ring → ℕ → Ring × Bool
push r byte =
    let next = (r.head + 1) % ring_size in
    if next == r.tail
    then (r, false)
    else (record r { buf = update r.buf r.head byte; head = next }, true)

-- `ring_pop`: the byte goes through `out`, and `none` is its `false`.
unfoldable pub pop : Ring → Ring × Option ℕ
unfolding is_empty
pop r =
    if is_empty r
    then (r, none)
    else (record r { tail = (r.tail + 1) % ring_size }, some (r.buf r.tail))
