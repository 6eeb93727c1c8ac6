-- ===== src/Net/Send.antt =====
-- The sending side of the TCP framing of src/net.c: one pending buffer for each connection. The
-- callers' descriptor is valid and their data is not NULL; in a slot, the descriptor -1 is `none`.
-- Whether `calloc` finds memory is an argument.
pub mod Flush
use camex.Base.{
  ℕ, zero, suc, ◌+◌, ◌-◌, Bool, true, false, not, ◌&&◌, ◌||◌, Option, none, some, List, [], ◌∷◌,
  ◌++◌, length, take, drop, get_or, set, replicate, ltb, leb, ◌==◌, if◌then◌else◌, u8, u16, ◌>>>◌,
}
use camex.Session.Wire.{overhead}
use camex.Net.Sink.{Sink, SendResult, sent, retry, broken_pipe}

-- `TUN_PACKET_MAX`
abbrev pub tun_packet_max : ℕ
tun_packet_max = 9216

abbrev pub send_buf_size : ℕ
send_buf_size = 2 + overhead + tun_packet_max

-- `tcp_send_pending_t`; `buf` is `none` before its first use.
pub record Pending : Type 0 where
  pub fd : Option ℕ
  pub buf : Option (List ℕ)
  pub len : ℕ
  pub offset : ℕ

-- A slot as `tcp_pending_init` leaves it.
abbrev pub unused_slot : Pending
unused_slot = record { fd = none; buf = none; len = 0; offset = 0 }

abbrev pub init : ℕ → List Pending
init slots = replicate slots unused_slot

abbrev pub owned_by : ℕ → Option ℕ → Bool
owned_by fd none = false
owned_by fd (some owner) = owner == fd

abbrev pub is_free : Option ℕ → Bool
is_free none = true
is_free (some fd) = false

abbrev pub has_buf : Option (List ℕ) → Bool
has_buf none = false
has_buf (some buf) = true

abbrev pub bytes_of : Option (List ℕ) → List ℕ
bytes_of none = []
bytes_of (some buf) = buf

-- The place of the slot of `fd`, from place `i` on.
unfoldable pub pending_find : ℕ → ℕ → List Pending → Option ℕ
pending_find i fd [] = none
pending_find i fd (p ∷ slots) = if owned_by fd p.fd then some i else pending_find (i + 1) fd slots

abbrev pub first_of : Option ℕ → ℕ → Option ℕ
first_of none i = some i
first_of (some j) i = some j

-- The loop of `tcp_pending_acquire`, with the first free slot so far.
unfoldable pub free_place : ℕ → List Pending → Option ℕ → Option ℕ
free_place i [] slot = slot
free_place i (p ∷ slots) slot =
    let later = free_place (i + 1) slots slot in
    let later' = free_place (i + 1) slots (first_of slot i) in
    if not (is_free p.fd) then later else if has_buf p.buf then some i else later'

abbrev pub take_slot : Bool → ℕ → Option ℕ → List Pending → Option ℕ × List Pending
take_slot memory fd none slots = (none, slots)
take_slot memory fd (some i) slots =
    let p = get_or slots i unused_slot in
    let buf = if has_buf p.buf then bytes_of p.buf else replicate send_buf_size 0 in
    if not (has_buf p.buf) && not memory
    then (none, slots)
    else (some i, set slots i (record { fd = some fd; buf = some buf; len = 0; offset = 0 }))

unfoldable pub pending_acquire : Bool → ℕ → List Pending → Option ℕ × List Pending
pending_acquire memory fd slots = take_slot memory fd (free_place 0 slots none) slots

abbrev pub release : Pending → Pending
release p = record p { fd = none; len = 0; offset = 0 }

-- The return values 0, 1 and -1.
pub data Sent : Type 0 where
  flushed pending dropped : Sent

-- The frame in the slot's buffer, in front of what the buffer held.
abbrev pub framed : List ℕ → Pending → Pending
framed bytes p = record p {
  buf = some (
      u8 (u16 (length bytes) >>> 8) ∷ u8 (u16 (length bytes)) ∷ bytes
      ++ drop (2 + length bytes) (bytes_of p.buf));
  len = 2 + length bytes;
  offset = 0;
}

-- `*accepted` once the frame is in its slot
abbrev pub accepted_if : Sent → Bool
accepted_if flushed = true
accepted_if pending = true
accepted_if dropped = false

module _ (os : Sink) where
  -- `while (slot->offset < slot->len)`, and the release of the slot.
  unfoldable pub flush_slot : ℕ → ℕ → Pending → os.State → Sent × Pending × os.State
  flush_slot zero fd p s = if ltb p.offset p.len then (pending, p, s) else (flushed, release p, s)
  flush_slot (suc rounds) fd p s =
      let next = os.send fd (take (p.len - p.offset) (drop p.offset (bytes_of p.buf))) s in
      let rest : Sent × Pending × os.State = elim next.0 [
        | sent n ↦ flush_slot rounds fd (record p { offset = p.offset + n }) next.1
        | retry ↦ (pending, p, next.1)
        | broken_pipe ↦ (dropped, release p, next.1)
      ] in
      if ltb p.offset p.len then rest else (flushed, release p, s)

  abbrev pub flush_at : ℕ → Option ℕ → List Pending → os.State → Sent × List Pending × os.State
  flush_at fd none slots s = (flushed, slots, s)
  flush_at fd (some i) slots s =
      let p = get_or slots i unused_slot in
      let (rc, p', s') = flush_slot (p.len - p.offset) fd p s in (rc, set slots i p', s')

  unfoldable pub flush_pending : ℕ → List Pending → os.State → Sent × List Pending × os.State
  flush_pending fd slots s = flush_at fd (pending_find 0 fd slots) slots s

  -- What follows the first flush: the slot, the frame, and the attempt to send it.
  abbrev pub start_frame :
      ℕ → List ℕ → Option ℕ × List Pending → os.State → Sent × Bool × List Pending × os.State
  start_frame fd bytes (none, slots) s = (dropped, false, slots, s)
  start_frame fd bytes (some i, slots) s =
      let p = get_or slots i unused_slot in
      let (rc, slots', s') = flush_pending fd (set slots i (framed bytes p)) s in
      (rc, accepted_if rc, slots', s')

  abbrev pub after_flush :
      Bool → ℕ → List ℕ → Sent × List Pending × os.State → Sent × Bool × List Pending × os.State
  after_flush memory fd bytes (flushed, slots, s) =
      start_frame fd bytes (pending_acquire memory fd slots) s
  after_flush memory fd bytes (pending, slots, s) = (pending, false, slots, s)
  after_flush memory fd bytes (dropped, slots, s) = (dropped, false, slots, s)

  -- The return value, `*accepted`, the slots and the sockets.
  unfoldable pub send_frame_ex :
      Bool → ℕ → List ℕ → List Pending → os.State → Sent × Bool × List Pending × os.State
  send_frame_ex memory fd bytes slots s =
      let rest = after_flush memory fd bytes (flush_pending fd slots s) in
      if ltb (send_buf_size - 2) (length bytes) then (dropped, false, slots, s) else rest

  abbrev pub flush_if : Bool → Option ℕ → List Pending → os.State → List Pending × os.State
  flush_if writable none slots s = (slots, s)
  flush_if writable (some fd) slots s =
      let (rc, slots', s') = flush_pending fd slots s in
      if writable then (slots', s') else (slots, s)

  -- `net_tcp_flush_writable` from slot `i` on; `writable` is `FD_ISSET`.
  unfoldable pub flush_writable :
      ℕ → ℕ → (Option ℕ → Bool) → List Pending → os.State → List Pending × os.State
  flush_writable zero i writable slots s = (slots, s)
  flush_writable (suc rounds) i writable slots s =
      let fd = (get_or slots i unused_slot).fd in
      let (slots', s') = flush_if (writable fd) fd slots s in
      flush_writable rounds (i + 1) writable slots' s'

-- `net_tcp_get_pending_fd`
unfoldable pub pending_fd : List Pending → Option ℕ
pending_fd [] = none
pending_fd (p ∷ slots) = if not (is_free p.fd) && ltb p.offset p.len then p.fd else pending_fd slots

abbrev pub release_at : Option ℕ → List Pending → List Pending
release_at none slots = slots
release_at (some i) slots = set slots i (release (get_or slots i unused_slot))

-- The slots after `net_tcp_close`.
unfoldable pub close : ℕ → List Pending → List Pending
close fd slots = release_at (pending_find 0 fd slots) slots
