-- ===== src/Net/Recv.antt =====
-- `tcp_recv_state_t` and `net_tcp_recv_frame` of src/net.c, for a valid descriptor and pointers that
-- are not NULL.
pub mod Fill
pub mod Frames
pub mod Arrival
use camex.Base.{
  ℕ, zero, suc, ◌+◌, ◌-◌, Bool, true, false, ◌||◌, List, [], ◌∷◌, ◌++◌, length, take, drop, get_or,
  ltb, ◌==◌, if◌then◌else◌, bit_or, ◌<<◌,
}
use camex.Net.Stream.{Stream, ReadResult, got, again, closed, failed}

-- `tcp_recv_state_t`
pub record RecvState : Type 0 where
  pub header : List ℕ
  pub header_have : ℕ
  pub header_done : Bool
  pub body_len : ℕ
  pub body_have : ℕ

-- The zeroed state of a new connection.
abbrev pub start : RecvState
start = record {
  header = 0 ∷ 0 ∷ [];
  header_have = 0;
  header_done = false;
  body_len = 0;
  body_have = 0;
}

-- `xs` copied to `buf + at`, inside the buffer.
abbrev pub write_at : List ℕ → ℕ → List ℕ → List ℕ
write_at buf at xs = take at buf ++ (xs ++ drop (at + length xs) buf)

-- How a loop over `read` ends: with all the bytes that it wants, with EAGAIN, or with the
-- connection's end. It cannot end `stalled`.
pub data LoopEnd : Type 0 where
  filled waits broke stalled : LoopEnd

-- The return values 0 with `*len`, 1 and -1.
pub data Recv : Type 0 where
  frame : ℕ → Recv
  partial broken : Recv

-- `ntohs` of the header
unfoldable pub net_len : List ℕ → ℕ
net_len h = bit_or (get_or h 0 0 << 8) (get_or h 1 0)

module _ (os : Stream) where
  -- `while (have < target) { n = read(fd, buf + have, target - have); ... have += n; }`
  unfoldable pub fill : ℕ → List ℕ → ℕ → ℕ → os.State → LoopEnd × List ℕ × ℕ × os.State
  fill zero buf have target s =
      if ltb have target then (stalled, buf, have, s) else (filled, buf, have, s)
  fill (suc rounds) buf have target s =
      let next = os.read (target - have) s in
      let rest : LoopEnd × List ℕ × ℕ × os.State = elim next.0 [
        | got xs ↦ fill rounds (write_at buf have xs) (have + length xs) target next.1
        | again ↦ (waits, buf, have, next.1)
        | closed ↦ (broke, buf, have, next.1)
        | failed ↦ (broke, buf, have, next.1)
      ] in
      if ltb have target then rest else (filled, buf, have, s)

  -- A call's result, the buffer, the state and the socket after it.
  abbrev pub Result : Type 0
  Result = Recv × List ℕ × RecvState × os.State

  -- What follows the body loop: the reset for the next frame, or the place to go on from.
  abbrev pub end_body : RecvState → LoopEnd × List ℕ × ℕ × os.State → Result
  end_body st (filled, buf, have, s) = (
    frame st.body_len,
    buf,
    record st { header_have = 0; header_done = false; body_len = 0; body_have = 0 },
    s,
  )
  end_body st (waits, buf, have, s) = (partial, buf, record st { body_have = have }, s)
  end_body st (broke, buf, have, s) = (broken, buf, record st { body_have = have }, s)
  end_body st (stalled, buf, have, s) = (broken, buf, record st { body_have = have }, s)

  unfoldable pub recv_body : List ℕ → RecvState → os.State → Result
  recv_body buf st s =
      end_body st (fill (st.body_len - st.body_have) buf st.body_have st.body_len s)

  -- What follows a complete header.
  unfoldable pub after_header : ℕ → List ℕ → RecvState → os.State → Result
  after_header size buf st s =
      let st' = record st { body_len = net_len st.header } in
      if net_len st.header == 0 || ltb size (net_len st.header)
      then (broken, buf, st', s)
      else recv_body buf (record st' { header_done = true; body_have = 0 }) s

  -- What follows the header loop.
  abbrev pub end_header : ℕ → List ℕ → RecvState → LoopEnd × List ℕ × ℕ × os.State → Result
  end_header size buf st (filled, h, have, s) =
      after_header size buf (record st { header = h; header_have = have }) s
  end_header size buf st (waits, h, have, s) =
      (partial, buf, record st { header = h; header_have = have }, s)
  end_header size buf st (broke, h, have, s) =
      (broken, buf, record st { header = h; header_have = have }, s)
  end_header size buf st (stalled, h, have, s) =
      (broken, buf, record st { header = h; header_have = have }, s)

  unfoldable pub recv_frame : ℕ → List ℕ → RecvState → os.State → Result
  recv_frame size buf st s =
      if st.header_done
      then recv_body buf st s
      else end_header size buf st (fill (2 - st.header_have) st.header st.header_have 2 s)
