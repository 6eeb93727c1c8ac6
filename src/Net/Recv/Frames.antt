-- ===== src/Net/Recv/Frames.antt =====
-- The receive state against the stream of frames: what the peer's encoder wrote arrives frame by
-- frame, however `read` cuts the bytes.
use camex.Base.{
  ℕ, ◌-◌, ◌≤◌, ◌<◌, ◌≡◌, refl, sym, ap, ◌∙◌, true, false, ◌||◌, List, [], ◌∷◌, ◌++◌, length, take,
  ltb, ◌==◌, ◌>>>◌, u8, arith, length-append, length-take, take_all, All, append-same_length,
  if_true, if_false, bit_or-fields,
}
use camex.Net.Stream.{Stream}
use camex.Net.Recv.{
  RecvState, LoopEnd, filled, waits, broke, stalled, Recv, frame, partial, broken, fill, recv_body,
  end_body, end_header, net_len, after_header, recv_frame,
}
use camex.Net.Recv.Fill.{Filled, fill-Filled}

-- A frame on the wire: its length in network order, then its bytes.
unfoldable pub encode_frame : List ℕ → List ℕ
encode_frame f = u8 (length f >>> 8) ∷ u8 (length f) ∷ f

unfoldable pub encode_frames : List (List ℕ) → List ℕ
encode_frames [] = []
encode_frames (f ∷ fs) = encode_frame f ++ encode_frames fs

abbrev pub Fits : ℕ → List ℕ → Type 0
Fits size f = (0 < length f) × (length f ≤ size) × (length f < 65536)

header_of_frame : (n : ℕ) → n < 65536 → net_len (u8 (n >>> 8) ∷ u8 n ∷ []) ≡ n
unfolding net_len
header_of_frame n h = bit_or-fields 8 (u8 (n >>> 8)) (u8 n) (omega arith) ∙ omega arith

module _ (os : Stream) where
  -- The receive state, the buffer and the socket between two calls, when `fs` are the frames that
  -- have not been delivered.
  pub data Expect (size : ℕ) (buf : List ℕ) (st : RecvState) (s : os.State)
      : List (List ℕ) → Type 0 where
    in_header :
        {fs : List (List ℕ)}
        → All (Fits size) fs
        → length st.header ≡ 2
        → st.header_done ≡ false
        → st.header_have ≤ 2
        → take st.header_have st.header ++ os.coming s ≡ encode_frames fs
        → Expect size buf st s fs
    in_body :
        {f : List ℕ} {fs : List (List ℕ)}
        → Fits size f
        → All (Fits size) fs
        → length st.header ≡ 2
        → st.header_done ≡ true
        → st.body_len ≡ length f
        → st.body_have < length f
        → take st.body_have buf ++ os.coming s ≡ f ++ encode_frames fs
        → Expect size buf st s (f ∷ fs)

  -- What one call does with the frames `fs`: it delivers the first, it keeps them for the next
  -- call, or the connection ended.
  pub data Next (size : ℕ) (fs : List (List ℕ)) (r : Recv × List ℕ × RecvState × os.State)
      : Type 0 where
    delivers :
        {f : List ℕ} {left : List (List ℕ)}
        → fs ≡ f ∷ left
        → r.0 ≡ frame (length f)
        → take (length f) r.1 ≡ f
        → size ≤ length r.1
        → Expect size r.1 r.2 r.3 left
        → Next size fs r
    keeps : r.0 ≡ partial → size ≤ length r.1 → Expect size r.1 r.2 r.3 fs → Next size fs r
    loses : r.0 ≡ broken → os.gone r.3 ≡ true → Next size fs r

  end_body-Next :
      (size : ℕ) (buf : List ℕ) (st : RecvState) (s : os.State) (f : List ℕ) (fs : List (List ℕ))
      → Fits size f
      → All (Fits size) fs
      → length st.header ≡ 2
      → st.header_done ≡ true
      → st.body_len ≡ length f
      → size ≤ length buf
      → take st.body_have buf ++ os.coming s ≡ f ++ encode_frames fs
      → (r : LoopEnd × List ℕ × ℕ × os.State) → Filled os buf st.body_have st.body_len s r
      → Next size (f ∷ fs) (end_body os st r)
  end_body-Next size buf st s f fs fit fits h2 d len room e (filled, buf', have, s') w =
      let whole : have ≡ length f = w.complete refl ∙ len in
      let parts =
        append-same_length (take have buf') (os.coming s') f (encode_frames fs)
          (omega (arith, length-take have buf', w.same_length, fit)) (w.all_bytes ∙ e) in
      delivers refl (ap frame len) (ap (λ n. take n buf') (sym whole) ∙ parts.0)
        (omega (arith, w.same_length)) (in_header fits h2 refl (omega arith) parts.1)
  end_body-Next size buf st s f fs fit fits h2 d len room e (waits, buf', have, s') w =
      let short = w.unfinished refl in
      keeps refl (omega (arith, w.same_length))
        (in_body fit fits h2 d len (omega arith) (w.all_bytes ∙ e))
  end_body-Next size buf st s f fs fit fits h2 d len room e (broke, buf', have, s') w =
      loses refl (w.ended refl)
  end_body-Next size buf st s f fs fit fits h2 d len room e (stalled, buf', have, s') w =
      absurd (w.never_stalls refl)

  recv_body-Next :
      (size : ℕ) (buf : List ℕ) (st : RecvState) (s : os.State) (f : List ℕ) (fs : List (List ℕ))
      → Fits size f
      → All (Fits size) fs
      → length st.header ≡ 2
      → st.header_done ≡ true
      → st.body_len ≡ length f
      → st.body_have < length f
      → size ≤ length buf
      → take st.body_have buf ++ os.coming s ≡ f ++ encode_frames fs
      → Next size (f ∷ fs) (recv_body os buf st s)
  unfolding recv_body
  recv_body-Next size buf st s f fs fit fits h2 d len more room e =
      end_body-Next size buf st s f fs fit fits h2 d len room e
        (fill os (st.body_len - st.body_have) buf st.body_have st.body_len s)
        (fill-Filled os (st.body_len - st.body_have) buf st.body_have st.body_len s
          (omega (arith, fit, len)) (omega (arith, len)) (omega arith))

  after_header-Next :
      (size : ℕ) (buf : List ℕ) (st : RecvState) (s : os.State) (fs : List (List ℕ))
      → All (Fits size) fs
      → size ≤ length buf
      → length st.header ≡ 2
      → st.header_have ≡ 2
      → st.header ++ os.coming s ≡ encode_frames fs
      → Next size fs (after_header os size buf st s)
  unfolding after_header encode_frames encode_frame
  after_header-Next size buf st s [] fits room h2 have e =
      absurd (omega (arith, ap length e, length-append st.header (os.coming s)))
  after_header-Next size buf st s (f ∷ fs) (fit, fits) room h2 have e =
      let parts =
        append-same_length st.header (os.coming s) (u8 (length f >>> 8) ∷ u8 (length f) ∷ [])
          (f ++ encode_frames fs) h2 e in
      let len : net_len st.header ≡ length f =
        ap net_len parts.0 ∙ (header_of_frame (length f) fit.2) in
      let good : (net_len st.header == 0 || ltb size (net_len st.header)) ≡ false =
        rw len (ground (arith, fit)) in
      rw good (
        recv_body-Next size buf
          (record st { body_len = net_len st.header; header_done = true; body_have = 0 }) s f fs fit
          fits h2 refl len fit.0 room parts.1)

  end_header-Next :
      (size : ℕ) (buf : List ℕ) (st : RecvState) (s : os.State) (fs : List (List ℕ))
      → All (Fits size) fs
      → size ≤ length buf
      → length st.header ≡ 2
      → st.header_done ≡ false
      → take st.header_have st.header ++ os.coming s ≡ encode_frames fs
      → (r : LoopEnd × List ℕ × ℕ × os.State) → Filled os st.header st.header_have 2 s r
      → Next size fs (end_header os size buf st r)
  end_header-Next size buf st s fs fits room h2 d e (filled, h, have, s') w =
      let two = w.complete refl in
      let h2' = w.same_length ∙ h2 in
      let whole : take have h ≡ h = take_all have h (omega arith) in
      after_header-Next size buf (record st { header = h; header_have = have }) s' fs fits room h2'
        two (ap (λ x. x ++ os.coming s') (sym whole) ∙ w.all_bytes ∙ e)
  end_header-Next size buf st s fs fits room h2 d e (waits, h, have, s') w =
      keeps refl room (in_header fits (w.same_length ∙ h2) d w.within (w.all_bytes ∙ e))
  end_header-Next size buf st s fs fits room h2 d e (broke, h, have, s') w =
      loses refl (w.ended refl)
  end_header-Next size buf st s fs fits room h2 d e (stalled, h, have, s') w =
      absurd (w.never_stalls refl)

  -- One call of `net_tcp_recv_frame`, in any state that it can be called in.
  pub recv_frame-Next :
      (size : ℕ) (buf : List ℕ) (st : RecvState) (s : os.State) (fs : List (List ℕ))
      → size ≤ length buf
      → Expect size buf st s fs
      → Next size fs (recv_frame os size buf st s)
  unfolding recv_frame
  recv_frame-Next size buf st s fs room (in_header fits h2 d two e) =
      let r = fill os (2 - st.header_have) st.header st.header_have 2 s in
      let w : Filled os st.header st.header_have 2 s r =
        fill-Filled os (2 - st.header_have) st.header st.header_have 2 s (omega (arith, h2)) two
          (omega arith) in
      rw (if_false st.header_done (recv_body os buf st s) (end_header os size buf st r) d)
        (end_header-Next size buf st s fs fits room h2 d e r w)
  recv_frame-Next size buf st s (f ∷ fs) room (in_body fit fits h2 d len more e) =
      let r = fill os (2 - st.header_have) st.header st.header_have 2 s in
      rw (if_true st.header_done (recv_body os buf st s) (end_header os size buf st r) d)
        (recv_body-Next size buf st s f fs fit fits h2 d len more room e)
