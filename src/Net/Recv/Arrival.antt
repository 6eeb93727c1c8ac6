-- ===== src/Net/Recv/Arrival.antt =====
-- Calls of `net_tcp_recv_frame` one after another: the frames that the caller gets.
use camex.Base.{ℕ, zero, suc, ◌<◌, ◌≡◌, ◌⊎◌, true, List, [], ◌∷◌, ◌++◌, length, take}
use camex.Net.Stream.{Stream}
use camex.Net.Recv.{RecvState, Recv, frame, partial, broken, recv_frame}

module _ (os : Stream) where
  -- A call's frame in front of those of the later calls.
  unfoldable pub collect :
      Recv → List ℕ → os.State → List (List ℕ) × os.State → List (List ℕ) × os.State
  collect (frame len) buf s later = (take len buf ∷ later.0, later.1)
  collect partial buf s later = later
  collect broken buf s later = ([], s)

  -- The frames of `n` calls, and the socket after them; a caller closes a broken connection.
  unfoldable pub received : ℕ → ℕ → List ℕ → RecvState → os.State → List (List ℕ) × os.State
  received zero size buf st s = ([], s)
  received (suc n) size buf st s =
      let r = recv_frame os size buf st s in
      let rest = received n size r.1 r.2 r.3 in collect r.0 r.1 r.3 rest

  -- What has been received is the beginning of what was sent, and once the connection's bytes are
  -- used up it is all of it, unless the connection ended.
  abbrev pub Arrives : List (List ℕ) → List (List ℕ) × os.State → Type 0
  Arrives fs r =
      (left : List (List ℕ)) × (r.0 ++ left ≡ fs)
      × ((os.gone r.1 ≡ true) ⊎ ((left ≡ []) ⊎ (0 < length (os.coming r.1))))
