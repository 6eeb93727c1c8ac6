-- ===== src/Net/Sink.antt =====
-- Connected stream sockets, as the sending code uses them: `send` is the operating system's, and the
-- law is what POSIX documents of it.
use camex.Base.{ℕ, ◌≤◌, ◌<◌, ◌≡◌, List, ◌++◌, length, take}

pub data SendResult : Type 0 where
  sent : ℕ → SendResult
  retry broken_pipe : SendResult

pub record Sink : Type 1 where
  pub State : Type 0
  -- `send(fd, buffer, length, MSG_NOSIGNAL)`
  pub send : ℕ → List ℕ → State → SendResult × State
  -- What the sockets have taken over for a descriptor.
  pub taken : ℕ → State → List ℕ
  pub sent_some :
      (fd n : ℕ) (xs : List ℕ) (s s' : State)
      → 0 < length xs
      → send fd xs s ≡ (sent n, s')
      → (0 < n) × (n ≤ length xs) × (taken fd s' ≡ taken fd s ++ take n xs)
  pub retry_keeps :
      (fd : ℕ) (xs : List ℕ) (s s' : State) → send fd xs s ≡ (retry, s') → taken fd s' ≡ taken fd s
