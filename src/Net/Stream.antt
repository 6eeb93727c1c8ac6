-- ===== src/Net/Stream.antt =====
-- A connected stream socket, as the framing code uses it: `read` is the operating system's, and
-- the laws are what POSIX documents of it. `net_sock_err_is_again` takes EAGAIN, EWOULDBLOCK and
-- EINTR together.
use camex.Base.{ℕ, ◌≤◌, ◌<◌, ◌≡◌, Bool, true, List, ◌++◌, length}

pub data ReadResult : Type 0 where
  got : List ℕ → ReadResult
  again closed failed : ReadResult

pub record Stream : Type 1 where
  pub State : Type 0
  -- `read(fd, buffer, count)`
  pub read : ℕ → State → ReadResult × State
  -- What the peer has sent or will send, and no `read` has returned yet.
  pub coming : State → List ℕ
  -- The connection ended or broke.
  pub gone : State → Bool
  pub got_some :
      (n : ℕ) (s s' : State) (xs : List ℕ)
      → 0 < n
      → read n s ≡ (got xs, s')
      → (0 < length xs) × (length xs ≤ n) × (coming s ≡ xs ++ coming s')
  pub again_keeps : (n : ℕ) (s s' : State) → read n s ≡ (again, s') → coming s' ≡ coming s
  pub closed_keeps : (n : ℕ) (s s' : State) → read n s ≡ (closed, s') → coming s' ≡ coming s
  pub failed_keeps : (n : ℕ) (s s' : State) → read n s ≡ (failed, s') → coming s' ≡ coming s
  pub closed_gone : (n : ℕ) (s s' : State) → read n s ≡ (closed, s') → gone s' ≡ true
  pub failed_gone : (n : ℕ) (s s' : State) → read n s ≡ (failed, s') → gone s' ≡ true
