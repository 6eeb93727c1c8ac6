-- ===== src/Session/Replay.antt =====
-- The replay window of src/session.c: a ring of 32 words of 64 bits (RFC 6479 style).
pub mod Digits
pub mod Track
pub mod History
use camex.Base.{
  ℕ, zero, suc, ◌+◌, ◌-◌, ◌/◌, ◌%◌, ◌^◌, Bool, true, false, not, ◌||◌, List, [], ◌∷◌, get_or, set,
  replicate, ltb, leb, ◌==◌, if◌then◌else◌, bit_and, bit_or, u64, ◌<<◌, ◌>>>◌,
}

-- `V2_REPLAY_WINDOW / 64U`
abbrev pub words : ℕ
words = 32

abbrev pub word_bits : ℕ
word_bits = 64

-- `V2_REJECT_AFTER_MSGS`
abbrev pub reject_after_msgs : ℕ
reject_after_msgs = 2 ^ 60

-- `replay_window_t`
pub record Window : Type 0 where
  pub max : ℕ
  pub bits : List ℕ
  pub any : Bool

-- The zeroed window of a new session.
abbrev pub fresh : Window
fresh = record { max = 0; bits = replicate words 0; any = false }

-- `true` is the 0 of the C function. `max / 64 - n / 64` is taken only at `n ≤ max`.
unfoldable pub replay_check : Window → ℕ → Bool
replay_check r n =
    if leb reject_after_msgs n
    then false
    else if not r.any || ltb r.max n
    then true
    else if leb words (r.max / word_bits - n / word_bits)
    then false
    else bit_and (get_or r.bits (n / word_bits % words) 0 >>> (n % word_bits)) 1 == 0

-- `for (w = from; rounds > 0; ++w) bits[w % words] = 0`
unfoldable pub clear : ℕ → ℕ → List ℕ → List ℕ
clear zero from bits = bits
clear (suc rounds) from bits = clear rounds (from + 1) (set bits (from % words) 0)

-- The branches that move the window up to `n`.
unfoldable pub move_to : Window → ℕ → Window
move_to r n =
    let cur = r.max / word_bits in
    let top = n / word_bits in
    if not r.any
    then record { max = n; bits = replicate words 0; any = true }
    else if ltb r.max n
    then record r {
      max = n;
      bits =
          if leb words (top - cur) then replicate words 0 else clear (top - cur) (cur + 1) r.bits;
    }
    else r

-- `r->bits[(n / 64U) % words] |= (uint64_t)1 << (n % 64U)`
unfoldable pub mark : Window → ℕ → Window
mark r n =
    let i = n / word_bits % words in
    record r { bits = set r.bits i (bit_or (get_or r.bits i 0) (u64 (1 << (n % word_bits)))) }

unfoldable pub replay_record : Window → ℕ → Window
replay_record r n = mark (move_to r n) n
