-- ===== src/Session/Transport.antt =====
-- `session_t`, `session_init`, `session_wipe`, `session_seal` and `session_open` of src/session.c.
pub mod Delivery
pub mod Refusal
use camex.Base.{
  ℕ, zero, suc, ◌+◌, ◌-◌, ◌^◌, Bool, true, false, not, ◌||◌, Option, none, some, List, [], ◌∷◌,
  ◌++◌, length, take, drop, replicate, ltb, leb, ◌==◌, if◌then◌else◌, u64,
}
use camex.Crypto.{Crypto}
use camex.Noise.Cipher.{noise_encrypt, noise_decrypt, key_len}
use camex.Session.Wire.{
  magic, type_data, data_hdr, overhead, write_u32, write_le64, read_le64, packet_type,
  data_receiver,
}
use camex.Session.Replay.{Window, fresh, reject_after_msgs, replay_check, replay_record}

-- `session_t`
pub record Session : Type 0 where
  pub local_index : ℕ
  pub remote_index : ℕ
  pub k_send : List ℕ
  pub k_recv : List ℕ
  pub send_n : ℕ
  pub replay : Window
  pub created : ℕ
  pub valid : Bool

unfoldable pub session_init : ℕ → ℕ → List ℕ → List ℕ → ℕ → Session
session_init local_index remote_index k_send k_recv now = record {
  local_index = local_index;
  remote_index = remote_index;
  k_send = take key_len k_send;
  k_recv = take key_len k_recv;
  send_n = 0;
  replay = fresh;
  created = now;
  valid = true;
}

-- `session_wipe`: every byte is zero.
abbrev pub wiped : Session
wiped = record {
  local_index = 0;
  remote_index = 0;
  k_send = replicate key_len 0;
  k_recv = replicate key_len 0;
  send_n = 0;
  replay = fresh;
  created = 0;
  valid = false;
}

-- The 17 bytes in front of a DATA packet's cipher text.
abbrev pub data_header : ℕ → ℕ → List ℕ
data_header receiver n = magic ++ (type_data ∷ (write_u32 receiver ++ write_le64 n))

-- The first guard of `session_open`. The type test makes `len` at least `overhead`.
abbrev pub not_ours : Session → List ℕ → ℕ → Bool
not_ours s pkt plain_size =
    not s.valid
    || not (packet_type pkt == type_data)
    || not (data_receiver pkt == s.local_index)
    || ltb plain_size (length pkt - overhead)

module _ (c : Crypto) where
  -- `none` is the length 0 of a refusal.
  unfoldable pub session_seal : Session → List ℕ → ℕ → Option (List ℕ) × Session
  session_seal s plain out_size =
      if not s.valid || leb reject_after_msgs s.send_n || ltb out_size (overhead + length plain)
      then (none, s)
      else let header = data_header s.remote_index s.send_n in
        (
          some (header ++ noise_encrypt c s.k_send s.send_n header plain),
          record s { send_n = u64 (s.send_n + 1) },
        )

  -- The end of `session_open`, once the packet is known to be for this session.
  unfoldable pub open_body : Session → List ℕ → ℕ → Option (List ℕ) × Session
  open_body s pkt n =
      if not (replay_check s.replay n)
      then (none, s)
      else elim (noise_decrypt c s.k_recv n (take data_hdr pkt) (drop data_hdr pkt)) [
        | none ↦ (none, s)
        | some plain ↦ (some plain, record s { replay = replay_record s.replay n })
      ]

  -- `none` is the -1.
  unfoldable pub session_open : Session → List ℕ → ℕ → Option (List ℕ) × Session
  session_open s pkt plain_size =
      if not_ours s pkt plain_size then (none, s) else open_body s pkt (read_le64 (drop 9 pkt))
