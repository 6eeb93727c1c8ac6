-- ===== src/Session/Transport/Delivery.antt =====
-- What one end of a session seals, the other end opens.
use camex.Base.{
  ℕ, ◌+◌, ◌^◌, ◌≤◌, ◌<◌, ◌≡◌, refl, sym, Bool, true, Option, none, some, List, [], ◌∷◌, ◌++◌,
  length, take, drop, arith, u64, All, le_bytes, bytes_eq,
}
use camex.Crypto.{Crypto, CryptoLaws}
use camex.Noise.Cipher.{noise_encrypt, tag_len}
use camex.Noise.Cipher.Laws.{decrypt-encrypt, length-noise_encrypt}
use camex.Session.Wire.{
  type_data, data_hdr, overhead, write_u32, write_le64, read_le64, packet_type, data_receiver,
}
use camex.Session.Wire.Laws.{read-write_u32, read-write_le64}
use camex.Session.Replay.{reject_after_msgs, replay_check, replay_record, move_to, mark}
use camex.Session.Replay.Track.{Tracks, insert, replay_record-Tracks}
use camex.Session.Transport.{Session, data_header, session_seal, session_open, open_body}

-- What the reader finds in a packet that was put together with a header.
pub record IsData (pkt header body : List ℕ) (receiver n : ℕ) : Type 0 where
  pub its_type : packet_type pkt ≡ type_data
  pub its_receiver : data_receiver pkt ≡ receiver
  pub its_counter : read_le64 (drop 9 pkt) ≡ n
  pub its_header : take data_hdr pkt ≡ header
  pub its_body : drop data_hdr pkt ≡ body
  pub its_length : length pkt ≡ data_hdr + length body

pub header-IsData :
    (receiver n : ℕ) (body : List ℕ)
    → receiver < 2 ^ 32
    → n < 2 ^ 64
    → tag_len ≤ length body
    → IsData (data_header receiver n ++ body) (data_header receiver n) body receiver n
unfolding write_u32 write_le64 packet_type data_receiver le_bytes bytes_eq
header-IsData receiver n body hr hn hb = record {
  its_type = ground arith;
  its_receiver = read-write_u32 receiver (write_le64 n ++ body) hr;
  its_counter = read-write_le64 n body hn;
  its_header = refl;
  its_body = refl;
  its_length = omega arith;
}

-- The packet that a willing session seals, and the session after it.
seals :
    (c : Crypto) (a : Session) (plain : List ℕ) (out_size : ℕ)
    → a.valid ≡ true
    → a.send_n < reject_after_msgs
    → overhead + length plain ≤ out_size
    → let header = data_header a.remote_index a.send_n in
      session_seal c a plain out_size ≡ (
        some (header ++ noise_encrypt c a.k_send a.send_n header plain),
        record a { send_n = a.send_n + 1 },
      )
unfolding session_seal
seals c a plain out_size v n room =
    let no_wrap : u64 (a.send_n + 1) ≡ a.send_n + 1 = omega arith in ground arith

-- The two ends of one session: the sender `a` and the receiver `b`.
pub record IsLinked (a b : Session) : Type 0 where
  pub a_valid : a.valid ≡ true
  pub b_valid : b.valid ≡ true
  pub same_key : a.k_send ≡ b.k_recv
  pub same_index : a.remote_index ≡ b.local_index
  pub index_fits : a.remote_index < 2 ^ 32

-- A session after its window has recorded `n`.
abbrev pub recorded : Session → ℕ → Session
recorded b n = record b { replay = replay_record b.replay n }

module _ {c : Crypto} (laws : CryptoLaws c) where
  -- A packet of the other end that the window accepts is opened.
  opens :
      (b : Session) (key plain pkt header : List ℕ) (n plain_size : ℕ)
      → b.valid ≡ true
      → key ≡ b.k_recv
      → IsData pkt header (noise_encrypt c key n header plain) b.local_index n
      → length plain ≤ plain_size
      → replay_check b.replay n ≡ true
      → session_open c b pkt plain_size ≡ (some plain, recorded b n)
  unfolding session_open open_body
  opens b key plain pkt header n plain_size v e d room ok = ground (
    arith,
    d.its_type,
    d.its_receiver,
    d.its_counter,
    d.its_header,
    d.its_body,
    d.its_length,
    decrypt-encrypt laws b.k_recv n header plain,
    length-noise_encrypt laws b.k_recv n header plain,
  )

  -- What one end seals under a counter that the other end's window accepts, the other end opens:
  -- it reads the same bytes, records that counter and changes nothing else, and the sender only
  -- counts up.
  pub open-seal :
      (a b : Session) (plain : List ℕ) (out_size plain_size : ℕ)
      → IsLinked a b
      → a.send_n < reject_after_msgs
      → overhead + length plain ≤ out_size
      → length plain ≤ plain_size
      → replay_check b.replay a.send_n ≡ true
      → (pkt : List ℕ) × (session_seal c a plain out_size
          ≡ (some pkt, record a { send_n = a.send_n + 1 }))
        × (session_open c b pkt plain_size ≡ (some plain, recorded b a.send_n))
  open-seal a b plain out_size plain_size l n fits room ok =
      let header = data_header a.remote_index a.send_n in
      let body = noise_encrypt c a.k_send a.send_n header plain in
      let found : IsData (header ++ body) header body a.remote_index a.send_n =
        header-IsData a.remote_index a.send_n body l.index_fits (omega arith)
          (omega (arith, length-noise_encrypt laws a.k_send a.send_n header plain)) in
      (
        header ++ body,
        seals c a plain out_size l.a_valid n fits,
        opens b a.k_send plain (header ++ body) header a.send_n plain_size l.b_valid l.same_key
            (rw (sym l.same_index) found) room ok,
      )

-- A list of texts sealed one after another, and a list of packets opened one after another: the
-- packets or texts that came out, and the session at the end.
abbrev pub cons_some {ℓ} : {A : Type ℓ} → Option A → List A → List A
cons_some none xs = xs
cons_some (some x) xs = x ∷ xs

abbrev pub seal_all : Crypto → ℕ → Session → List (List ℕ) → List (List ℕ) × Session
seal_all c size a [] = ([], a)
seal_all c size a (p ∷ ps) =
    let (o, a1) = session_seal c a p size in
    let (rest, a2) = seal_all c size a1 ps in (cons_some o rest, a2)

abbrev pub open_all : Crypto → ℕ → Session → List (List ℕ) → List (List ℕ) × Session
open_all c size b [] = ([], b)
open_all c size b (p ∷ ps) =
    let (o, b1) = session_open c b p size in
    let (rest, b2) = open_all c size b1 ps in (cons_some o rest, b2)

-- The receiver is ready for the sender's next counter: nothing at or above it was seen.
pub record IsReady (a b : Session) : Type 0 where
  pub linked : IsLinked a b
  pub seen : ℕ → Bool
  pub tracks : Tracks b.replay seen
  pub ahead : b.replay.any ≡ true → b.replay.max < a.send_n

ready_check :
    {a b : Session}
    → IsReady a b
    → a.send_n < reject_after_msgs
    → replay_check b.replay a.send_n ≡ true
unfolding replay_check
ready_check r n = ground (arith, r.ahead)

next-IsReady :
    {a b : Session}
    → IsReady a b
    → a.send_n < reject_after_msgs
    → IsReady (record a { send_n = a.send_n + 1 }) (recorded b a.send_n)
unfolding replay_record move_to mark
next-IsReady {a} {b} r n = record {
  linked = record {
    a_valid = r.linked.a_valid;
    b_valid = r.linked.b_valid;
    same_key = r.linked.same_key;
    same_index = r.linked.same_index;
    index_fits = r.linked.index_fits;
  };
  seen = insert a.send_n r.seen;
  tracks = replay_record-Tracks a.send_n r.tracks (ready_check r n);
  ahead = λ _. ground (arith, r.ahead);
}

-- Every text leaves room for the header and the tag in a buffer of `out` bytes, and fits one of
-- `room` bytes.
abbrev pub AllFit : ℕ → ℕ → List (List ℕ) → Type 0
AllFit out room = All (λ p. (overhead + length p ≤ out) × (length p ≤ room))

module _ {c : Crypto} (laws : CryptoLaws c) where
  -- A stream that arrives in order arrives whole: all texts sealed by one end are opened by the
  -- other, in their order, as long as the sender's counter stays below the limit.
  pub stream_arrives :
      (ps : List (List ℕ)) (a b : Session) (out room : ℕ)
      → IsReady a b
      → a.send_n + length ps ≤ reject_after_msgs
      → AllFit out room ps
      → (open_all c room b (seal_all c out a ps).0).0 ≡ ps
  stream_arrives [] a b out room r n fit = refl
  stream_arrives (p ∷ ps) a b out room r n fit =
      let n' : a.send_n < reject_after_msgs = omega arith in
      let one = open-seal laws a b p out room r.linked n' fit.0.0 fit.0.1 (ready_check r n') in
      let rest =
        stream_arrives ps (record a { send_n = a.send_n + 1 }) (recorded b a.send_n) out room
          (next-IsReady r n') (omega arith) fit.1 in
      rw (one.1, one.2, rest) refl
