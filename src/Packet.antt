-- ===== src/Packet.antt =====
-- The packet backend switch of src/packet.c. A backend is a record of functions on the state of the
-- world; the TUN backend of src/tun.c is one of them.
pub mod Calls
use camex.Base.{
  ℕ, zero, Bool, true, false, not, ◌&&◌, Option, none, some, List, [], ◌∷◌, if◌then◌else◌, leb,
}

-- `camex_packet_backend_t`: `open` gives true for its return value 0, a descriptor below 0 is `none`,
-- and the results of `read_packet` and `write_packet` below 0 are `none`.
pub record Backend (World Params : Type 0) : Type 0 where
  pub open_device : Params → World → Bool × World
  pub read_packet : ℕ → World → Option (List ℕ) × World
  pub write_packet : List ℕ → World → Option ℕ × World
  pub get_fd : World → Option ℕ
  pub close_device : World → World
  pub host_routes : World → Bool

-- The static variables `backend` and `backend_open`, and the world.
pub record Switch (World Params : Type 0) : Type 0 where
  pub backend : Backend World Params
  pub is_open : Bool
  pub world : World

abbrev pub fd_setsize : ℕ
fd_setsize = 1024

abbrev pub beyond_select : Option ℕ → Bool
beyond_select none = false
beyond_select (some fd) = leb fd_setsize fd

module _ {World Params : Type 0} where
  abbrev pub chosen : Backend World Params → Option (Backend World Params) → Backend World Params
  chosen tun none = tun
  chosen tun (some b) = b

  -- `true` is the 0 of the C function.
  unfoldable pub backend_set :
      Backend World Params
      → Option (Backend World Params)
      → Switch World Params
      → Bool × Switch World Params
  backend_set tun b s =
      if s.is_open then (false, s) else (true, record s { backend = chosen tun b })

  -- What follows a successful `open`.
  unfoldable pub opened : World → Switch World Params → Bool × Switch World Params
  opened w s =
      if beyond_select (s.backend.get_fd w)
      then (false, record s { world = s.backend.close_device w })
      else (true, record s { world = w; is_open = true })

  unfoldable pub open_packets : Params → Switch World Params → Bool × Switch World Params
  open_packets params s =
      let (ok, w) = s.backend.open_device params s.world in
      if s.is_open then (false, s) else if ok then opened w s else (false, record s { world = w })

  unfoldable pub read_packets : ℕ → Switch World Params → Option (List ℕ) × Switch World Params
  read_packets size s =
      let (r, w) = s.backend.read_packet size s.world in
      if s.is_open then (r, record s { world = w }) else (none, s)

  unfoldable pub write_packets : List ℕ → Switch World Params → Option ℕ × Switch World Params
  write_packets bytes s =
      let (r, w) = s.backend.write_packet bytes s.world in
      if s.is_open then (r, record s { world = w }) else (none, s)

  unfoldable pub packet_fd : Switch World Params → Option ℕ
  packet_fd s = if s.is_open then s.backend.get_fd s.world else none

  unfoldable pub close_packets : Switch World Params → Switch World Params
  close_packets s =
      if s.is_open then record s { world = s.backend.close_device s.world; is_open = false } else s

-- The calls that the program makes of the switch.
pub data Call (World Params : Type 0) : Type 0 where
  choose : Option (Backend World Params) → Call World Params
  open_it : Params → Call World Params
  read_it : ℕ → Call World Params
  write_it : List ℕ → Call World Params
  close_it : Call World Params

module _ {World Params : Type 0} (tun : Backend World Params) where
  abbrev pub step : Call World Params → Switch World Params → Switch World Params
  step (choose b) s = (backend_set tun b s).1
  step (open_it params) s = (open_packets params s).1
  step (read_it size) s = (read_packets size s).1
  step (write_it bytes) s = (write_packets bytes s).1
  step close_it s = close_packets s

  abbrev pub run : List (Call World Params) → Switch World Params → Switch World Params
  run [] s = s
  run (c ∷ calls) s = run calls (step c s)
