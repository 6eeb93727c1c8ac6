-- ===== src/Tests/Parts.antt =====
-- The theorems on framing, budgets, indexes and texts that have hypotheses, at inputs where they
-- hold.
use camex.Base.{
  ℕ, ◌+◌, ◌≤◌, ◌≡◌, ◌≢◌, refl, Bool, true, false, not, ◌&&◌, if◌then◌else◌, none, some, List, [],
  ◌∷◌, replicate, length, arith, codes, IsBytes, ◌<◌, All, zero, suc, if_elim, get_or-replicate,
  drop, ◌==◌, inl,
}
use camex.Tests.Toy.{toy}
use camex.Net.Send.{Pending, send_buf_size}
use camex.Slotidx.{Index, find, put}
use camex.Slotidx.Chain.{AtMost}
use camex.Slotidx.Stored.{find-put}
use camex.Util.{read_be64, write_be64, token_value, append_control_field}
use camex.Util.Fields.{read-write_be64, token_value-append}
use camex.Packet.{Backend, Switch, Call, open_it, read_it, close_it, choose, run}
use camex.Packet.Calls.{Obeys, Agrees, run-Agrees}
use camex.Server.Budget.{Budget, Verdict, blank, budget_window}
use camex.Server.Budget.Bounds.{Within}
use camex.Server.Budget.Flood.{
  Served, verdicts, known_requests, known-Served, served, served_unknown, served-Limited,
}
use camex.Keys.Text.{key_base64_encode, key_base64_decode, encode_groups, parse_hex_key, hex_encode}
use camex.Keys.RoundTrip.{decode-encode}
use camex.Keys.Hex.{parse_hex_key-hex_encode}

-- Two frames, cut in odd places.
abbrev frames : List (List ℕ)
frames = codes "ab" ∷ codes "c" ∷ []

abbrev segments : List (List ℕ)
segments = (0 ∷ []) ∷ (2 ∷ 97 ∷ []) ∷ [] ∷ (98 ∷ 0 ∷ 1 ∷ 99 ∷ []) ∷ []

abbrev new_slot : Pending
new_slot = record { fd = some 4; buf = some (replicate send_buf_size 0); len = 0; offset = 0 }

abbrev budget : Budget
budget = record {
  shares = replicate 512 blank;
  share_key = replicate 16 0;
  key_ready = false;
  window = 0;
  handshakes = 0;
  unknown_handshakes = 0;
  trials = 0;
  unknown_trials = 0;
}

budget-Within : Within budget
budget-Within = record {
  fair = (refl, λ i. rw (get_or-replicate 512 i blank) (omega arith));
  all = omega arith;
  unknown = omega arith;
  part = omega arith;
}

abbrev requests : List (ℕ × Bool)
requests = (1, false) ∷ (2, true) ∷ (1, false) ∷ []

known-Served_example : All Served (verdicts toy 5 (λ n. none) requests (budget_window 5 budget))
unfolding known_requests
known-Served_example =
    known-Served toy 5 (λ n. none) requests budget budget-Within (λ e. absurd (omega (arith, e)))
      (omega arith)

abbrev verdicts_now : List (Bool × Verdict)
verdicts_now = verdicts toy 5 (λ n. none) requests (budget_window 5 budget)

served-Limited_example :
    (served verdicts_now + (budget_window 5 budget).handshakes ≤ 200)
    × (served_unknown verdicts_now + (budget_window 5 budget).unknown_handshakes ≤ 150)
served-Limited_example = served-Limited toy 5 (λ n. none) requests budget budget-Within

decode-encode_example : key_base64_decode (codes "AQID/w==") 4 ≡ some (1 ∷ 2 ∷ 3 ∷ 255 ∷ [])
unfolding key_base64_encode encode_groups
decode-encode_example =
    decode-encode (1 ∷ 2 ∷ 3 ∷ 255 ∷ []) (codes "AQID/w==") 9 4
      (omega arith, (omega arith, (omega arith, (omega arith, tt)))) (omega arith) (omega arith)
      refl

replicate-IsBytes : (n b : ℕ) → b < 256 → IsBytes (replicate n b)
replicate-IsBytes zero b h = tt
replicate-IsBytes (suc n) b h = (h, replicate-IsBytes n b h)

abbrev some_key : List ℕ
some_key = replicate 32 171

parse_hex_key-hex_encode_example : parse_hex_key (hex_encode some_key 65) ≡ some some_key
parse_hex_key-hex_encode_example =
    parse_hex_key-hex_encode some_key 65 (replicate-IsBytes 32 171 (omega arith)) refl (omega arith)

abbrev sixteen : Index
sixteen = record { hash = replicate 16 0; slot = replicate 16 0; mask = 15; used = 0 }

find-put_example : AtMost 7 (find (λ s. s == 7) (put sixteen 3 8) 3)
find-put_example =
    find-put (λ s. s == 7) 4 sixteen 3 7 0 3 7
      (record { power = refl; small = omega arith; slots = refl; hashes = refl }) (omega arith)
      (omega arith) refl (inl (refl, refl)) refl

read-write_be64_example : read_be64 (write_be64 1700000000123) ≡ 1700000000123
read-write_be64_example = read-write_be64 1700000000123 (omega arith)

token_value-append_example :
    (length (codes "V=1 IP=10.0.0.2") < 64)
    × (token_value (drop 4 (codes "V=1 IP=10.0.0.2")) (codes "IP") 16 ≡ some (codes "10.0.0.2"))
unfolding append_control_field
token_value-append_example =
    token_value-append (codes "V=1 ") (codes "IP") (codes "10.0.0.2") (codes "V=1 IP=10.0.0.2") 64
      16 (omega arith) (omega arith) refl

-- Two devices in memory: the world is the number of the one that is open, and 0 when none is.
abbrev live : ℕ → ℕ → Bool
live i w = not (i == 0) && w == i

abbrev memory_device : ℕ → Backend ℕ ℕ
memory_device i = record {
  open_device = λ p w. if w == 0 then (true, i) else (false, w);
  read_packet = λ n w. (some [], w);
  write_packet = λ xs w. (some (length xs), w);
  get_fd = λ w. some 3;
  close_device = λ w. if w == i then 0 else w;
  host_routes = λ w. true;
}

abbrev opened_at : ℕ → ℕ → Bool × ℕ
opened_at i w = if w == 0 then (true, i) else (false, w)

open_live : (i w : ℕ) → i ≢ 0 → live i w ≡ false → live i (opened_at i w).1 ≡ (opened_at i w).0
open_live i w p h =
    if_elim (λ (r : Bool × ℕ). live i r.1 ≡ r.0) (w == 0) (true, i) (false, w)
      (λ _. ground (arith, p)) (λ _. h)

open_apart : (i j w : ℕ) → i ≢ j → live j (opened_at i w).1 ≡ live j w
open_apart i j w n =
    if_elim (λ (r : Bool × ℕ). live j r.1 ≡ live j w) (w == 0) (true, i) (false, w)
      (λ z. ground (arith, n, z)) (λ _. refl)

memory_device-Obeys : (i : ℕ) → i ≢ 0 → Obeys live i (memory_device i)
memory_device-Obeys i p = record {
  opens = λ params w h. open_live i w p h;
  reads = λ n w h. h;
  writes = λ xs w h. h;
  closes = λ w h. ground (arith, h, p);
  opens_own = λ j params w n. open_apart i j w n;
  reads_own = λ j n w d. refl;
  writes_own = λ j xs w d. refl;
  closes_own = λ j w n. ground (arith, n);
}

first_device-Obeys : Obeys live 1 (memory_device 1)
first_device-Obeys = memory_device-Obeys 1 (λ e. absurd (omega (arith, e)))

second_device-Obeys : Obeys live 2 (memory_device 2)
second_device-Obeys = memory_device-Obeys 2 (λ e. absurd (omega (arith, e)))

-- The first choice of the other backend is refused, the second one is not.
abbrev calls : List (Call ℕ ℕ)
calls =
    open_it 1
    ∷ choose (some (memory_device 2))
    ∷ close_it
    ∷ choose (some (memory_device 2))
    ∷ open_it 1
    ∷ read_it 9
    ∷ []

abbrev closed_switch : Switch ℕ ℕ
closed_switch = record { backend = memory_device 1; is_open = false; world = 0 }

run-Agrees_example : Agrees live (run (memory_device 1) calls closed_switch)
run-Agrees_example =
    run-Agrees live (memory_device 1) calls closed_switch (1, first_device-Obeys)
      (tt, ((2, second_device-Obeys), (tt, ((2, second_device-Obeys), (tt, (tt, tt))))))
      (record {
        device = 1;
        obeys = first_device-Obeys;
        same = refl;
        others = λ j n. ground (arith, n);
      })
