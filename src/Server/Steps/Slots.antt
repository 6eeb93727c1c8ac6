-- ===== src/Server/Steps/Slots.antt =====
-- The slots of the tables of src/server.c under the steps, and that what a lookup finds is one of them.
use camex.Base.{
  ℕ, ◌-◌, ◌<◌, ◌≡◌, refl, sym, ap, ◌∙◌, inl, inr, Bool, true, not, ◌&&◌, Option, none, some, leb,
  ◌==◌, arith, length-set, bit_and, Bool-cases, if_true, if_false,
}
use camex.Slotidx.Find.{IsLeast}
use camex.Slotidx.Scan.{first_match-all}
use camex.Server.Clients.{Clients, max_clients}
use camex.Server.Clients.Resets.{IsTabled}
use camex.Server.Clients.Find.{
  match_ip, match_cur_ip, match_cur_ip-match_ip, find_by_ip, find_by_ip-scan, or_else, scan_all,
}
use camex.Server.Clients.Kept.{set_ip-Kept, assign_ip-Kept, restore_ip-Kept}
use camex.Server.Clients.Ended.{
  set_id-Kept, set_addr-Kept, drop_entry-Kept, confirm-Kept, take_pending-Kept,
}
use camex.Server.Entries.{Server, entry}
use camex.Server.Entries.Expire.{end_client-max, expire_client-IsTurn}
use camex.Server.Entries.Given.{match_ip-slot}
use camex.Server.Data.{Part, Receiver, part_of, receiver_at, receiver}
use camex.Server.Steps.{
  Step, ip_set, ip_assigned, ip_restored, id_set, addr_set, confirmed, pending_taken, dropped,
  started, ended, expired, updated, cursor_moved, noted, lease_dropped, Reached, begin, then_step,
  IsServer, Step-IsServer,
}

Step-max : (s t : Server) → Step s t → IsServer s → max_clients t.clients ≡ max_clients s.clients
Step-max s t (ip_set m k ip l) i = (set_ip-Kept m k ip s.clients i.clients l).1
Step-max s t (ip_assigned m k ip l) i = (assign_ip-Kept m k ip s.clients i.clients l).1
Step-max s t (ip_restored m k ip pending l) i =
    (restore_ip-Kept m k ip pending s.clients i.clients l).1
Step-max s t (id_set m k id l) i = (set_id-Kept m k id s.clients i.clients l).1
Step-max s t (addr_set m k addr l) i = (set_addr-Kept m k addr s.clients i.clients l).1
Step-max s t (confirmed now k l) i = (confirm-Kept now k s.clients i.clients l).1
Step-max s t (pending_taken m k l) i = (take_pending-Kept m k s.clients i.clients l).1
Step-max s t (dropped k l) i = (drop_entry-Kept k s.clients i.clients l).1
Step-max s t (started k l) i = length-set s.clients.table k _
Step-max s t (ended m g clock k l) i = end_client-max m g clock k s
Step-max s t (expired m g clock k l) i = (expire_client-IsTurn m g clock k s).same_max
Step-max s t (updated k c l e) i = length-set s.clients.table k c
Step-max s t (cursor_moved n) i = refl
Step-max s t (noted next at last p) i = refl
Step-max s t (lease_dropped o) i = refl

-- A state that steps reach from a well-formed one has as many slots, and is well formed.
pub keeps :
    (s t : Server)
    → IsServer s
    → Reached s t
    → IsServer t × (max_clients t.clients ≡ max_clients s.clients)
keeps s t i begin = (i, refl)
keeps s t i (then_step {t = w} r step) =
    let (j, e) = keeps s w i r in (Step-IsServer w t step j, Step-max w t step j ∙ e)

found_inside :
    (s : Clients) (ip k : ℕ) (a b : Option ℕ)
    → IsLeast (λ j. match_cur_ip s ip j ≡ true) a
    → IsLeast (λ j. match_ip s ip j ≡ true) b
    → or_else a b ≡ some k
    → k < max_clients s
found_inside s ip k (some i) b p q e =
    let same : i ≡ k = cc e in rw (← same) (match_ip-slot s ip i (match_cur_ip-match_ip s ip i p.0))
found_inside s ip k none (some i) p q e =
    let same : i ≡ k = cc e in rw (← same) (match_ip-slot s ip i q.0)
found_inside s ip k none none p q e = absurd (cc e)

pub find_by_ip-inside :
    (s : Clients) (ip k : ℕ) → IsTabled s → find_by_ip s ip ≡ some k → k < max_clients s
find_by_ip-inside s ip k t e =
    let n : ℕ = max_clients s in
    found_inside s ip k (scan_all s (match_cur_ip s ip)) (scan_all s (match_ip s ip))
      (first_match-all (match_cur_ip s ip) n
        (λ j m. match_ip-slot s ip j (match_cur_ip-match_ip s ip j m)))
      (first_match-all (match_ip s ip) n (λ j m. match_ip-slot s ip j m))
      (sym (find_by_ip-scan s ip t) ∙ e)

receiver_at-slot : (k : ℕ) (o : Option Part) (r : Receiver) → receiver_at k o ≡ some r → r.slot ≡ k
receiver_at-slot k none r e = absurd (cc e)
receiver_at-slot k (some part) r e =
    let same : record { slot = k; part = part } ≡ r = cc e in ap (λ x. x.slot) (sym same)

pub receiver-inside :
    (now idx : ℕ) (s : Server) (r : Receiver)
    → receiver now idx s ≡ some r
    → r.slot < max_clients s.clients
unfolding receiver
receiver-inside now idx s r e =
    let slot1 : ℕ = bit_and idx 65535 in
    let valid : Bool =
      not (slot1 == 0) && leb slot1 (max_clients s.clients) && (entry s (slot1 - 1)).active in
    let found : Option Receiver = receiver_at (slot1 - 1) (part_of now idx (entry s (slot1 - 1))) in
    elim (Bool-cases valid) [
      | inl t ↦
          let its : r.slot ≡ slot1 - 1 =
            receiver_at-slot (slot1 - 1) _ r (sym (if_true valid found none t) ∙ e) in
          rw its (ground (arith, t))
      | inr f ↦ absurd (cc (sym (if_false valid found none f) ∙ e))
    ]
