-- ===== src/Server/Leases/Start.antt =====
-- The leases that `server_clients_init` starts with.
use camex.Base.{
  ℕ, zero, suc, ◌^◌, ◌≤◌, ◌≡◌, refl, sym, ap, false, List, [], get_or, replicate, if◌then◌else◌,
  if_elim, arith, length-replicate, get_or-replicate,
}
use camex.Slotidx.{no_table}
use camex.Slotidx.Room.{occupied}
use camex.Slotidx.Cover.{no_table-IsSmall}
use camex.Server.Leases.{Lease, no_lease, Leases, Memory, lease_index_rebuild}
use camex.Server.Leases.Rebuild.{lease_index_rebuild-Rebuilt}
use camex.Server.Leases.Ledger.{IsLedger, ips, ip_of}
use camex.Server.Leases.Keep.{IsLeases, IsSameTable-IsLedger}

abbrev pub fresh_leases : List Lease → Leases
fresh_leases table = record {
  table = table;
  used = 0;
  cursor = 0;
  by_ip = no_table;
  by_id = no_table;
  idx_ok = false;
}

-- Of `count` slots, if `calloc` finds memory for the table.
unfoldable pub leases_start : Memory → ℕ → Leases
leases_start memory count =
    lease_index_rebuild memory (fresh_leases (if memory 0 then replicate count no_lease else []))

unused : (n : ℕ) → occupied (ips (replicate n no_lease)) ≡ 0
unused zero = refl
unused (suc n) = unused n

blank-IsLedger : (n : ℕ) → IsLedger (fresh_leases (replicate n no_lease))
blank-IsLedger n =
    let free : (i : ℕ) → (get_or (replicate n no_lease) i no_lease).ip ≡ 0 =
      λ i. ap ip_of (get_or-replicate n i no_lease) in
    record {
      counted = sym (unused n);
      one_per_ip = λ i j p e. absurd (p (free i));
      one_per_id = λ i j p q e. absurd (p.0 (free i));
    }

-- The program starts with leases that are well formed, whatever the allocations find, for up to 2^20
-- client slots.
pub leases_start-IsLeases :
    (memory : Memory) (count : ℕ) → count ≤ 2 ^ 20 → IsLeases (leases_start memory count)
unfolding leases_start
leases_start-IsLeases memory count few =
    let from : (n : ℕ)
        → n ≤ 2 ^ 20
        → IsLeases (lease_index_rebuild memory (fresh_leases (replicate n no_lease))) =
      λ n l.
        let s : Leases = fresh_leases (replicate n no_lease) in
        let (i, e) =
          lease_index_rebuild-Rebuilt memory s (omega (arith, l, length-replicate n no_lease))
            no_table-IsSmall in
        record { indexed = i; ledger = IsSameTable-IsLedger s _ e (blank-IsLedger n) } in
    if_elim (λ t. IsLeases (lease_index_rebuild memory (fresh_leases t))) (memory 0)
      (replicate count no_lease) [] (λ _. from count few) (λ _. from 0 (omega arith))
