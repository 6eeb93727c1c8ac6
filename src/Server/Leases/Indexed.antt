-- ===== src/Server/Leases/Indexed.antt =====
-- The indexes of the leases cover them, whatever the allocations of the rebuild find.
use camex.Base.{
  ℕ, ◌+◌, ◌*◌, ◌^◌, ◌≤◌, ◌<◌, ◌≡◌, ◌≢◌, refl, sym, ap, ◌∙◌, ◌⊎◌, inl, inr, Bool, true, false,
  Option, none, some, List, get_or, ◌==◌, if_elim, arith, ==_iff, ℕ_discrete, yes, no,
}
use camex.Slotidx.{Index, insert, hash_u32, hash_nocase}
use camex.Slotidx.Cover.{
  Keys, IsCover, IsPart, IsPart-insert, IsPart-fewer, IsSmall, IsPart-IsSmall,
}
use camex.Server.Leases.{
  Lease, no_lease, Leases, lease_at, cap, Memory, entered_id, entered_ip, enter_lease,
}

-- The keys of the leases in the slots below `i`, by a hash of the lease.
abbrev pub keys_below : (Lease → ℕ) → List Lease → ℕ → Keys
keys_below key table i slot h =
    let l = get_or table slot no_lease in (slot < i) × (l.ip ≢ 0) × (h ≡ key l)

abbrev pub ip_key : Lease → ℕ
ip_key l = hash_u32 l.ip

abbrev pub id_key : Lease → ℕ
id_key l = hash_nocase l.id

-- What holds of the leases in the slots below `i`.
pub record IsPartly (i : ℕ) (s : Leases) : Type 0 where
  pub by_ip : IsSmall s.by_ip
  pub by_id : IsSmall s.by_id
  pub parts :
      s.idx_ok ≡ true
      → IsPart (keys_below ip_key s.table i) i s.by_ip
        × IsPart (keys_below id_key s.table i) i s.by_id

-- While the indexes are used they have every lease under its address and its ID.
pub record IsIndexed (s : Leases) : Type 0 where
  pub few : cap s ≤ 2 ^ 20
  pub by_ip : IsSmall s.by_ip
  pub by_id : IsSmall s.by_id
  pub covers :
      s.idx_ok ≡ true
      → IsCover (keys_below ip_key s.table (cap s)) s.by_ip
        × IsCover (keys_below id_key s.table (cap s)) s.by_id

pub unusable :
    (i : ℕ) (s : Leases) → s.idx_ok ≡ false → IsSmall s.by_ip → IsSmall s.by_id → IsPartly i s
unusable i s e a b = record { by_ip = a; by_id = b; parts = λ k. absurd (cc (sym e ∙ k)) }

-- The lease in slot `i` joins those below it.
joined :
    (key : Lease → ℕ) (table : List Lease) (i slot h : ℕ)
    → keys_below key table (i + 1) slot h
    → ((h ≡ key (get_or table i no_lease)) × (slot ≡ i)) ⊎ keys_below key table i slot h
joined key table i slot h (u, p, e) = elim (ℕ_discrete slot i) [
  | yes same ↦ inl (e ∙ ap (λ n. key (get_or table n no_lease)) same, same)
  | no n ↦ inr (ground (arith, u, n), p, e)
]

skipped :
    (key : Lease → ℕ) (table : List Lease) (i slot h : ℕ)
    → (get_or table i no_lease).ip ≡ 0
    → keys_below key table (i + 1) slot h
    → keys_below key table i slot h
skipped key table i slot h free (u, p, e) = elim (ℕ_discrete slot i) [
  | yes same ↦ absurd (p (ap (λ n. (get_or table n no_lease).ip) same ∙ free))
  | no n ↦ (ground (arith, u, n), p, e)
]

more_room : (keys : Keys) (i : ℕ) (x : Index) → IsPart keys i x → IsPart keys (i + 1) x
more_room keys i x p = record {
  cover = p.cover;
  small = p.small;
  counted = omega (arith, p.counted);
}

entered_id-IsPartly :
    (i : ℕ) (s : Leases) (o : Option Index) (memory : Bool)
    → i ≤ 2 ^ 20
    → IsPart (keys_below ip_key s.table (i + 1)) (i + 1) s.by_ip
    → IsPart (keys_below id_key s.table i) i s.by_id
    → insert memory s.by_id (hash_nocase (lease_at s i).id) i ≡ o
    → IsPartly (i + 1) (entered_id s o)
entered_id-IsPartly i s none memory few a b e =
    unusable (i + 1) (entered_id s none) refl (IsPart-IsSmall _ _ s.by_ip a)
      (IsPart-IsSmall _ _ s.by_id b)
entered_id-IsPartly i s (some y) memory few a b e =
    let b' : IsPart (keys_below id_key s.table (i + 1)) (i + 1) y =
      IsPart-insert (keys_below id_key s.table i) (keys_below id_key s.table (i + 1)) i memory
        s.by_id y (hash_nocase (lease_at s i).id) i b (omega arith) (omega arith) e
        (joined id_key s.table i) in
    record {
      by_ip = IsPart-IsSmall _ _ s.by_ip a;
      by_id = IsPart-IsSmall _ _ y b';
      parts = λ k. (a, b');
    }

entered_ip-IsPartly :
    (memory : Memory) (i : ℕ) (s : Leases) (o : Option Index)
    → i ≤ 2 ^ 20
    → IsPart (keys_below ip_key s.table i) i s.by_ip
    → IsPart (keys_below id_key s.table i) i s.by_id
    → insert (memory (5 + 2 * i)) s.by_ip (hash_u32 (lease_at s i).ip) i ≡ o
    → IsPartly (i + 1) (entered_ip memory i s o)
entered_ip-IsPartly memory i s none few a b e =
    unusable (i + 1) (entered_ip memory i s none) refl (IsPart-IsSmall _ _ s.by_ip a)
      (IsPart-IsSmall _ _ s.by_id b)
entered_ip-IsPartly memory i s (some x) few a b e =
    entered_id-IsPartly i (record s { by_ip = x }) _ (memory (6 + 2 * i)) few
      (IsPart-insert (keys_below ip_key s.table i) (keys_below ip_key s.table (i + 1)) i
        (memory (5 + 2 * i)) s.by_ip x (hash_u32 (lease_at s i).ip) i a (omega arith) (omega arith)
        e (joined ip_key s.table i))
      b refl

pub enter_lease-IsPartly :
    (memory : Memory) (i : ℕ) (s : Leases)
    → i ≤ 2 ^ 20
    → s.idx_ok ≡ true
    → IsPartly i s
    → IsPartly (i + 1) (enter_lease memory i s)
enter_lease-IsPartly memory i s few ok p =
    let (a, b) = p.parts ok in
    if_elim (IsPartly (i + 1)) ((lease_at s i).ip == 0) s
      (entered_ip memory i s (insert (memory (5 + 2 * i)) s.by_ip (hash_u32 (lease_at s i).ip) i))
      (λ free.
        let free' : (lease_at s i).ip ≡ 0 = (==_iff (lease_at s i).ip 0).0 free in
        record {
          by_ip = p.by_ip;
          by_id = p.by_id;
          parts = λ k. (
            more_room _ i s.by_ip
                (IsPart-fewer _ _ i s.by_ip a (λ slot h. skipped ip_key s.table i slot h free')),
            more_room _ i s.by_id
                (IsPart-fewer _ _ i s.by_id b (λ slot h. skipped id_key s.table i slot h free')),
          );
        })
      (λ used. entered_ip-IsPartly memory i s _ few a b refl)
