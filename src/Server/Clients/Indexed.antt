-- ===== src/Server/Clients/Indexed.antt =====
-- The indexes of the clients cover the table: the loop of `server_index_rebuild`.
use camex.Base.{
  ℕ, ◌+◌, ◌^◌, ◌≤◌, ◌<◌, ◌≡◌, refl, ◌⊎◌, inl, inr, Bool, true, false, not, ◌&&◌, Option, none, some,
  List, [], ◌∷◌, ◌++◌, length, get_or, ◌==◌, arith, length-append,
}
use camex.Slotidx.{Index, insert, hash_u32, hash_nocase}
use camex.Slotidx.Cover.{Keys, IsPart, IsPart-insert, IsPart-fewer, IsSmall, IsPart-IsSmall}
use camex.Server.Leases.{Memory, is_empty}
use camex.Server.Clients.{
  Client, no_client, addr_is_set, hash_addr, Which, by_ip, by_id, by_addr, keys_of, key_if, Entered,
  entered, enter_keys,
}

-- `h` is one of the hashes.
abbrev pub In : ℕ → List ℕ → Type 0
In h [] = ⊥
In h (k ∷ keys) = (h ≡ k) ⊎ In h keys

-- The keys of the active entries in the slots below `n`.
abbrev pub client_keys : Which → List Client → ℕ → Keys
client_keys w table n slot h =
    let c = get_or table slot no_client in (slot < n) × (c.active ≡ true) × In h (keys_of w c)

length-key_if : (b : Bool) (h : ℕ) → length (key_if b h) ≤ 1
length-key_if true h = omega arith
length-key_if false h = omega arith

pub length-keys_of : (w : Which) (c : Client) → length (keys_of w c) ≤ 3
unfolding keys_of
length-keys_of by_ip c =
    let a : List ℕ = key_if (not (c.ip == 0)) (hash_u32 c.ip) in
    let b : List ℕ = key_if (not (c.pending_ip == 0)) (hash_u32 c.pending_ip) in
    let d : List ℕ = key_if (c.prev.valid && not (c.prev_ip == 0)) (hash_u32 c.prev_ip) in
    let all : length (a ++ b ++ d) ≤ 3 = omega (
      arith,
      length-append (a ++ b) d,
      length-append a b,
      length-key_if (not (c.ip == 0)) (hash_u32 c.ip),
      length-key_if (not (c.pending_ip == 0)) (hash_u32 c.pending_ip),
      length-key_if (c.prev.valid && not (c.prev_ip == 0)) (hash_u32 c.prev_ip),
    ) in
    all
length-keys_of by_id c =
    let one : length (key_if (not (is_empty c.id)) (hash_nocase c.id)) ≤ 3 =
      omega (arith, length-key_if (not (is_empty c.id)) (hash_nocase c.id)) in
    one
length-keys_of by_addr c =
    let one : length (key_if (addr_is_set c.addr) (hash_addr c.addr)) ≤ 3 =
      omega (arith, length-key_if (addr_is_set c.addr) (hash_addr c.addr)) in
    one

-- What entering some keys of one slot gives.
abbrev pub More : ℕ → List ℕ → Keys → Keys
More slot keys old s h = ((s ≡ slot) × In h keys) ⊎ old s h

pub record IsEntered (old : Keys) (n slot : ℕ) (keys : List ℕ) (e : Entered) : Type 0 where
  pub small : IsSmall e.index
  pub part : e.ok ≡ true → IsPart (More slot keys old) (n + length keys) e.index

insert-IsEntered :
    (memory : Memory) (m slot n h : ℕ) (keys : List ℕ) (x : Index) (old : Keys)
    → slot ≤ 2 ^ 20
    → n ≤ 2 ^ 24
    → IsPart old n x
    → (others : Index → Entered)
    → ((y : Index)
        → IsPart (More slot (h ∷ []) old) (n + 1) y
        → IsEntered (More slot (h ∷ []) old) (n + 1) slot keys (others y))
    → (o : Option Index) → insert (memory m) x h slot ≡ o
    → IsEntered old n slot (h ∷ keys) (entered x others o)
insert-IsEntered memory m slot n h keys x old few room p others onward none e = record {
  small = IsPart-IsSmall old n x p;
  part = λ ok. absurd (cc ok);
}
insert-IsEntered memory m slot n h keys x old few room p others onward (some y) e =
    let q : IsPart (More slot (h ∷ []) old) (n + 1) y =
      IsPart-insert old (More slot (h ∷ []) old) n (memory m) x y h slot p (omega arith)
        (omega arith) e
        (λ s k a. elim a [
          | inl (same, i) ↦ elim i [ inl its ↦ inl (its, same) | inr z ↦ absurd z ]
          | inr o ↦ inr o
        ]) in
    let later = onward y q in
    record {
      small = later.small;
      part = λ ok.
          let r = later.part ok in
          record {
            cover =
                (IsPart-fewer _ (More slot (h ∷ keys) old) _ (others y).index r (λ s k a. elim a [
                  | inl (same, i) ↦ elim i [
                    | inl its ↦ inr (inl (same, inl its))
                    | inr others ↦ inl (same, others)
                  ]
                  | inr o ↦ inr (inr o)
                ])).cover;
            small = r.small;
            counted = omega (arith, r.counted);
          };
    }

pub enter_keys-IsEntered :
    (memory : Memory) (m slot n : ℕ) (keys : List ℕ) (x : Index) (old : Keys)
    → slot ≤ 2 ^ 20
    → n + length keys ≤ 2 ^ 24
    → IsPart old n x
    → IsEntered old n slot keys (enter_keys memory m slot keys x)
unfolding enter_keys
enter_keys-IsEntered memory m slot n [] x old few room p = record {
  small = IsPart-IsSmall old n x p;
  part = λ ok. record {
    cover =
        (IsPart-fewer old _ n x p (λ s h k. elim k [ inl (e, z) ↦ absurd z | inr o ↦ o ])).cover;
    small = p.small;
    counted = omega (arith, p.counted);
  };
}
enter_keys-IsEntered memory m slot n (h ∷ keys) x old few room p =
    insert-IsEntered memory m slot n h keys x old few (omega arith) p
      (enter_keys memory (m + 1) slot keys)
      (λ y q.
        enter_keys-IsEntered memory (m + 1) slot (n + 1) keys y (More slot (h ∷ []) old) few
          (omega arith) q)
      (insert (memory m) x h slot) refl
