-- ===== src/Server/Entries/Started.antt =====
-- `server_alloc_client`: the entry it starts is a free one, or the one that was quiet longest.
use camex.Base.{
  ℕ, zero, suc, ◌+◌, ◌%◌, ◌≤◌, ◌<◌, ◌≡◌, ◌≢◌, ap, ◌⊎◌, Bool, true, false, Option, none, some, List,
  get_or, ltb, if◌then◌else◌, if_elim, arith, ℕ_discrete, yes, no,
}
use native.Mathlib.Nat.{mod-lt}
use camex.Server.Clients.{Client, Clients, no_client, client_at, max_clients}
use camex.Server.Clients.Set.{free_client, quieter, quietest}
use camex.Server.Entries.{Server, entry, Alloc}

-- The slot that the search for a free one finds.
abbrev pub Found : Clients → Option ℕ → Type 0
Found s none = Unit
Found s (some i) = (i < max_clients s) × ((client_at s i).active ≡ false)

pub free_client-Found :
    (rounds n : ℕ) (s : Clients) → 0 < max_clients s → Found s (free_client rounds n s)
unfolding free_client
free_client-Found zero n s h = tt
free_client-Found (suc rounds) n s h =
    let i : ℕ = (s.alloc_next + n) % max_clients s in
    if_elim (Found s) (client_at s i).active (free_client rounds (n + 1) s) (some i)
      (λ _. free_client-Found rounds (n + 1) s h)
      (λ off. (mod-lt (s.alloc_next + n) {m = max_clients s} h, off))

abbrev seen : List Client → ℕ → ℕ
seen table i = (get_or table i no_client).last_seen

-- Of the entries below `i` the one that was quiet longest.
abbrev pub Quiet : List Client → ℕ → Option ℕ → Type 0
Quiet table i none = i ≡ 0
Quiet table i (some b) = (b < i) × ((j : ℕ) → j < i → seen table b ≤ seen table j)

quieter-Quiet :
    (table : List Client) (i : ℕ) (best : Option ℕ)
    → Quiet table i best
    → Quiet table (i + 1) (if quieter table i best then some i else best)
quieter-Quiet table i none q = (
  omega arith,
  λ j l. let same : j ≡ i = omega (arith, l, q) in omega (arith, ap (seen table) same),
)
quieter-Quiet table i (some b) (l, q) =
    if_elim (Quiet table (i + 1)) (ltb (seen table i) (seen table b)) (some i) (some b)
      (λ t. (
        omega arith,
        λ j u. elim (ℕ_discrete j i) [
          | yes e ↦ omega (arith, ap (seen table) e)
          | no n ↦ ground (arith, t, q j (ground (arith, u, n)))
        ],
      ))
      (λ f. (
        omega (arith, l),
        λ j u. elim (ℕ_discrete j i) [
          | yes e ↦ ground (arith, f, ap (seen table) e)
          | no n ↦ q j (ground (arith, u, n))
        ],
      ))

pub quietest-Quiet :
    (rounds i n : ℕ) (table : List Client) (best : Option ℕ)
    → i + rounds ≡ n
    → Quiet table i best
    → Quiet table n (quietest rounds i table best)
unfolding quietest
quietest-Quiet zero i n table best e q = let same : i ≡ n = omega (arith, e) in rw (← same) q
quietest-Quiet (suc rounds) i n table best e q =
    quietest-Quiet rounds (i + 1) n table (if quieter table i best then some i else best)
      (omega (arith, e)) (quieter-Quiet table i best q)

-- Entry `k` was free, or all were taken and none was quiet for longer.
abbrev pub Victim : Server → Bool → ℕ → Type 0
Victim s holding k =
    ((entry s k).active ≡ false)
    ⊎ ((holding ≡ false)
        × ((j : ℕ)
            → j < max_clients s.clients
            → ((entry s j).active ≡ true) × ((entry s k).last_seen ≤ (entry s j).last_seen)))

-- A started entry, and the others as they were.
pub record IsStarted (s : Server) (holding : Bool) (k : ℕ) (t : Server) : Type 0 where
  pub inside : k < max_clients s.clients
  pub fresh : entry t k ≡ record no_client { active = true }
  pub others : (j : ℕ) → k ≢ j → entry t j ≡ entry s j
  pub victim : Victim s holding k

abbrev pub Allocated : Server → Bool → Alloc → Type 0
Allocated s holding a = elim a.slot [
  | none ↦ (a.server ≡ s) × ((max_clients s.clients ≡ 0) ⊎ (holding ≡ true))
  | some k ↦ IsStarted s holding k a.server
]
