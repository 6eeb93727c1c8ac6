-- ===== src/Server/Reload/Claim.antt =====
-- Which IDs and addresses a key may claim.
use camex.Base.{
  ℕ, ◌-◌, ◌≡◌, ◌≢◌, refl, sym, ap, ◌∙◌, ◌⊎◌, inl, inr, ◌↔◌, Bool, true, false, not, ◌&&◌, ◌||◌,
  Option, none, some, List, [], ◌∷◌, take, if◌then◌else◌, Bool-cases, if_true, if_false, arith,
}
use camex.Server.Leases.{is_empty, same_name}
use camex.Server.Entries.{Config}
use camex.Server.Reload.{
  claimed_id, differs, reserved, claims, register_allowed, is_empty-nil, nil-is_empty,
}

-- Whose registration it is: the client names its ID, or the key has an owner and the ID is that one,
-- cut to the size of the buffer, or neither.
pub data Claimant (g : Config) (key id : List ℕ) (size : ℕ) (new : List ℕ) : Type 0 where
  named : id ≢ [] → new ≡ id → Claimant g key id size new
  by_key :
      id ≡ []
      → g.key_owner key ≢ []
      → new ≡ take (size - 1) (g.key_owner key)
      → Claimant g key id size new
  nameless : id ≡ [] → g.key_owner key ≡ [] → new ≡ [] → Claimant g key id size new

-- The key may stand for the ID: it is one of the ID's own, or it has no owner and the ID owns no key.
abbrev pub Owned : Config → List ℕ → List ℕ → Type 0
Owned g key new =
    (g.key_owned_by key new ≡ true) ⊎ ((g.key_owner key ≡ []) × (g.has_owner new ≡ false))

-- The address that a client sets for itself: that of its profile, if it has one, and no address in
-- the profile of another client that owns a key.
pub record IsFree (g : Config) (new : List ℕ) (a : ℕ) : Type 0 where
  pub own : (want : ℕ) → new ≢ [] → g.profile_ip new ≡ some want → want ≡ a
  pub others :
      (owner : List ℕ)
      → g.owner_of_ip a ≡ some owner
      → (same_name owner new ≡ true) ⊎ (g.has_owner owner ≡ false)

-- A registration for `new` may be granted.
pub record IsRightful (g : Config) (key id : List ℕ) (size : ℕ) (address : Option ℕ) (auto : Bool)
    (new : List ℕ) : Type 0 where
  pub claimant : Claimant g key id size new
  pub owned : new ≢ [] → Owned g key new
  pub free : auto ≡ false → (a : ℕ) × (address ≡ some a) × IsFree g new a

nil_or : (t : List ℕ) → (t ≡ []) ⊎ (is_empty t ≡ false)
nil_or [] = inl refl
nil_or (x ∷ t) = inr refl

full-is_empty : (t : List ℕ) → t ≢ [] → is_empty t ≡ false
full-is_empty [] n = absurd (n refl)
full-is_empty (x ∷ t) n = refl

is_empty-full : (t : List ℕ) → is_empty t ≡ false → t ≢ []
is_empty-full t f n = cc (sym f ∙ nil-is_empty t n)

claimed_id-Claimant :
    (g : Config) (key id : List ℕ) (size : ℕ) → Claimant g key id size (claimed_id g key id size)
claimed_id-Claimant g key id size =
    let owner : List ℕ = g.key_owner key in
    elim (nil_or id) [
      | inr f ↦
          named (is_empty-full id f) (if_false _ (take (size - 1) owner) id (ground (arith, f)))
      | inl e ↦ elim (nil_or owner) [
        | inl o ↦
            nameless e o
              (if_false _ (take (size - 1) owner) id (ground (arith, nil-is_empty owner o)) ∙ e)
        | inr f ↦
            by_key e (is_empty-full owner f)
              (if_true _ (take (size - 1) owner) id (ground (arith, nil-is_empty id e, f)))
      ]
    ]

Claimant-claimed_id :
    (g : Config) (key id new : List ℕ) (size : ℕ)
    → Claimant g key id size new
    → new ≡ claimed_id g key id size
Claimant-claimed_id g key id new size (named n e) =
    e ∙ sym (if_false _ (take (size - 1) (g.key_owner key)) id (ground (arith, full-is_empty id n)))
Claimant-claimed_id g key id new size (by_key z n e) =
    e
    ∙ sym (
        if_true _ (take (size - 1) (g.key_owner key)) id
          (ground (arith, nil-is_empty id z, full-is_empty (g.key_owner key) n)))
Claimant-claimed_id g key id new size (nameless z n e) =
    e
    ∙ (sym z
        ∙ sym (
            if_false _ (take (size - 1) (g.key_owner key)) id
              (ground (arith, nil-is_empty (g.key_owner key) n))))

profile_same : (o : Option ℕ) (a want : ℕ) → differs o a ≡ false → o ≡ some want → want ≡ a
profile_same none a want f e = absurd (cc e)
profile_same (some w) a want f e = let same : w ≡ want = cc e in ground (arith, f, same)

profile_agrees :
    (o : Option ℕ) (a : ℕ) → ((want : ℕ) → o ≡ some want → want ≡ a) → differs o a ≡ false
profile_agrees none a h = refl
profile_agrees (some w) a h = let same : w ≡ a = h w refl in ground (arith, same)

not_reserved :
    (g : Config) (o : Option (List ℕ)) (new owner : List ℕ)
    → reserved g o new ≡ false
    → o ≡ some owner
    → (same_name owner new ≡ true) ⊎ (g.has_owner owner ≡ false)
not_reserved g none new owner f e = absurd (cc e)
not_reserved g (some w) new owner f e =
    let same : w ≡ owner = cc e in
    elim (Bool-cases (same_name owner new)) [
      | inl t ↦ inl t
      | inr n ↦ inr (ground (arith, n, ap (λ x. reserved g (some x) new) (sym same) ∙ f))
    ]

reserved_by_none :
    (g : Config) (o : Option (List ℕ)) (new : List ℕ)
    → ((owner : List ℕ)
        → o ≡ some owner
        → (same_name owner new ≡ true) ⊎ (g.has_owner owner ≡ false))
    → reserved g o new ≡ false
reserved_by_none g none new h = refl
reserved_by_none g (some w) new h = elim (h w refl) [
  | inl t ↦ ground (arith, t)
  | inr f ↦ ground (arith, f)
]

claims-IsFree :
    (g : Config) (id new : List ℕ) (address : Option ℕ)
    → claims g id address ≡ some new
    → (new ≡ id) × (a : ℕ) × (address ≡ some a) × IsFree g id a
claims-IsFree g id new none e = absurd (cc e)
claims-IsFree g id new (some a) e =
    let other : Bool = not (is_empty id) && differs (g.profile_ip id) a in
    let taken : Bool = reserved g (g.owner_of_ip a) id in
    let rest : Option (List ℕ) = if taken then none else some id in
    elim (Bool-cases other) [
      | inl t ↦ absurd (cc (sym (if_true other none rest t) ∙ e))
      | inr f ↦ elim (Bool-cases taken) [
        | inl t ↦
            absurd (cc (sym (if_false other none rest f ∙ if_true taken none (some id) t) ∙ e))
        | inr f' ↦
            let same : new ≡ id =
              cc (sym (if_false other none rest f ∙ if_false taken none (some id) f') ∙ e) in
            (
              same,
              a,
              refl,
              record {
                own = λ want n q.
                    profile_same (g.profile_ip id) a want (ground (arith, f, full-is_empty id n)) q;
                others = λ owner q. not_reserved g (g.owner_of_ip a) id owner f' q;
              },
            )
      ]
    ]

IsFree-claims : (g : Config) (id : List ℕ) (a : ℕ) → IsFree g id a → claims g id (some a) ≡ some id
IsFree-claims g id a i =
    let other : Bool = not (is_empty id) && differs (g.profile_ip id) a in
    let taken : Bool = reserved g (g.owner_of_ip a) id in
    let mine : other ≡ false = elim (nil_or id) [
      | inl e ↦ ground (arith, nil-is_empty id e)
      | inr f ↦
          let same =
            profile_agrees (g.profile_ip id) a (λ want q. i.own want (is_empty-full id f) q) in
          ground (arith, same)
    ] in
    if_false other none (if taken then none else some id) mine
    ∙ if_false taken none (some id) (reserved_by_none g (g.owner_of_ip a) id i.others)

-- What the guards of the key leave.
key_owns :
    (g : Config) (key its : List ℕ)
    → (not (is_empty its)
        && not (g.key_owned_by key its)
        && (not (is_empty (g.key_owner key)) || g.has_owner its))
      ≡ false
    → its ≢ []
    → Owned g key its
key_owns g key its f n = elim (Bool-cases (g.key_owned_by key its)) [
  | inl t ↦ inl t
  | inr m ↦
      let full = full-is_empty its n in
      inr (is_empty-nil (g.key_owner key) (ground (arith, f, m, full)), ground (arith, f, m, full))
]

owns_key :
    (g : Config) (key its : List ℕ)
    → (its ≢ [] → Owned g key its)
    → (not (is_empty its)
        && not (g.key_owned_by key its)
        && (not (is_empty (g.key_owner key)) || g.has_owner its))
      ≡ false
owns_key g key its h = elim (nil_or its) [
  | inl e ↦ ground (arith, nil-is_empty its e)
  | inr f ↦ elim (h (is_empty-full its f)) [
    | inl t ↦ ground (arith, t)
    | inr (o, n) ↦ ground (arith, nil-is_empty (g.key_owner key) o, n)
  ]
]

granted-IsRightful :
    (g : Config) (key id new : List ℕ) (size : ℕ) (address : Option ℕ) (auto : Bool)
    → register_allowed g key id size address auto ≡ some new
    → IsRightful g key id size address auto new
unfolding register_allowed
granted-IsRightful g key id new size address auto e =
    let its : List ℕ = claimed_id g key id size in
    let refused : Bool =
      not (is_empty its)
      && not (g.key_owned_by key its)
      && (not (is_empty (g.key_owner key)) || g.has_owner its) in
    let rest : Option (List ℕ) = if auto then some its else claims g its address in
    elim (Bool-cases refused) [
      | inl t ↦ absurd (cc (sym (if_true refused none rest t) ∙ e))
      | inr f ↦
          let r : rest ≡ some new = sym (if_false refused none rest f) ∙ e in
          elim (Bool-cases auto) [
            | inl a ↦
                let same : new ≡ its =
                  cc (sym (if_true auto (some its) (claims g its address) a) ∙ r) in
                rw same (record {
                  claimant = claimed_id-Claimant g key id size;
                  owned = key_owns g key its f;
                  free = λ m. absurd (cc (sym a ∙ m));
                })
            | inr m ↦
                let (same, a, names, fits) =
                  claims-IsFree g its new address
                    (sym (if_false auto (some its) (claims g its address) m) ∙ r) in
                rw same (record {
                  claimant = claimed_id-Claimant g key id size;
                  owned = key_owns g key its f;
                  free = λ _. (a, names, fits);
                })
          ]
    ]

IsRightful-granted :
    (g : Config) (key id : List ℕ) (size : ℕ) (address : Option ℕ) (auto : Bool)
    → IsRightful g key id size address auto (claimed_id g key id size)
    → register_allowed g key id size address auto ≡ some (claimed_id g key id size)
unfolding register_allowed
IsRightful-granted g key id size address auto i =
    let its : List ℕ = claimed_id g key id size in
    let rest : Option (List ℕ) = if auto then some its else claims g its address in
    if_false _ none rest (owns_key g key its i.owned) ∙ elim (Bool-cases auto) [
      | inl a ↦ if_true auto (some its) (claims g its address) a
      | inr m ↦
          let (a, e, f) = i.free m in
          if_false auto (some its) (claims g its address) m
          ∙ (ap (claims g its) e ∙ IsFree-claims g its a f)
    ]

-- A registration is granted for an ID exactly when it may be: the ID is the one that the client names,
-- or else the owner of the key, if it has one; the key is one of the ID's own, or it has no owner and
-- the ID owns no key; and a client that does not take its address from the pool names that of its
-- profile, if it has one, and none in the profile of another client that owns a key.
pub register_allowed-Owned :
    (g : Config) (key id new : List ℕ) (size : ℕ) (address : Option ℕ) (auto : Bool)
    → register_allowed g key id size address auto ≡ some new
      ↔ IsRightful g key id size address auto new
register_allowed-Owned g key id new size address auto = (
  granted-IsRightful g key id new size address auto,
  λ i.
      let same : new ≡ claimed_id g key id size =
        Claimant-claimed_id g key id new size i.claimant in
      rw same (IsRightful-granted g key id size address auto (rw (← same) i)),
)
