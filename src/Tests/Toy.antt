-- ===== src/Tests/Toy.antt =====
-- A toy cipher suite and a toy socket. They are no cryptography and no network: they show that the
-- assumptions on the library and on the operating system can hold.
use camex.Base.{
  ℕ, ◌+◌, ◌*◌, ◌%◌, ◌≤◌, ◌<◌, ◌≡◌, refl, sym, ap, ◌∙◌, ◌≢◌, Bool, true, false, Option, none, some,
  List, [], ◌∷◌, ◌++◌, length, take, drop, get_or, replicate, if◌then◌else◌, if_true, arith,
  bytes_eq, bytes_eq_refl, length-take, take-append-drop, append_assoc, u8,
}
use camex.Crypto.{Crypto, CryptoLaws}
use camex.Net.Sink.{Sink, SendResult, sent, retry}
use camex.Net.Stream.{Stream, ReadResult, got, again, closed, failed}

abbrev pub sum : List ℕ → ℕ
sum [] = 1
sum (x ∷ xs) = x + sum xs

abbrev pub toy_mac : List ℕ → List ℕ → List ℕ → List ℕ
toy_mac k n ad = replicate 16 (get_or k 0 7)

abbrev toy_read : List ℕ → List ℕ → List ℕ → List ℕ → List ℕ → Option (List ℕ)
toy_read k n mac ad x = if bytes_eq mac (toy_mac k n ad) then some x else none

abbrev pub toy : Crypto
toy = record {
  blake2b = λ n xs. replicate n (u8 (sum xs));
  blake2b_keyed = λ n k xs. replicate n (u8 (sum k + sum xs));
  x25519 = λ a p. replicate 32 (get_or a 0 0 * get_or p 0 0 % 256);
  x25519_public_key = λ k. replicate 32 (get_or k 0 0);
  aead_write = λ k n ad p. (p, toy_mac k n ad);
  aead_read = toy_read;
}

toy_read-same :
    (k n mac ad x p : List ℕ) (b : Bool)
    → (if b then some x else none) ≡ some p
    → length p ≡ length x
toy_read-same k n mac ad x p true e = ap length (sym (some_eq e))
  where
    some_eq : some x ≡ some p → x ≡ p
    some_eq e = cc e
toy_read-same k n mac ad x p false e = absurd (cc e)

pub toy_laws : CryptoLaws toy
toy_laws = record {
  length-public_key = λ k. refl;
  x25519_comm = λ a b. ap (λ (m : ℕ). replicate 32 (m % 256)) (omega arith);
  length-cipher = λ k n ad p. refl;
  length-mac = λ k n ad p. refl;
  read-write = λ k n ad p.
      if_true (bytes_eq (toy_mac k n ad) (toy_mac k n ad)) (some p) none
        (bytes_eq_refl (toy_mac k n ad));
  length-read = λ k n mac ad x p. toy_read-same k n mac ad x p (bytes_eq mac (toy_mac k n ad));
}

-- The segments that are on their way; an empty one is a `read` that finds nothing yet, and the end
-- of the list is the end of the connection.
abbrev toy_socket_read : ℕ → List (List ℕ) → ReadResult × List (List ℕ)
toy_socket_read n [] = (closed, [])
toy_socket_read n ([] ∷ more) = (again, more)
toy_socket_read n ((x ∷ xs) ∷ more) = (got (take n (x ∷ xs)), drop n (x ∷ xs) ∷ more)

abbrev concat : List (List ℕ) → List ℕ
concat [] = []
concat (xs ∷ more) = xs ++ concat more

abbrev at_end : List (List ℕ) → Bool
at_end [] = true
at_end (xs ∷ more) = false

pub segment_got :
    (n : ℕ) (s s' : List (List ℕ)) (xs : List ℕ)
    → 0 < n
    → toy_socket_read n s ≡ (got xs, s')
    → (0 < length xs) × (length xs ≤ n) × (concat s ≡ xs ++ concat s')
segment_got n [] s' xs h e = absurd (cc e)
segment_got n ([] ∷ more) s' xs h e = absurd (cc e)
segment_got n ((y ∷ ys) ∷ more) s' xs h e =
    let ex : take n (y ∷ ys) ≡ xs = cc e in
    let es : drop n (y ∷ ys) ∷ more ≡ s' = cc e in
    rw (← ex, ← es)
      (
        omega (arith, length-take n (y ∷ ys)),
        omega (arith, length-take n (y ∷ ys)),
        ap (λ z. z ++ concat more) (sym (take-append-drop n (y ∷ ys)))
            ∙ append_assoc (take n (y ∷ ys)) (drop n (y ∷ ys)) (concat more),
      )

pub segment_again :
    (n : ℕ) (s s' : List (List ℕ)) → toy_socket_read n s ≡ (again, s') → concat s' ≡ concat s
segment_again n [] s' e = absurd (cc e)
segment_again n ([] ∷ more) s' e = let es : more ≡ s' = cc e in ap concat (sym es)
segment_again n ((y ∷ ys) ∷ more) s' e = absurd (cc e)

pub segment_closed :
    (n : ℕ) (s s' : List (List ℕ))
    → toy_socket_read n s ≡ (closed, s')
    → (concat s' ≡ concat s) × (at_end s' ≡ true)
segment_closed n [] s' e = let es : [] ≡ s' = cc e in (ap concat (sym es), ap at_end (sym es))
segment_closed n ([] ∷ more) s' e = absurd (cc e)
segment_closed n ((y ∷ ys) ∷ more) s' e = absurd (cc e)

pub never_fails : (n : ℕ) (s s' : List (List ℕ)) → toy_socket_read n s ≢ (failed, s')
never_fails n [] s' e = cc e
never_fails n ([] ∷ more) s' e = cc e
never_fails n ((y ∷ ys) ∷ more) s' e = cc e

abbrev pub toy_socket : Stream
toy_socket = record {
  State = List (List ℕ);
  read = toy_socket_read;
  coming = concat;
  gone = at_end;
  got_some = segment_got;
  again_keeps = segment_again;
  closed_keeps = λ n s s' e. (segment_closed n s s' e).0;
  failed_keeps = λ n s s' e. absurd (never_fails n s s' e);
  closed_gone = λ n s s' e. (segment_closed n s s' e).1;
  failed_gone = λ n s s' e. absurd (never_fails n s s' e);
}

-- A socket that takes one byte at a time; the state is what it has taken.
abbrev toy_send : ℕ → List ℕ → List ℕ → SendResult × List ℕ
toy_send fd [] s = (retry, s)
toy_send fd (x ∷ xs) s = (sent 1, s ++ (x ∷ []))

pub byte_sent :
    (fd n : ℕ) (xs s s' : List ℕ)
    → 0 < length xs
    → toy_send fd xs s ≡ (sent n, s')
    → (0 < n) × (n ≤ length xs) × (s' ≡ s ++ take n xs)
byte_sent fd n [] s s' h e = absurd (cc e)
byte_sent fd n (x ∷ xs) s s' h e =
    let en : 1 ≡ n = cc e in
    let es : s ++ (x ∷ []) ≡ s' = cc e in rw (← en, ← es) (omega arith, omega arith, refl)

pub retry_same : (fd : ℕ) (xs s s' : List ℕ) → toy_send fd xs s ≡ (retry, s') → s' ≡ s
retry_same fd [] s s' e = let es : s ≡ s' = cc e in sym es
retry_same fd (x ∷ xs) s s' e = absurd (cc e)

abbrev pub toy_sink : Sink
toy_sink = record {
  State = List ℕ;
  send = toy_send;
  taken = λ fd s. s;
  sent_some = byte_sent;
  retry_keeps = retry_same;
}
