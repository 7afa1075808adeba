-- ===== src/Device/Clients/Handed.antt =====
-- src/Device.cpp: the client objects that go from the control handler to the device and back.
use mathlib.Core.List.{Permᴰ}
use lib_aspl.Prelude.{
  ℕ, ◌+◌, ◌≤◌, ◌≡◌, refl, ap, ◌∙◌, Option, none, some, List, [], ◌∷◌, if◌then◌else◌, ◌==◌, Map,
  lookup, insert, erase, arith, IsAscending, Above, lookup-insert, lookup-erase, insert-IsAscending,
  erase-IsAscending, is_some, Option-cases, inl, inr,
}
use lib_aspl.Status.{Status, is_ok}
use lib_aspl.Device.Clients.{
  ClientInfo, ClientTable, add_client, remove_client, get_clients, clients_of, get_client_by_id,
}

-- How often a client object stands in a list.
unfoldable pub count : ℕ → List ℕ → ℕ
count x [] = 0
count x (y ∷ ys) = (if x == y then 1 else 0) + count x ys

insert-new :
    (x k client : ℕ) (m : Map ℕ)
    → lookup k m ≡ none
    → count x (clients_of (insert k client m))
      ≡ (if x == client then 1 else 0) + count x (clients_of m)
unfolding insert lookup count
insert-new x k client [] e = ground arith
insert-new x k client ((j, other) ∷ m) e = ground (arith, insert-new x k client m)

erase-Above-absent : (i k : ℕ) (m : Map ℕ) → Above k m → i ≤ k → erase i m ≡ m
unfolding erase
erase-Above-absent i k [] up le = refl
erase-Above-absent i k ((j, c) ∷ m) up le = ground (arith, erase-Above-absent i j m up.1)

Above-IsAscending : (k : ℕ) (m : Map ℕ) → Above k m → IsAscending m
Above-IsAscending k [] up = tt
Above-IsAscending k ((j, c) ∷ m) up = up.1

erase-held :
    (x k client : ℕ) (m : Map ℕ)
    → IsAscending m
    → lookup k m ≡ some client
    → count x (clients_of m) ≡ (if x == client then 1 else 0) + count x (clients_of (erase k m))
unfolding erase lookup count
erase-held x k client [] up e = cc
erase-held x k client ((j, other) ∷ m) up e =
    ground (arith, erase-held x k client m (Above-IsAscending j m up), erase-Above-absent k j m up)

-- The calls of the HAL on this device, in any order; an addition comes with the control handler's
-- answer.
pub data ClientEvent : Type 0 where
  adds : ClientInfo → (answer : Option ℕ) → ClientEvent
  removes : ClientInfo → ClientEvent

-- A client that is added as often as it is in one order of the entries is so in any other.
count-Permᴰ : (x : ℕ) {l m : Map ℕ} → Permᴰ l m → count x (clients_of l) ≡ count x (clients_of m)
unfolding count
count-Permᴰ x Permᴰ.nil = refl
count-Permᴰ x (Permᴰ.cons {a} {b} e p) = ground (arith, ap (λ q. q.1) e, count-Permᴰ x p)
count-Permᴰ x (Permᴰ.swap {a} {b} {a'} {b'} e f) = ground (arith, ap (λ q. q.1) e, ap (λ q. q.1) f)
count-Permᴰ x (Permᴰ.trans p q) = count-Permᴰ x p ∙ count-Permᴰ x q

-- Iteration over a map meets each entry once.
module _ (entries : Map ℕ → Map ℕ) (permutes : (m : Map ℕ) → Permᴰ (entries m) m)
    (self_id : ℕ) where
  abbrev pub client_step : ClientEvent → ClientTable → Status × ClientTable
  client_step (adds info answer) s = add_client answer self_id self_id (some info) s
  client_step (removes info) s = remove_client self_id self_id (some info) s

  abbrev pub client_run : List ClientEvent → ClientTable → ClientTable
  client_run [] s = s
  client_run (e ∷ es) s = client_run es (client_step e s).1

  -- The HAL adds a client only under an identifier that is not in use.
  abbrev pub IsFresh : List ClientEvent → ClientTable → Type 0
  IsFresh [] s = Unit
  IsFresh (adds info answer ∷ es) s =
      (get_client_by_id info.client_id s ≡ none) × IsFresh es (client_step (adds info answer) s).1
  IsFresh (removes info ∷ es) s = IsFresh es (client_step (removes info) s).1

  -- Each object that the handler returned is in the map once, or was given back to it once.
  pub record IsAccounted (s : ClientTable) : Type 0 where
    pub sorted : IsAscending s.client_by_id
    pub balanced :
        (client : ℕ)
        → count client s.added ≡ count client (get_clients entries s) + count client s.removed

  same : (x : ℕ) (m : Map ℕ) → count x (clients_of (entries m)) ≡ count x (clients_of m)
  same x m = count-Permᴰ x (permutes m)

  add_client-IsAccounted :
      (info : ClientInfo) (answer : Option ℕ) (s : ClientTable)
      → get_client_by_id info.client_id s ≡ none
      → IsAccounted s
      → IsAccounted (add_client answer self_id self_id (some info) s).1
  unfolding add_client count
  add_client-IsAccounted info answer s new a = elim (Option-cases answer) [
    | inl missing ↦ record {
      sorted = ground (arith, missing, a.sorted);
      balanced = λ x. ground (arith, missing, a.balanced x);
    }
    | inr (client, e) ↦ record {
      sorted = ground (arith, e, insert-IsAscending info.client_id client s.client_by_id a.sorted);
      balanced = λ x. ground (
        arith,
        e,
        a.balanced x,
        same x s.client_by_id,
        same x (insert info.client_id client s.client_by_id),
        insert-new x info.client_id client s.client_by_id new,
      );
    }
  ]

  remove_client-IsAccounted :
      (info : ClientInfo) (s : ClientTable)
      → IsAccounted s
      → IsAccounted (remove_client self_id self_id (some info) s).1
  unfolding remove_client count
  remove_client-IsAccounted info s a = elim (Option-cases (lookup info.client_id s.client_by_id)) [
    | inl missing ↦ record {
      sorted = ground (arith, missing, a.sorted);
      balanced = λ x. ground (arith, missing, a.balanced x);
    }
    | inr (client, e) ↦ record {
      sorted = ground (arith, e, erase-IsAscending info.client_id s.client_by_id a.sorted);
      balanced = λ x. ground (
        arith,
        e,
        a.balanced x,
        same x s.client_by_id,
        same x (erase info.client_id s.client_by_id),
        erase-held x info.client_id client s.client_by_id a.sorted e,
      );
    }
  ]

  -- If iteration over a map meets each entry once, in whatever order, then over any calls in which
  -- the HAL adds clients only under identifiers not in use, and the control handler answers each
  -- with any client or none, a device whose accounts are right keeps them right: each object was
  -- returned by the handler as often as it stands among the clients or was given back.
  pub client_run-IsAccounted :
      (es : List ClientEvent) (s : ClientTable)
      → IsFresh es s
      → IsAccounted s
      → IsAccounted (client_run es s)
  client_run-IsAccounted [] s f a = a
  client_run-IsAccounted (adds info answer ∷ es) s f a =
      client_run-IsAccounted es (client_step (adds info answer) s).1 f.1
        (add_client-IsAccounted info answer s f.0 a)
  client_run-IsAccounted (removes info ∷ es) s f a =
      client_run-IsAccounted es (client_step (removes info) s).1 f
        (remove_client-IsAccounted info s a)

  -- An addition succeeds exactly where the control handler returns a client, which is then found
  -- under its identifier; all other clients stay.
  pub get_client_by_id-add_client :
      (info : ClientInfo) (answer : Option ℕ) (s : ClientTable) (j : ℕ)
      → let r = client_step (adds info answer) s in
        (is_ok r.0 ≡ is_some answer)
        × (get_client_by_id j r.1 ≡ (
            if is_ok r.0
            then (if j == info.client_id then answer else get_client_by_id j s)
            else get_client_by_id j s))
  unfolding add_client
  get_client_by_id-add_client info answer s j = elim (Option-cases answer) [
    | inl missing ↦ (ground (arith, missing), ground (arith, missing))
    | inr (client, e) ↦
        (ground (arith, e), ground (arith, e, lookup-insert info.client_id client s.client_by_id j))
  ]

  -- A removal succeeds exactly where the client is there, which is then no longer found; all other
  -- clients stay.
  pub get_client_by_id-remove_client :
      (info : ClientInfo) (s : ClientTable) (j : ℕ)
      → let r = client_step (removes info) s in
        (is_ok r.0 ≡ is_some (get_client_by_id info.client_id s))
        × (get_client_by_id j r.1 ≡ (if j == info.client_id then none else get_client_by_id j s))
  unfolding remove_client
  get_client_by_id-remove_client info s j =
      elim (Option-cases (lookup info.client_id s.client_by_id)) [
        | inl missing ↦ (ground (arith, missing), ground (arith, missing))
        | inr (client, e) ↦
            (ground (arith, e), ground (arith, e, lookup-erase info.client_id s.client_by_id j))
      ]
