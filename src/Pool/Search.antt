-- ===== src/Pool/Search.antt =====
-- The index searches of src/server/client/client.c against a search of the list of slots.
use odroid_player.Prelude.{
  ℕ, suc, ◌<◌, ◌≡◌, refl, ap, inl, inr, ℤ, pos, minus_one, List, [], ◌∷◌, Option, none, some, Bool,
  arith, if◌then◌else◌, Bool-cases, Option-cases, get_or, set, length, leb-suc-zero, ltb-zero,
}
use odroid_player.Pool.{
  Client, ClientPool, FindType, max_clients, empty_client, first_index, by_fd, find_client_index,
  read_slot,
}

-- The first slot that passes the test.
unfoldable pub find_slot : (Client → Bool) → List Client → Option Client
find_slot test [] = none
find_slot test (c ∷ cs) = if test c then some c else find_slot test cs

-- The list with that slot overwritten.
unfoldable pub replace : (Client → Bool) → Client → List Client → List Client
replace test v [] = []
replace test v (c ∷ cs) = if test c then v ∷ cs else c ∷ replace test v cs

abbrev pub IsSized : ClientPool → Type 0
IsSized pool = length pool.client_arr ≡ max_clients

pub first_index-suc :
    (test : Client → Bool) (cs : List Client) (i : ℕ)
    → first_index test cs (suc i) ≡ suc (first_index test cs i)
unfolding first_index
first_index-suc test [] i = refl
first_index-suc test (c ∷ cs) i = ground (arith, first_index-suc test cs (suc i))

first_index-one :
    (test : Client → Bool) (cs : List Client) → first_index test cs 1 ≡ suc (first_index test cs 0)
first_index-one test cs = first_index-suc test cs 0

pub set-first_index :
    (test : Client → Bool) (v : Client) (cs : List Client)
    → set cs (first_index test cs 0) v ≡ replace test v cs
unfolding first_index replace
set-first_index test v [] = refl
set-first_index test v (c ∷ cs) = elim (Bool-cases (test c)) [
  | inl hit ↦ rw hit
  | inr miss ↦ rw (miss, first_index-one test cs) (ap (◌∷◌ c) (set-first_index test v cs))
]

pub first_index_missing :
    (test : Client → Bool) (cs : List Client)
    → find_slot test cs ≡ none
    → first_index test cs 0 ≡ length cs
unfolding first_index find_slot
first_index_missing test [] h = refl
first_index_missing test (c ∷ cs) h =
    ground (arith, first_index-suc test cs 0, first_index_missing test cs)

pub first_index_found :
    (test : Client → Bool) (cs : List Client) (c d : Client)
    → find_slot test cs ≡ some c
    → (first_index test cs 0 < length cs) × (get_or cs (first_index test cs 0) d ≡ c)
unfolding first_index find_slot
first_index_found test [] c d h = cc
first_index_found test (x ∷ cs) c d h = elim (Bool-cases (test x)) [
  | inl hit ↦ rw hit (omega arith, ground arith)
  | inr miss ↦
      let (inside, e) = first_index_found test cs c d (ground arith) in
      rw (miss, first_index-one test cs) (omega arith, e)
]

abbrev pub index_if : ℕ → Option Client → ℤ
index_if idx none = minus_one
index_if idx (some c) = pos idx

-- The index that `find_client_index` returns, by what the slots hold.
abbrev pub index_of : (Client → Bool) → List Client → ℤ
index_of test cs = index_if (first_index test cs 0) (find_slot test cs)

pub find_client_index_lem :
    (find : FindType) (n : ℕ) (pool : ClientPool)
    → IsSized pool
    → find_client_index (pos (suc n)) pool find
      ≡ index_of (by_fd find (pos (suc n))) pool.client_arr
unfolding find_client_index
find_client_index_lem find n pool h =
    elim (Option-cases (find_slot (by_fd find (pos (suc n))) pool.client_arr)) [
      | inl e ↦
          rw (e, index_if)
            (ground (arith, first_index_missing (by_fd find (pos (suc n))) pool.client_arr e))
      | inr (c, e) ↦
          rw (e, index_if)
            (ground (
              arith,
              first_index_found (by_fd find (pos (suc n))) pool.client_arr c empty_client e,
            ))
    ]

abbrev pub or_missing {ℓ} : {A : Type ℓ} → A → (Client → A) → Option Client → A
or_missing missing field none = missing
or_missing missing field (some c) = field c

-- A lookup by descriptor reads the first slot that has it, or answers `missing`.
pub read_slot_lem {ℓ} :
    {A : Type ℓ} (find : FindType) (missing : A) (field : Client → A) (n : ℕ) (pool : ClientPool)
    → IsSized pool
    → read_slot find missing field (pos (suc n)) pool
      ≡ or_missing missing field (find_slot (by_fd find (pos (suc n))) pool.client_arr)
read_slot_lem find missing field n pool h =
    let test = by_fd find (pos (suc n)) in
    elim (Option-cases (find_slot test pool.client_arr)) [
      | inl e ↦
          rw (leb-suc-zero n, find_client_index_lem find n pool h) (rw (e, index_if, or_missing))
      | inr (c, e) ↦
          rw (leb-suc-zero n, find_client_index_lem find n pool h)
            (rw (e, index_if, or_missing)
              (rw (ltb-zero)
                (ap field (first_index_found test pool.client_arr c empty_client e).1)))
    ]
