-- ===== src/Pool/Slots.antt =====
-- Lists of client slots with one of them overwritten: counts, descriptors and lookups.
use odroid_player.Prelude.{
  ℕ, suc, ◌≤◌, ◌<◌, ◌≡◌, refl, ap, ◌⊎◌, inl, inr, ℤ, pos, eq_ℤ, eq_ℤ_iff, eq_ℤ_comm, subst, List,
  [], ◌∷◌, none, some, Bool, true, false, ◌||◌, arith, if◌then◌else◌, Bool-cases, map, length,
}
use odroid_player.Pool.{Client, FindType, find_client_fd, by_fd, fd_of}
use odroid_player.Pool.Search.{find_slot, replace}

abbrev pub is_free : Client → Bool
is_free = by_fd find_client_fd (pos 0)

-- How many slots are taken.
abbrev pub occupied : List Client → ℕ
occupied [] = 0
occupied (c ∷ cs) = if is_free c then occupied cs else suc (occupied cs)

abbrev pub member : ℤ → List ℤ → Bool
member x [] = false
member x (y ∷ ys) = eq_ℤ y x || member x ys

-- No descriptor but 0 stands twice.
abbrev pub Distinct : List ℤ → Type 0
Distinct [] = Unit {0}
Distinct (x ∷ xs) = ((x ≡ pos 0) ⊎ (member x xs ≡ false)) × Distinct xs

abbrev pub All : (Client → Type 0) → List Client → Type 0
All P [] = Unit {0}
All P (c ∷ cs) = P c × All P cs

pub length-replace :
    (test : Client → Bool) (v : Client) (cs : List Client) → length (replace test v cs) ≡ length cs
unfolding replace
length-replace test v [] = refl
length-replace test v (c ∷ cs) = ground (arith, length-replace test v cs)

pub All-replace :
    (P : Client → Type 0) (test : Client → Bool) (v : Client) (cs : List Client)
    → P v
    → All P cs
    → All P (replace test v cs)
unfolding replace
All-replace P test v [] p ps = tt
All-replace P test v (c ∷ cs) p ps = elim (Bool-cases (test c)) [
  | inl hit ↦ rw hit (p, ps.1)
  | inr miss ↦ rw miss (ps.0, All-replace P test v cs p ps.1)
]

pub All-find :
    (P : Client → Type 0) (test : Client → Bool) (cs : List Client) (c : Client)
    → All P cs
    → find_slot test cs ≡ some c
    → P c
unfolding find_slot
All-find P test [] c ps e = cc
All-find P test (x ∷ cs) c ps e = elim (Bool-cases (test x)) [
  | inl hit ↦ subst P (ground arith) ps.0
  | inr miss ↦ All-find P test cs c ps.1 (ground arith)
]

pub find_slot-passes :
    (test : Client → Bool) (cs : List Client) (c : Client)
    → find_slot test cs ≡ some c
    → test c ≡ true
unfolding find_slot
find_slot-passes test [] c e = cc
find_slot-passes test (x ∷ cs) c e = ground (arith, find_slot-passes test cs c)

pub occupied-fill :
    (v c : Client) (cs : List Client)
    → is_free v ≡ false
    → find_slot is_free cs ≡ some c
    → occupied (replace is_free v cs) ≡ suc (occupied cs)
unfolding replace find_slot
occupied-fill v c [] free e = cc
occupied-fill v c (x ∷ cs) free e = ground (arith, occupied-fill v c cs)

pub occupied-empty :
    (fd : ℤ) (v c : Client) (cs : List Client)
    → eq_ℤ fd (pos 0) ≡ false
    → is_free v ≡ true
    → find_slot (by_fd find_client_fd fd) cs ≡ some c
    → suc (occupied (replace (by_fd find_client_fd fd) v cs)) ≡ occupied cs
unfolding replace find_slot
occupied-empty fd v c [] used free e = cc
occupied-empty fd v c (x ∷ cs) used free e = ground (arith, occupied-empty fd v c cs)

-- There is a free slot exactly as long as fewer slots are taken than there are.
pub occupied_room :
    (cs : List Client) → occupied cs < length cs → (c : Client) × (find_slot is_free cs ≡ some c)
unfolding find_slot
occupied_room [] h = absurd (omega arith)
occupied_room (c ∷ cs) h = elim (Bool-cases (is_free c)) [
  | inl free ↦ (c, rw free)
  | inr used ↦ let (d, e) = occupied_room cs (ground arith) in (d, rw used e)
]

pub occupied-le-length : (cs : List Client) → occupied cs ≤ length cs
occupied-le-length [] = omega arith
occupied-le-length (c ∷ cs) = ground (arith, occupied-le-length cs)

pub occupied_full : (cs : List Client) → length cs ≤ occupied cs → find_slot is_free cs ≡ none
unfolding find_slot
occupied_full [] h = refl
occupied_full (c ∷ cs) h = ground (arith, occupied-le-length cs, occupied_full cs)

-- A lookup that neither the old nor the new content of the slot answers is not affected.
pub find_slot-replace_other :
    (test other : Client → Bool) (v : Client) (cs : List Client)
    → other v ≡ false
    → ((c : Client) → test c ≡ true → other c ≡ false)
    → find_slot other (replace test v cs) ≡ find_slot other cs
unfolding replace find_slot
find_slot-replace_other test other v [] n h = refl
find_slot-replace_other test other v (c ∷ cs) n h = elim (Bool-cases (test c)) [
  | inl hit ↦ rw (hit, n, h c hit)
  | inr miss ↦
      rw (miss)
        (ap (λ r. if other c then some c else r) (find_slot-replace_other test other v cs n h))
]

-- A lookup that only the new content answers finds it.
pub find_slot-replace_new :
    (test other : Client → Bool) (v c : Client) (cs : List Client)
    → other v ≡ true
    → find_slot other cs ≡ none
    → find_slot test cs ≡ some c
    → find_slot other (replace test v cs) ≡ some v
unfolding replace find_slot
find_slot-replace_new test other v c [] n h e = cc
find_slot-replace_new test other v c (x ∷ cs) n h e =
    ground (arith, find_slot-replace_new test other v c cs)

pub member_of_find :
    (find : FindType) (fd : ℤ) (cs : List Client)
    → find_slot (by_fd find fd) cs ≡ none
    → member fd (map (fd_of find) cs) ≡ false
unfolding find_slot
member_of_find find fd [] e = refl
member_of_find find fd (c ∷ cs) e = ground (arith, member_of_find find fd cs)

pub find_of_member :
    (find : FindType) (fd : ℤ) (cs : List Client)
    → member fd (map (fd_of find) cs) ≡ false
    → find_slot (by_fd find fd) cs ≡ none
unfolding find_slot
find_of_member find fd [] e = refl
find_of_member find fd (c ∷ cs) e = ground (arith, find_of_member find fd cs)

member-replace :
    (f : Client → ℤ) (test : Client → Bool) (v : Client) (x : ℤ) (cs : List Client)
    → member x (map f cs) ≡ false
    → eq_ℤ (f v) x ≡ false
    → member x (map f (replace test v cs)) ≡ false
unfolding replace
member-replace f test v x [] h n = refl
member-replace f test v x (c ∷ cs) h n = ground (arith, member-replace f test v x cs)

pub Distinct-replace :
    (f : Client → ℤ) (test : Client → Bool) (v : Client) (cs : List Client)
    → ((f v ≡ pos 0) ⊎ (member (f v) (map f cs) ≡ false))
    → Distinct (map f cs)
    → Distinct (map f (replace test v cs))
unfolding replace
Distinct-replace f test v [] n d = tt
Distinct-replace f test v (c ∷ cs) n d = ground (
  arith,
  member-replace f test v (f c) cs,
  Distinct-replace f test v cs,
  eq_ℤ_comm (f v) (f c),
  eq_ℤ_iff (f c) (f v),
)

-- A slot overwritten by a client with the same descriptor.
pub map-replace_same :
    (f : Client → ℤ) (test : Client → Bool) (v c : Client) (cs : List Client)
    → find_slot test cs ≡ some c
    → f v ≡ f c
    → map f (replace test v cs) ≡ map f cs
unfolding find_slot replace
map-replace_same f test v c [] e s = refl
map-replace_same f test v c (x ∷ cs) e s = ground (arith, map-replace_same f test v c cs)

pub occupied-replace_same :
    (test : Client → Bool) (v c : Client) (cs : List Client)
    → find_slot test cs ≡ some c
    → v.client_fd ≡ c.client_fd
    → occupied (replace test v cs) ≡ occupied cs
unfolding find_slot replace
occupied-replace_same test v c [] e s = refl
occupied-replace_same test v c (x ∷ cs) e s = ground (arith, occupied-replace_same test v c cs)

pub find_slot-replace_self :
    (test : Client → Bool) (v c : Client) (cs : List Client)
    → find_slot test cs ≡ some c
    → test v ≡ true
    → find_slot test (replace test v cs) ≡ some v
unfolding find_slot replace
find_slot-replace_self test v c [] e t = cc
find_slot-replace_self test v c (x ∷ cs) e t = ground (arith, find_slot-replace_self test v c cs)
