-- ===== src/Opc/Connection/Tries.antt =====
-- What the connection of a client by src/client/opc/opclient.c comes to.
use odroid_player.Prelude.{
  ℕ, zero, suc, ◌+◌, ◌<◌, ◌≡◌, refl, sym, subst, ap, ◌∙◌, ◌⊎◌, inl, inr, ℤ, pos, negsuc, List, [],
  ◌∷◌, ◌++◌, Option, none, some, Bool, true, false, arith, Bool-cases, leb-true, leb-false,
  ltb-zero, eq_ℤ, if◌then◌else◌,
}
use odroid_player.Sys.{Call, close, connect, sleep}
use odroid_player.Opc.{OpClient, max_connect_wait}
use odroid_player.Opc.Connection.{
  ConnectAnswer, connected, refused, failed, connect_answered, connect_loop, opc_connected,
  opc_connect,
}

-- The seconds slept.
abbrev pub sleeps : List Call → ℕ
sleeps [] = 0
sleeps (sleep n ∷ calls) = n + sleeps calls
sleeps (_ ∷ calls) = sleeps calls

-- How the attempts from `count` on end, of which there are `left`: one is accepted or fails after
-- others that were refused, or all are refused; a second is slept after each refusal.
abbrev pub Tried : (ℕ → ConnectAnswer) → ℕ → ℕ → Bool → ℕ → Type 0
Tried answers left count done slept =
    ((k : ℕ) × (k < left)
      × ((j : ℕ) → j < k → answers (count + j) ≡ refused)
      × (slept ≡ k)
      × (((answers (count + k) ≡ connected) × (done ≡ true))
          ⊎ ((answers (count + k) ≡ failed) × (done ≡ false))))
    ⊎ (((j : ℕ) → j < left → answers (count + j) ≡ refused) × (slept ≡ left) × (done ≡ false))

prepend :
    (answers : ℕ → ConnectAnswer) (n count : ℕ)
    → answers count ≡ refused
    → ((j : ℕ) → j < n → answers (suc count + j) ≡ refused)
    → (j : ℕ) → j < suc n
    → answers (count + j) ≡ refused
prepend answers n count first others zero h = subst (λ i. answers i ≡ refused) (omega arith) first
prepend answers n count first others (suc j) h =
    subst (λ i. answers i ≡ refused) (omega arith) (others j (omega arith))

Tried-suc :
    (answers : ℕ → ConnectAnswer) (left count : ℕ) (done : Bool) (slept : ℕ)
    → answers count ≡ refused
    → Tried answers left (suc count) done slept
    → Tried answers (suc left) count done (1 + slept)
Tried-suc answers left count done slept first (inl (k, inside, before, e, ends)) = inl (
  suc k,
  omega arith,
  prepend answers k count first before,
  omega arith,
  subst (λ i. ((answers i ≡ connected) × (done ≡ true)) ⊎ ((answers i ≡ failed) × (done ≡ false)))
      (omega arith) ends,
)
Tried-suc answers left count done slept first (inr (all, e, f)) =
    inr (prepend answers left count first all, omega arith, f)

-- The result of the loop.
abbrev pub Connects : (ℕ → ConnectAnswer) → ℕ → ℕ → Option (Bool × List Call) → Type 0
Connects answers left count result =
    (done : Bool) × (calls : List Call) × (result ≡ some (done, calls))
    × Tried answers left count done (sleeps calls)

answer_cases : (a : ConnectAnswer) → (a ≡ connected) ⊎ ((a ≡ refused) ⊎ (a ≡ failed))
answer_cases connected = inl refl
answer_cases refused = inr (inl refl)
answer_cases failed = inr (inr refl)

connect_answered-Connects :
    (fuel : ℕ) (answers : ℕ → ConnectAnswer) (fd : ℤ) (count : ℕ)
    (again : Option (Bool × List Call)) (answer : ConnectAnswer)
    → answers count ≡ answer
    → suc fuel + count ≡ max_connect_wait
    → (0 < fuel → Connects answers fuel (suc count) again)
    → Connects answers (suc fuel) count (connect_answered fd count again answer)
unfolding connect_answered
connect_answered-Connects fuel answers fd count again connected e h next = (
  true,
  connect fd ∷ [],
  refl,
  inl (
    0,
    omega arith,
    (λ j k. absurd (omega arith)),
    refl,
    inl (subst (λ i. answers i ≡ connected) (omega arith) e, refl),
  ),
)
connect_answered-Connects fuel answers fd count again failed e h next = (
  false,
  connect fd ∷ [],
  refl,
  inl (
    0,
    omega arith,
    (λ j k. absurd (omega arith)),
    refl,
    inr (subst (λ i. answers i ≡ failed) (omega arith) e, refl),
  ),
)
connect_answered-Connects zero answers fd count again refused e h next = (
  false,
  connect fd ∷ sleep 1 ∷ [],
  simp (leb-true max_connect_wait (suc count) (omega arith)),
  inr (prepend answers 0 count e (λ j k. absurd (omega arith)), refl, refl),
)
connect_answered-Connects (suc fuel) answers fd count again refused e h next =
    let (done, calls, f, tried) = next (omega arith) in
    (
      done,
      connect fd ∷ sleep 1 ∷ calls,
      simp (leb-false max_connect_wait (suc count) (omega arith), f),
      Tried-suc answers (suc fuel) count done (sleeps calls) e tried,
    )

connect_loop-Connects :
    (fuel : ℕ) (answers : ℕ → ConnectAnswer) (fd : ℤ) (count : ℕ)
    → fuel + count ≡ max_connect_wait
    → 0 < fuel
    → Connects answers fuel count (connect_loop fuel answers fd count)
unfolding connect_loop
connect_loop-Connects zero answers fd count e h = absurd (omega arith)
connect_loop-Connects (suc fuel) answers fd count e h =
    connect_answered-Connects fuel answers fd count _ (answers count) refl e
      (λ k. connect_loop-Connects fuel answers fd (suc count) (omega arith) k)

abbrev old_closed : OpClient → List Call
old_closed client = if eq_ℤ client.client_fd (pos 0) then [] else close client.client_fd ∷ []

opc_connect_usable :
    (fd : ℤ) (answers : ℕ → ConnectAnswer) (client : OpClient) (n : ℕ)
    → client.client_fd ≡ pos n
    → opc_connect fd answers client
      ≡ opc_connected fd client (old_closed client) (connect_loop max_connect_wait answers fd 0)
unfolding opc_connect
opc_connect_usable fd answers client n e = simp (e, ltb-zero n)

sleeps-old_closed :
    (client : OpClient) (calls : List Call) → sleeps (old_closed client ++ calls) ≡ sleeps calls
sleeps-old_closed client calls = elim (Bool-cases (eq_ℤ client.client_fd (pos 0))) [
  | inl e ↦ simp e
  | inr e ↦ simp e
]

-- With a usable descriptor of before, `opc_connect` returns after at most `max_connect_wait` calls of
-- `connect`: true when one is accepted after others that were refused, false when one fails
-- otherwise or when all are refused. It sleeps a second for each refusal, and the client has the new
-- descriptor whatever came of it.
pub opc_connect-Tried :
    (fd : ℤ) (answers : ℕ → ConnectAnswer) (client : OpClient) (n : ℕ)
    → client.client_fd ≡ pos n
    → (done : Bool) × (calls : List Call) × (opc_connect fd answers client
        ≡ some (done, record client { client_fd = fd }, calls))
      × Tried answers max_connect_wait 0 done (sleeps calls)
unfolding opc_connected
opc_connect-Tried fd answers client n e =
    let (done, calls, f, tried) =
      connect_loop-Connects max_connect_wait answers fd 0 (omega arith) (omega arith) in
    (
      done,
      old_closed client ++ calls,
      opc_connect_usable fd answers client n e ∙ ap (opc_connected fd client (old_closed client)) f,
      subst (Tried answers max_connect_wait 0 done) (sym (sleeps-old_closed client calls)) tried,
    )

left_fd : Option (Bool × OpClient × List Call) → ℤ
left_fd none = pos 0
left_fd (some (done, c, calls)) = c.client_fd

-- After a call in which `socket` failed, and so gave a negative descriptor, every call of
-- `opc_connect` closes that descriptor, returns false and leaves the client as it was, whatever
-- `socket` and `connect` answer then.
pub opc_connect_stuck :
    (n m : ℕ) (answers later : ℕ → ConnectAnswer) (client c : OpClient) (done : Bool)
    (calls : List Call) (fd : ℤ)
    → client.client_fd ≡ pos n
    → opc_connect (negsuc m) answers client ≡ some (done, c, calls)
    → opc_connect fd later c ≡ some (false, c, close (negsuc m) ∷ [])
unfolding opc_connect left_fd
opc_connect_stuck n m answers later client c done calls fd e h =
    let (_, _, f, _) = opc_connect-Tried (negsuc m) answers client n e in
    let same : c.client_fd ≡ negsuc m = ap left_fd (sym h ∙ f) in simp same
