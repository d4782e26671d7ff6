-- ===== src/Viewer/Texts.antt =====
-- What `my_print_stream` of src/client/utils.c prints, closes and keeps.
use odroid_player.Prelude.{
  ◌≡◌, refl, ap, inl, inr, ℤ, pos, ltb_ℤ, String, List, [], ◌∷◌, ◌++◌, Option, none, some, Bool,
  true, false, not, ◌||◌, if◌then◌else◌, All, Bool-cases,
}
use odroid_player.Sys.{Call, close}
use odroid_player.Opc.{OpClient}
use odroid_player.Opc.Monitors.{get_monitor_play}
use odroid_player.Opc.Reception.Sound.{IsSound}
use odroid_player.Viewer.{
  ViewTurn, ViewWorld, Viewed, viewing, viewed, typed_t, print_text, text_received, view_loop,
  my_print_stream,
}

-- The other threads keep the client sound in a turn.
abbrev pub CarefulView : ViewTurn → Type 0
CarefulView t = (c : OpClient) → IsSound c → IsSound (t.changes c)

-- The texts that come before the first failure of `recvfrom`.
abbrev pub received_texts : List ViewTurn → List String
received_texts [] = []
received_texts (t ∷ turns) = elim t.text [ none ↦ [] | some text ↦ text ∷ received_texts turns ]

-- What is printed are the first of `all`, and the client is sound; at the return just `closed` was
-- called.
abbrev pub Prints : List String → List Call → Viewed → Type 0
Prints all closed (viewing texts client) =
    IsSound client × ((more : List String) × (all ≡ texts ++ more))
Prints all closed (viewed done texts client calls) =
    IsSound client × ((more : List String) × (all ≡ texts ++ more)) × (calls ≡ closed)

print_text-Prints :
    (text : String) (all : List String) (closed : List Call) (v : Viewed)
    → Prints all closed v
    → Prints (text ∷ all) closed (print_text text v)
unfolding print_text
print_text-Prints text all closed (viewing texts client) (v, (more, e)) =
    (v, (more, ap (λ l. text ∷ l) e))
print_text-Prints text all closed (viewed done texts client calls) (v, (more, e), f) =
    (v, (more, ap (λ l. text ∷ l) e), f)

received-Prints :
    (fd : ℤ) (client : OpClient) (received : Viewed) (text : Option String) (later : List String)
    → IsSound client
    → Prints later (close fd ∷ []) received
    → Prints
        (elim text [ none ↦ [] | some t ↦ t ∷ later ])
        (close fd ∷ [])
        (text_received fd client received text)
unfolding text_received
received-Prints fd client received none later v h = (v, ([], refl), refl)
received-Prints fd client received (some text) later v h =
    print_text-Prints text later (close fd ∷ []) received h

view_loop-Prints :
    (fd : ℤ) (turns : List ViewTurn) (typed : Bool) (client : OpClient)
    → All CarefulView turns
    → IsSound client
    → Prints (received_texts turns) (close fd ∷ []) (view_loop fd turns typed client)
unfolding view_loop
view_loop-Prints fd [] true client h v = (v, ([], refl), refl)
view_loop-Prints fd [] false client h v = (v, ([], refl))
view_loop-Prints fd (t ∷ turns) true client h v =
    elim (Bool-cases (get_monitor_play (t.changes client).monitor)) [
      | inr off ↦ simp off (h.0 client v, (_, refl), refl)
      | inl on ↦ simp on (h.0 client v, (_, refl), refl)
    ]
view_loop-Prints fd (t ∷ turns) false client h v =
    let fine = h.0 client v in
    let found = t.changes client in
    elim (Bool-cases (get_monitor_play found.monitor)) [
      | inr off ↦ simp off (fine, (_, refl), refl)
      | inl on ↦ simp on (
          received-Prints fd found _ t.text (received_texts turns) fine
            (view_loop-Prints fd turns (typed_t false t.is_t) found h.1 fine))
    ]

-- The descriptor is closed where there is one.
abbrev pub closing_of : ViewWorld → List Call
closing_of world = if ltb_ℤ world.stream_fd (pos 0) then [] else close world.stream_fd ∷ []

pub my_print_stream-Prints :
    (world : ViewWorld) (client : OpClient)
    → All CarefulView world.turns
    → IsSound client
    → Prints (received_texts world.turns) (closing_of world) (my_print_stream world client)
unfolding my_print_stream
my_print_stream-Prints world client h v =
    let looped = view_loop-Prints world.stream_fd world.turns false client h v in
    elim (Bool-cases (ltb_ℤ world.stream_fd (pos 0))) [
      | inl bad ↦ simp bad (v, (_, refl), refl)
      | inr good ↦ elim (Bool-cases (not world.bind_ok || not world.chmod_ok)) [
        | inl failed ↦ simp (good, failed) (v, (_, refl), refl)
        | inr fine ↦ simp (good, fine) looped
      ]
    ]
