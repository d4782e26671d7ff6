-- ===== src/Viewer.antt =====
-- src/client/utils.c: `my_print_stream`, by which the command line client prints the texts of a
-- stream. The answers of the socket calls, the texts and the keys are arguments; the paths only name
-- the two sockets and are left out.
pub mod Texts
use odroid_player.Prelude.{
  ℤ, pos, ltb_ℤ, String, List, [], ◌∷◌, Option, none, some, Bool, true, false, not, ◌&&◌, ◌||◌,
  if◌then◌else◌,
}
use odroid_player.Sys.{Call, close}
use odroid_player.Opc.{OpClient}
use odroid_player.Opc.Monitors.{get_monitor_play}

-- One turn of the loop: what the other threads do to the client before it; the text that `recvfrom`
-- gives, none where it fails; and whether the character that `read` gives is `t`, none where it
-- fails.
pub record ViewTurn : Type 0 where
  pub changes : OpClient → OpClient
  pub text : Option String
  pub is_t : Option Bool

-- The answers of `socket`, `bind` and `chmod`, and the turns of the loop.
pub record ViewWorld : Type 0 where
  pub stream_fd : ℤ
  pub bind_ok : Bool
  pub chmod_ok : Bool
  pub turns : List ViewTurn

-- The texts printed, the client as the other threads have left it, and at the return the value and
-- the calls; `viewing` is still in the loop.
pub data Viewed : Type 0 where
  viewing : List String → OpClient → Viewed
  viewed : Bool → List String → OpClient → List Call → Viewed

-- Where `read` fails, `c` stays what it was.
abbrev pub typed_t : Bool → Option Bool → Bool
typed_t before none = before
typed_t before (some is_t) = is_t

unfoldable pub print_text : String → Viewed → Viewed
print_text text (viewing texts client) = viewing (text ∷ texts) client
print_text text (viewed done texts client calls) = viewed done (text ∷ texts) client calls

-- `received` is what a text leads to.
unfoldable pub text_received : ℤ → OpClient → Viewed → Option String → Viewed
unfolding print_text
text_received fd client received none = viewed true [] client (close fd ∷ [])
text_received fd client received (some text) = print_text text received

-- `typed` is whether `c` is `t`. The client is the one that the other threads leave.
unfoldable pub view_loop : ℤ → List ViewTurn → Bool → OpClient → Viewed
unfolding text_received
view_loop fd [] typed client =
    if typed then viewed true [] client (close fd ∷ []) else viewing [] client
view_loop fd (t ∷ turns) typed client =
    let found = t.changes client in
    let rest = text_received fd found (view_loop fd turns (typed_t typed t.is_t) found) t.text in
    if get_monitor_play found.monitor && not typed
    then rest
    else viewed true [] found (close fd ∷ [])

unfoldable pub my_print_stream : ViewWorld → OpClient → Viewed
unfolding view_loop
my_print_stream world client =
    let looped = view_loop world.stream_fd world.turns false client in
    if ltb_ℤ world.stream_fd (pos 0)
    then viewed false [] client []
    else if not world.bind_ok || not world.chmod_ok
    then viewed false [] client (close world.stream_fd ∷ [])
    else looped
