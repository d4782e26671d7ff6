-- ===== src/Response/Outcome.antt =====
-- What a round of the response thread of src/server/response/response.c comes to: it returns, its
-- attempts to answer end in one of three ways, and ACK repeats the command that was answered last.
use odroid_player.Prelude.{
  ℕ, zero, suc, ◌+◌, ◌<◌, ◌≡◌, ◌≢◌, refl, subst, ◌⊎◌, inl, inr, String, List, [], ◌∷◌, Option, none,
  some, true, false, arith, length, Bool-cases,
}
use odroid_player.Sys.{Call}
use odroid_player.Message.{
  Status, success, Node, CmdType, command, stream, notify, brdcast, cmd_count, create_node,
  copy_data,
}
use odroid_player.Playlist.Valid.{Shows}
use odroid_player.Send.{SentAnswer, send_response}
use odroid_player.Player.{Player, Timeval}
use odroid_player.Command.{Reply, Handler, first_item, init_cmd_array, cmd_ack}
use odroid_player.Command.Moves.{PrevText, init_cmd_array-Answers}
use odroid_player.Server.{disconnect_client}
use odroid_player.Response.{
  World, Executed, resend, save_prev_resp, respond, execute_command, execute_typed, run_handler,
  of_reply, after_command, first_entry,
}

-- How one attempt to answer ends.
abbrev pub attempt_at : World → Node → Status → List (Option String) → ℕ → SentAnswer
attempt_at world node status items k = send_response world.net (world.attempts k) node status items

abbrev pub TimesOut : SentAnswer → Type 0
TimesOut sent = (sent.done ≡ false) × (sent.timed_out ≡ true)

abbrev pub Fails : SentAnswer → Type 0
Fails sent = (sent.done ≡ false) × (sent.timed_out ≡ false)

-- An attempt answers, and the node is kept, or fails, and the client is disconnected.
abbrev pub Settles : World → Node → Player → SentAnswer → Player → Type 0
Settles world node player sent p =
    ((sent.done ≡ true) × (p ≡ save_prev_resp world.saved_ok world.saved_items_ok node player))
    ⊎ (Fails sent × (p ≡ (disconnect_client node.client_fd player).0))

-- The attempts from `count` on, of which there are `left` at most.
abbrev pub Outcome : World → Node → Status → List (Option String) → ℕ → ℕ → Player → Player → Type 0
Outcome world node status items left count player p =
    ((k : ℕ) × (k < left)
      × ((j : ℕ) → j < k → TimesOut (attempt_at world node status items (count + j)))
      × Settles world node player (attempt_at world node status items (count + k)) p)
    ⊎ (((j : ℕ) → j < left → TimesOut (attempt_at world node status items (count + j)))
        × (p ≡ player))

-- One timeout before the others.
prepend :
    (world : World) (node : Node) (status : Status) (items : List (Option String)) (n count : ℕ)
    → TimesOut (attempt_at world node status items count)
    → ((j : ℕ) → j < n → TimesOut (attempt_at world node status items (suc count + j)))
    → (j : ℕ) → j < suc n
    → TimesOut (attempt_at world node status items (count + j))
prepend world node status items n count first others zero h =
    subst (λ i. TimesOut (attempt_at world node status items i)) (omega arith) first
prepend world node status items n count first others (suc j) h =
    subst (λ i. TimesOut (attempt_at world node status items i)) (omega arith)
      (others j (omega arith))

shifted :
    (world : World) (node : Node) (status : Status) (items : List (Option String)) (left count : ℕ)
    (player p : Player)
    → TimesOut (attempt_at world node status items count)
    → Outcome world node status items left (suc count) player p
    → Outcome world node status items (suc left) count player p
shifted world node status items left count player p first (inl (k, inside, before, ends)) = inl (
  suc k,
  omega arith,
  prepend world node status items k count first before,
  subst (λ i. Settles world node player (attempt_at world node status items i) p) (omega arith)
      ends,
)
shifted world node status items left count player p first (inr (all, e)) =
    inr (prepend world node status items left count first all, e)

settled :
    (world : World) (node : Node) (status : Status) (items : List (Option String)) (left count : ℕ)
    (player p : Player)
    → Settles world node player (attempt_at world node status items count) p
    → Outcome world node status items (suc left) count player p
settled world node status items left count player p ends = inl (
  0,
  omega arith,
  (λ j h. absurd (omega arith)),
  subst (λ i. Settles world node player (attempt_at world node status items i) p) (omega arith)
      ends,
)

-- The loop over the attempts to answer ends in one of three ways. After some timeouts, fewer than
-- the attempts it has, an answer is sent, and the node is kept as the last response; or an attempt
-- fails otherwise, and the client is disconnected. If every attempt times out, the player is left as
-- it was: the client stays, and the node is not kept.
pub resend-Outcome :
    (world : World) (node : Node) (status : Status) (items : List (Option String)) (left count : ℕ)
    (player : Player)
    → Outcome world node status items left count player
        (resend world node status items left count player).0
unfolding resend
resend-Outcome world node status items zero count player = inr (λ j h. absurd (omega arith), refl)
resend-Outcome world node status items (suc left) count player =
    let sent = attempt_at world node status items count in
    elim (Bool-cases sent.done) [
      | inl done ↦ rw done (settled world node status items left count player _ (inl (done, refl)))
      | inr undone ↦ elim (Bool-cases sent.timed_out) [
        | inl late ↦
            rw (undone, late)
              (shifted world node status items left count player _ (undone, late)
                (resend-Outcome world node status items left (suc count) player))
        | inr failed ↦
            rw (undone, failed)
              (settled world node status items left count player _ (inr ((undone, failed), refl)))
      ]
    ]

saved_text :
    (node : Node) (n : ℕ) (text : String) (rest : List (Option String))
    → node.n_data ≡ suc n
    → node.items ≡ some (some text ∷ rest)
    → (m : Node) × (create_node true true node.client_id node.client_fd node.msg_idx node.status
          node.type node.cmd node.n_data node.items
        ≡ some m)
      × (first_item m.items ≡ some text)
unfolding create_node copy_data
saved_text node n text rest e f = simp (e, f) (_, refl, refl)

-- After an answer has been kept, with memory for it, ACK gives the first text of the command that
-- was answered.
pub cmd_ack-save_prev_resp :
    (status : Status) (node : Node) (player : Player) (now : Timeval) (n : ℕ) (text : String)
    (rest : List (Option String))
    → node.n_data ≡ suc n
    → node.items ≡ some (some text ∷ rest)
    → let p = save_prev_resp true true node player in
      cmd_ack status p now
      ≡ some (record { text = some text; status = status; player = p; calls = [] })
unfolding cmd_ack save_prev_resp
cmd_ack-save_prev_resp status node player now n text rest e f =
    let (m, made, has) = saved_text node n text rest e f in simp (made, cmd_ack, has)

pub run_handler_returns :
    (world : World) (handler : Handler) (player : Player) (made : Option Handler)
    → made ≡ some handler
    → (r : Reply) × (handler success player world.now ≡ some r)
    → (e : Executed) × (run_handler world made player ≡ some e)
unfolding run_handler
run_handler_returns world handler player made same (r, e) =
    (of_reply r, rw (same, run_handler) (rw e refl))

execute_command_returns :
    (world : World) (node : Node) (player : Player) (files : List String) (cur : ℕ) (type : CmdType)
    → node.cmd ≢ cmd_count
    → Shows player.playlist files cur
    → 0 < length files
    → PrevText player.prev_resp
    → (e : Executed) × (execute_typed world type node player ≡ some e)
unfolding execute_typed
execute_command_returns world node player files cur command ne v some_file prev_text =
    let (handler, found, r) =
      init_cmd_array-Answers node.cmd files cur success player world.now ne v some_file prev_text in
    let (e, runs) = run_handler_returns world handler player (init_cmd_array node.cmd) found r in
    elim (Bool-cases world.items_ok) [
      | inl ok ↦ (e, simp ok runs)
      | inr no_memory ↦
          (record { items = none; status = success; player = player; calls = [] }, simp no_memory)
    ]
execute_command_returns world node player files cur stream ne v some_file prev_text = (_, refl)
execute_command_returns world node player files cur notify ne v some_file prev_text = (_, refl)
execute_command_returns world node player files cur brdcast ne v some_file prev_text = (_, refl)

first_entry_of :
    (items : Option (List (Option String))) (text : String)
    → first_item items ≡ some text
    → (first : Option String) × (first_entry items ≡ some first)
first_entry_of none text e = cc
first_entry_of (some []) text e = cc
first_entry_of (some (x ∷ xs)) text e = (x, refl)

-- A round for a node with a text, as the server thread makes them, and with a command of the
-- protocol returns, whatever the system answers: with files in the playlist, and a text in the
-- response that is kept, if any, nothing is read through NULL.
pub respond_returns :
    (world : World) (node : Node) (player : Player) (files : List String) (cur : ℕ) (text : String)
    → first_item node.items ≡ some text
    → node.cmd ≢ cmd_count
    → Shows player.playlist files cur
    → 0 < length files
    → PrevText player.prev_resp
    → (p : Player) × (calls : List Call) × (respond world node player ≡ some (p, calls))
unfolding respond execute_command
respond_returns world node player files cur text has ne v some_file prev_text =
    let (first, e) = first_entry_of node.items text has in
    let (done, f) =
      execute_command_returns world node player files cur node.type ne v some_file prev_text in
    (
      (after_command world node first done).0,
      (after_command world node first done).1,
      rw (e, respond) (rw (f, execute_command) refl),
    )
