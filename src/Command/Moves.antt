-- ===== src/Command/Moves.antt =====
-- The handlers of src/server/agmp/agmp_cmds.c on a playlist with files: none of them reads through
-- NULL, and what a move announces is what the play thread plays next.
use odroid_player.Prelude.{
  ℕ, zero, suc, ◌≤◌, ◌<◌, ◌≡◌, ◌≢◌, refl, sym, ap, ◌∙◌, inl, inr, pos, String, List, [], ◌∷◌,
  Option, none, some, true, arith, length, get_elem?, leb, leb-false, Bool-cases, subst,
  int_of_size, ltb-zero, eq_ℤ,
}
use odroid_player.Sys.{Call}
use odroid_player.Message.{
  Status, success, Node, Cmd, nothing, play, stop, pause, next, prev, quit, seek, time, uri, ack,
  cmd_count,
}
use odroid_player.Playlist.{
  max_filenum, get_playlist_cur_idx, get_playlist_filenum, get_playlist_uri,
}
use odroid_player.Playlist.Valid.{Shows, get_playlist_uri_lem, get_playlist_current_uri_lem}
use odroid_player.Player.{Player, Timeval, play_cmd_next, command_player}
use odroid_player.Send.{Net}
use odroid_player.Playback.{again, reaped, current_file}
use odroid_player.Playback.Frame.{command_keeps}
use odroid_player.Playback.Stopping.{forward_after}
use odroid_player.Command.{
  Reply, Handler, first_item, init_cmd_array, cmd_none, cmd_play, cmd_stop, cmd_pause, cmd_next,
  cmd_prev, cmd_quit, cmd_seek, cmd_time, cmd_uri, cmd_ack,
}

-- The file with a number, where there is one.
file_at :
    (files : List String) (i : ℕ) → i < length files → (f : String) × (get_elem? files i ≡ some f)
file_at [] i h = absurd (omega arith)
file_at (f ∷ files) zero h = (f, refl)
file_at (f ∷ files) (suc i) h = file_at files i (omega arith)

-- The response that is kept, if there is one, has a text.
abbrev pub PrevText : Option Node → Type 0
PrevText none = Unit {0}
PrevText (some node) = (text : String) × (first_item node.items ≡ some text)

abbrev Answers : Handler → Status → Player → Timeval → Type 0
Answers handler status player now = (r : Reply) × (handler status player now ≡ some r)

small_size : (n : ℕ) → n ≤ max_filenum → int_of_size n ≡ pos n
small_size n h = ground arith

-- What a handler announces of a move to the file `i`.
announced :
    (files : List String) (cur i : ℕ) (player : Player)
    → Shows player.playlist files cur
    → i < length files
    → (f : String) × (get_elem? files i ≡ some f)
      × (get_playlist_uri player.playlist (pos i) ≡ some f)
announced files cur i player v h =
    let (f, e) = file_at files i h in
    (f, e, (get_playlist_uri_lem player.playlist files cur v).0 i ∙ e)

cmd_next-Answers :
    (files : List String) (cur : ℕ) (status : Status) (player : Player) (now : Timeval)
    → Shows player.playlist files cur
    → 0 < length files
    → Answers cmd_next status player now
unfolding cmd_next get_playlist_cur_idx get_playlist_filenum
cmd_next-Answers files cur status player now v some_file =
    let size = small_size (length files) v.fits in
    elim (Bool-cases (leb (length files) (suc cur))) [
      | inl end ↦ elim (Bool-cases player.loop) [
        | inl loop ↦
            let (f, e, d) = announced files cur 0 player v some_file in
            simp (v.current, v.counted, size, end, loop, d) (_, refl)
        | inr once ↦ simp (v.current, v.counted, size, end, once) (_, refl)
      ]
      | inr more ↦
          let (f, e, d) = announced files cur (suc cur) player v (ground arith) in
          simp (v.current, v.counted, size, more, d) (_, refl)
    ]

cmd_prev-Answers :
    (files : List String) (cur : ℕ) (status : Status) (player : Player) (now : Timeval)
    → Shows player.playlist files cur
    → 0 < length files
    → Answers cmd_prev status player now
unfolding cmd_prev get_playlist_cur_idx
cmd_prev-Answers files zero status player now v some_file = simp v.current (_, refl)
cmd_prev-Answers files (suc cur) status player now v some_file =
    let (f, e, d) = announced files (suc cur) cur player v (omega (arith, v.inside)) in
    simp (v.current, ltb-zero cur, d) (_, refl)

cmd_uri-Answers :
    (files : List String) (cur : ℕ) (status : Status) (player : Player) (now : Timeval)
    → Shows player.playlist files cur
    → 0 < length files
    → Answers cmd_uri status player now
unfolding cmd_uri
cmd_uri-Answers files cur status player now v some_file =
    let (f, e, d) = get_playlist_current_uri_lem player.playlist files cur v some_file in
    rw (d, cmd_uri) (_, refl)

cmd_ack-Answers :
    (status : Status) (player : Player) (now : Timeval) (prev_resp : Option Node)
    → player.prev_resp ≡ prev_resp
    → PrevText prev_resp
    → Answers cmd_ack status player now
unfolding cmd_ack
cmd_ack-Answers status player now none e h = rw (e, cmd_ack) (_, refl)
cmd_ack-Answers status player now (some node) e (text, h) = rw (e, cmd_ack) (rw h (_, refl))

cmd_play-Answers :
    (status : Status) (player : Player) (now : Timeval) → Answers cmd_play status player now
unfolding cmd_play
cmd_play-Answers status player now = elim (Bool-cases player.child_paused) [
  | inl paused ↦ simp paused (_, refl)
  | inr playing ↦ elim (Bool-cases (eq_ℤ player.child_pid (pos 0))) [
    | inl stopped ↦ simp (playing, stopped) (_, refl)
    | inr busy ↦ simp (playing, busy) (_, refl)
  ]
]

-- Every command of the protocol has a handler, and with files in the playlist and a text in the
-- response that is kept, if any, the handler returns: it never reads through NULL.
pub init_cmd_array-Answers :
    (cmd : Cmd) (files : List String) (cur : ℕ) (status : Status) (player : Player) (now : Timeval)
    → cmd ≢ cmd_count
    → Shows player.playlist files cur
    → 0 < length files
    → PrevText player.prev_resp
    → (handler : Handler) × (init_cmd_array cmd ≡ some handler)
      × ((r : Reply) × (handler status player now ≡ some r))
unfolding init_cmd_array cmd_none cmd_stop cmd_pause cmd_quit cmd_seek cmd_time
init_cmd_array-Answers nothing files cur status player now ne v some_file prev_text =
    (_, refl, (_, refl))
init_cmd_array-Answers play files cur status player now ne v some_file prev_text =
    (_, refl, cmd_play-Answers status player now)
init_cmd_array-Answers stop files cur status player now ne v some_file prev_text =
    (_, refl, (_, refl))
init_cmd_array-Answers pause files cur status player now ne v some_file prev_text =
    (_, refl, (_, refl))
init_cmd_array-Answers next files cur status player now ne v some_file prev_text =
    (_, refl, cmd_next-Answers files cur status player now v some_file)
init_cmd_array-Answers prev files cur status player now ne v some_file prev_text =
    (_, refl, cmd_prev-Answers files cur status player now v some_file)
init_cmd_array-Answers quit files cur status player now ne v some_file prev_text =
    (_, refl, (_, refl))
init_cmd_array-Answers seek files cur status player now ne v some_file prev_text =
    (_, refl, (_, refl))
init_cmd_array-Answers time files cur status player now ne v some_file prev_text =
    (_, refl, (_, refl))
init_cmd_array-Answers uri files cur status player now ne v some_file prev_text =
    (_, refl, cmd_uri-Answers files cur status player now v some_file)
init_cmd_array-Answers ack files cur status player now ne v some_file prev_text =
    (_, refl, cmd_ack-Answers status player now player.prev_resp refl prev_text)
init_cmd_array-Answers cmd_count files cur status player now ne v some_file prev_text =
    absurd (ne refl)

-- A NEXT to a running player that has a file left: the reply names that file, and when the child
-- has ended the play thread goes on with exactly this file.
pub cmd_next-reaped :
    (net : Net) (files : List String) (cur : ℕ) (status : Status) (player : Player) (now : Timeval)
    → Shows player.playlist files cur
    → suc cur < length files
    → player.running ≡ true
    → (f : String) × (p q : Player) × (calls sent : List Call) × (get_elem? files (suc cur)
        ≡ some f)
      × (cmd_next status player now
          ≡ some (record { text = some f; status = success; player = p; calls = calls }))
      × (reaped net p ≡ again q sent)
      × (current_file q ≡ some f)
unfolding cmd_next get_playlist_cur_idx get_playlist_filenum current_file
cmd_next-reaped net files cur status player now v more runs =
    let size = small_size (length files) v.fits in
    let (f, e, d) = announced files cur (suc cur) player v more in
    let (_, _, list, _, keeps, pending) = command_keeps player play_cmd_next now in
    let p = (command_player player play_cmd_next now).0 in
    let (q, sent, reap, there, _) =
      forward_after net p files cur (keeps ∙ runs) (inr pending)
        (subst (λ l. Shows l files cur) (sym list) v) more in
    (
      f,
      p,
      q,
      (command_player player play_cmd_next now).1,
      sent,
      e,
      simp (v.current, v.counted, size, leb-false (length files) (suc cur) more, d),
      reap,
      ap (get_playlist_uri q.playlist) there.current
          ∙ (get_playlist_uri_lem q.playlist files (suc cur) there).0 (suc cur)
          ∙ e,
    )
