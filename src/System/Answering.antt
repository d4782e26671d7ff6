-- ===== src/System/Answering.antt =====
-- What the response thread of src/server/response/response.c keeps of a player: the handlers of
-- src/server/agmp/agmp_cmds.c change it by commands alone, and the rest are the streams, the last
-- response and clients that are given up.
use odroid_player.Prelude.{
  subst, inl, inr, pos, eq_ℤ, ltb_ℤ, leb_ℤ, succ_ℤ, pred_ℤ, int_of_size, String, List, [], Option,
  none, some, Bool-cases, Option-cases,
}
use odroid_player.Sys.{Call}
use odroid_player.Message.{
  Status, success, Cmd, nothing, play, stop, pause, next, prev, quit, seek, time, uri, ack,
  cmd_count,
}
use odroid_player.Playlist.{
  get_playlist_cur_idx, get_playlist_filenum, get_playlist_uri, get_playlist_current_uri,
}
use odroid_player.Player.{
  Player, PlayerCmd, Timeval, play_cmd_next, play_cmd_prev, play_cmd_stop, play_cmd_pause,
  play_cmd_resume, play_cmd_replay, command_player,
}
use odroid_player.Command.{
  Reply, Handler, answer, with_copy, first_item, init_cmd_array, cmd_none, cmd_play, cmd_stop,
  cmd_pause, cmd_next, cmd_prev, cmd_quit, cmd_seek, cmd_time, cmd_uri, cmd_ack,
}
use odroid_player.Response.{World, Executed, run_handler, of_reply}

-- What commands keep is kept by every handler.
module _ (P : Player → Type 0)
    (commanded : (player : Player) (c : PlayerCmd) (now : Timeval)
      → P player
      → P (command_player player c now).0) where
  abbrev Replies : Option Reply → Type 0
  Replies none = Unit {0}
  Replies (some r) = P r.player

  copied :
      (filename : Option String) (status : Status) (p : Player) (calls : List Call)
      → P p
      → Replies (with_copy filename (λ f. answer status (some f) p calls))
  copied none status p calls h = tt
  copied (some f) status p calls h = h

  cmd_play-Replies :
      (status : Status) (player : Player) (now : Timeval)
      → P player
      → Replies (cmd_play status player now)
  unfolding cmd_play
  cmd_play-Replies status player now h = elim (Bool-cases player.child_paused) [
    | inl paused ↦ simp paused (commanded player play_cmd_resume now h)
    | inr running ↦ elim (Bool-cases (eq_ℤ player.child_pid (pos 0))) [
      | inl stopped ↦ simp (running, stopped) (commanded player play_cmd_replay now h)
      | inr busy ↦ simp (running, busy) h
    ]
  ]

  cmd_next-Replies :
      (status : Status) (player : Player) (now : Timeval)
      → P player
      → Replies (cmd_next status player now)
  unfolding cmd_next
  cmd_next-Replies status player now h =
      let moved = commanded player play_cmd_next now h in
      let idx = get_playlist_cur_idx player.playlist in
      let filenum = int_of_size (get_playlist_filenum player.playlist) in
      elim (Bool-cases (leb_ℤ filenum (succ_ℤ idx))) [
        | inr more ↦ rw more (copied (get_playlist_uri player.playlist (succ_ℤ idx)) _ _ _ moved)
        | inl end ↦ rw end (elim (Bool-cases player.loop) [
          | inl loop ↦ simp loop (copied (get_playlist_uri player.playlist (pos 0)) _ _ _ moved)
          | inr once ↦ simp once h
        ])
      ]

  cmd_prev-Replies :
      (status : Status) (player : Player) (now : Timeval)
      → P player
      → Replies (cmd_prev status player now)
  unfolding cmd_prev
  cmd_prev-Replies status player now h =
      let idx = get_playlist_cur_idx player.playlist in
      elim (Bool-cases (ltb_ℤ (pred_ℤ idx) (pos 0))) [
        | inl start ↦ rw start h
        | inr more ↦ rw more (
            copied (get_playlist_uri player.playlist (pred_ℤ idx)) _ _ _
              (commanded player play_cmd_prev now h))
      ]

  cmd_uri-Replies :
      (status : Status) (player : Player) (now : Timeval)
      → P player
      → Replies (cmd_uri status player now)
  unfolding cmd_uri
  cmd_uri-Replies status player now h =
      elim (Option-cases (get_playlist_current_uri player.playlist)) [
        | inl fault ↦ rw (fault, cmd_uri) tt
        | inr (current, e) ↦ rw (e, cmd_uri) (copied current status player [] h)
      ]

  cmd_ack-Replies :
      (status : Status) (player : Player) (now : Timeval)
      → P player
      → Replies (cmd_ack status player now)
  unfolding cmd_ack
  cmd_ack-Replies status player now h = elim (Option-cases player.prev_resp) [
    | inl empty ↦ simp (empty, cmd_ack) h
    | inr (node, e) ↦ simp (e, cmd_ack) (copied (first_item node.items) status player [] h)
  ]

  abbrev pub Runs : Option Executed → Type 0
  Runs none = Unit {0}
  Runs (some e) = P e.player

  handler-Runs :
      (world : World) (handler : Handler) (player : Player)
      → Replies (handler success player world.now)
      → Runs (run_handler world (some handler) player)
  unfolding run_handler of_reply
  handler-Runs world handler player h = elim (Option-cases (handler success player world.now)) [
    | inl fault ↦ rw (fault, run_handler) tt
    | inr (r, e) ↦ rw (e, run_handler) (subst Replies e h)
  ]

  pub run_handler-Runs :
      (world : World) (cmd : Cmd) (player : Player)
      → P player
      → Runs (run_handler world (init_cmd_array cmd) player)
  unfolding init_cmd_array cmd_none cmd_stop cmd_pause cmd_quit cmd_seek cmd_time run_handler
  run_handler-Runs world nothing player h = handler-Runs world cmd_none player h
  run_handler-Runs world play player h =
      handler-Runs world cmd_play player (cmd_play-Replies success player world.now h)
  run_handler-Runs world stop player h =
      handler-Runs world cmd_stop player (commanded player play_cmd_stop world.now h)
  run_handler-Runs world pause player h =
      handler-Runs world cmd_pause player (commanded player play_cmd_pause world.now h)
  run_handler-Runs world next player h =
      handler-Runs world cmd_next player (cmd_next-Replies success player world.now h)
  run_handler-Runs world prev player h =
      handler-Runs world cmd_prev player (cmd_prev-Replies success player world.now h)
  run_handler-Runs world quit player h = handler-Runs world cmd_quit player h
  run_handler-Runs world seek player h = handler-Runs world cmd_seek player h
  run_handler-Runs world time player h = handler-Runs world cmd_time player h
  run_handler-Runs world uri player h =
      handler-Runs world cmd_uri player (cmd_uri-Replies success player world.now h)
  run_handler-Runs world ack player h =
      handler-Runs world cmd_ack player (cmd_ack-Replies success player world.now h)
  run_handler-Runs world cmd_count player h = tt
