-- ===== src/Playback/Stopping.antt =====
-- What stopping does to the play thread of src/server/player/player.c.
use odroid_player.Prelude.{
  ℕ, zero, suc, ltb, Bool, lt→ltb, le→not-ltb, ◌<◌, ◌≡◌, ◌≢◌, refl, sym, ap, ◌∙◌, ◌⊎◌, inl, inr,
  pos, String, List, [], true, false, not, arith, length, if◌then◌else◌, subst,
}
use mathlib.Core.Bool.{false≢true}
use odroid_player.Sys.{Call}
use odroid_player.Playlist.Valid.{Shows}
use odroid_player.Send.{Net}
use odroid_player.Player.{
  Player, PlayerCmd, Timeval, play_cmd_none, play_cmd_next, play_cmd_prev, play_cmd_stop,
  play_cmd_pause, play_cmd_resume, play_cmd_replay, command_player, set_player_running,
}
use odroid_player.Playback.{
  asleep, leave, proceed, before_spawn, again, out, reaped, forward_playlist, backward_playlist,
  wake_by, after_child, is_none_cmd,
}
use odroid_player.Playback.Cursor.{forward_playlist-At, backward_playlist-At}
use odroid_player.Playback.Frame.{command_keeps}
use odroid_player.Playback.Turns.{childless, awake}

-- A stopped player that waits for a command.
pub record IsStopped (player : Player) : Type 0 where
  pub running : player.running ≡ true
  pub stopped : player.child_stopped ≡ true
  pub idle : player.pending_command ≡ play_cmd_none
  pub no_child : player.child_pid ≡ pos 0

reaped_running :
    (net : Net) (player : Player)
    → player.running ≡ true
    → reaped net player ≡ after_child net (childless player) player.pending_command
unfolding reaped
reaped_running net player runs =
    ap
      (λ b.
        if not b
        then out (childless player) []
        else after_child net (childless player) player.pending_command)
      runs

-- When the child of a running player ends and the pending command is STOP, the player is stopped
-- with its playlist as it was, and the thread goes to sleep.
pub stop_sleeps :
    (net : Net) (player : Player)
    → player.running ≡ true
    → player.pending_command ≡ play_cmd_stop
    → (p : Player) × (reaped net player ≡ again p [])
      × IsStopped p
      × (p.playlist ≡ player.playlist)
      × (before_spawn net p ≡ asleep)
unfolding after_child before_spawn
stop_sleeps net player runs pending = (
  record (childless player) { child_stopped = true },
  reaped_running net player runs ∙ ap (after_child net (childless player)) pending,
  record { running = runs; stopped = refl; idle = refl; no_child = refl },
  refl,
  ap (λ b. if not b then leave else asleep) runs,
)

childless_command :
    (player : Player) (c : PlayerCmd) (now : Timeval)
    → player.child_pid ≡ pos 0
    → (command_player player c now).0 ≡ record player { pending_command = c }
unfolding command_player
childless_command player c now e = simp e

woken :
    (net : Net) (player : Player)
    → player.running ≡ true
    → player.child_stopped ≡ true
    → is_none_cmd player.pending_command ≡ false
    → before_spawn net player
      ≡ proceed
          (wake_by net player.pending_command (awake player)).0
          (wake_by net player.pending_command (awake player)).1
unfolding before_spawn
woken net player runs stopped called = simp (runs, stopped, called)

-- The file that a stopped player goes on with, from the one at `cur` of so many.
abbrev pub resumes_at : PlayerCmd → Bool → ℕ → ℕ → ℕ
resumes_at play_cmd_next loop total cur =
    if ltb (suc cur) total then suc cur else if loop then 0 else cur
resumes_at play_cmd_prev loop total zero = 0
resumes_at play_cmd_prev loop total (suc cur) = cur
resumes_at _ loop total cur = cur

-- What is left of a stopped player that is started with the file at `k`.
abbrev pub Starts : Player → List String → ℕ → Player → Type 0
Starts player files k p =
    Shows p.playlist files k × (p ≡ record (awake player) { playlist = p.playlist })

module _ (net : Net) (player : Player) (files : List String) (cur : ℕ) where
  woken_forward :
      Shows player.playlist files cur
      → 0 < length files
      → Starts player files
          (resumes_at play_cmd_next player.loop (length files) cur)
          (forward_playlist net (awake player)).1
  woken_forward v some_file = elim (forward_playlist-At net (awake player) files cur v some_file) [
    | inl (more, _, at) ↦ simp (lt→ltb _ _ more) at
    | inr (last, inl (once, e)) ↦
        let stay : resumes_at play_cmd_next player.loop (length files) cur ≡ cur =
          simp (le→not-ltb _ _ last, once) in
        subst (λ k. Starts player files k (forward_playlist net (awake player)).1) (sym stay)
          (subst (Starts player files cur) (sym (ap (λ r. r.1) e)) (v, refl))
    | inr (last, inr (loops, _, at)) ↦
        let first : resumes_at play_cmd_next player.loop (length files) cur ≡ 0 =
          simp (le→not-ltb _ _ last, loops) in
        subst (λ k. Starts player files k (forward_playlist net (awake player)).1) (sym first) at
  ]

  woken_backward :
      Shows player.playlist files cur
      → 0 < length files
      → Starts player files
          (resumes_at play_cmd_prev player.loop (length files) cur)
          (backward_playlist net (awake player)).1
  woken_backward v some_file =
      elim (backward_playlist-At net (awake player) files cur v some_file) [
        | inl (first, e) ↦
            subst
              (λ k.
                Starts player files (resumes_at play_cmd_prev player.loop (length files) k)
                  (backward_playlist net (awake player)).1)
              (sym first)
              (subst (Starts player files 0) (sym (ap (λ r. r.1) e))
                (subst (Shows player.playlist files) first v, refl))
        | inr (before, e, _, at) ↦ simp e at
      ]

  woken_by :
      (c : PlayerCmd)
      → Shows player.playlist files cur
      → 0 < length files
      → Starts player files
          (resumes_at c player.loop (length files) cur)
          (wake_by net c (awake player)).0
  unfolding wake_by
  woken_by play_cmd_next v some_file = woken_forward v some_file
  woken_by play_cmd_prev v some_file = woken_backward v some_file
  woken_by play_cmd_none v some_file = (v, refl)
  woken_by play_cmd_stop v some_file = (v, refl)
  woken_by play_cmd_pause v some_file = (v, refl)
  woken_by play_cmd_resume v some_file = (v, refl)
  woken_by play_cmd_replay v some_file = (v, refl)

some_command : (c : PlayerCmd) → c ≢ play_cmd_none → is_none_cmd c ≡ false
some_command play_cmd_none h = absurd (h refl)
some_command _ h = refl

-- A stopped player is started by every command but none: STOP, PAUSE, RESUME and REPLAY make the
-- thread play the current file again, NEXT the next one, or from the last one the first if the player
-- loops and the last again if not, and PREV the one before, or the first again. Nothing but the
-- cursor and the two flags changes.
pub stopped_restarts :
    (net : Net) (player : Player) (files : List String) (cur : ℕ) (c : PlayerCmd) (now : Timeval)
    → IsStopped player
    → c ≢ play_cmd_none
    → Shows player.playlist files cur
    → 0 < length files
    → (p : Player) × (calls : List Call) × (before_spawn net (command_player player c now).0
        ≡ proceed p calls)
      × Starts player files (resumes_at c player.loop (length files) cur) p
stopped_restarts net player files cur c now v h list some_file =
    let told : Player = record player { pending_command = c } in
    (
      (wake_by net c (awake player)).0,
      (wake_by net c (awake player)).1,
      ap (before_spawn net) (childless_command player c now v.no_child)
          ∙ woken net told v.running v.stopped (some_command c h),
      woken_by net player files cur c list some_file,
    )

going_on :
    (net : Net) (child : Player) (c : PlayerCmd)
    → (c ≡ play_cmd_pause) ⊎ (c ≡ play_cmd_next)
    → after_child net child c ≡ after_child net child play_cmd_next
unfolding after_child
going_on net child c (inl e) = ap (after_child net child) e
going_on net child c (inr e) = ap (after_child net child) e

-- The child of a player has ended while PAUSE or NEXT was pending: the next file is played.
pub forward_after :
    (net : Net) (player : Player) (files : List String) (cur : ℕ)
    → player.running ≡ true
    → (player.pending_command ≡ play_cmd_pause) ⊎ (player.pending_command ≡ play_cmd_next)
    → Shows player.playlist files cur
    → suc cur < length files
    → (p : Player) × (calls : List Call) × (reaped net player ≡ again p calls)
      × Shows p.playlist files (suc cur)
      × (p.child_stopped ≡ player.child_stopped)
unfolding after_child
forward_after net player files cur runs pending v more =
    let reap =
      reaped_running net player runs
      ∙ going_on net (childless player) player.pending_command pending in
    elim (forward_playlist-At net (childless player) files cur v (omega arith)) [
      | inl (_, moved, (there, same)) ↦ (
        (forward_playlist net (childless player)).1,
        (forward_playlist net (childless player)).2,
        reap ∙ rw moved,
        there,
        ap (λ r. r.child_stopped) same,
      )
      | inr (past, _) ↦ absurd (omega arith)
    ]

-- A STOP that is followed by a PAUSE before the child has ended is lost: the pending command is
-- overwritten, and when the child ends the thread goes on with the next file, if there is one.
pub stop_overwritten :
    (net : Net) (player : Player) (files : List String) (cur : ℕ) (t u : Timeval)
    → player.running ≡ true
    → Shows player.playlist files cur
    → suc cur < length files
    → let q = (command_player (command_player player play_cmd_stop t).0 play_cmd_pause u).0 in
      (p : Player) × (calls : List Call) × (reaped net q ≡ again p calls)
      × Shows p.playlist files (suc cur)
      × (p.child_stopped ≡ player.child_stopped)
stop_overwritten net player files cur t u runs v more =
    let p = (command_player player play_cmd_stop t).0 in
    let (_, stop1, list1, _, runs1, _) = command_keeps player play_cmd_stop t in
    let (_, stop2, list2, _, runs2, pending) = command_keeps p play_cmd_pause u in
    let (r, calls, e, there, stop3) =
      forward_after net (command_player p play_cmd_pause u).0 files cur (runs2 ∙ runs1 ∙ runs)
        (inl pending) (subst (λ l. Shows l files cur) (sym (list2 ∙ list1)) v) more in
    (r, calls, e, there, stop3 ∙ stop2 ∙ stop1)

-- After the last file of a playlist that does not loop, the thread leaves, and the player and its
-- queue are told to stop.
pub playlist_ends :
    (net : Net) (player : Player) (files : List String) (cur : ℕ)
    → player.running ≡ true
    → player.pending_command ≡ play_cmd_none
    → player.loop ≡ false
    → Shows player.playlist files cur
    → suc cur ≡ length files
    → (p : Player) × (calls : List Call) × (reaped net player ≡ out p calls)
      × (p.running ≡ false)
      × (p.queue.running ≡ false)
      × (p.playlist ≡ player.playlist)
unfolding after_child set_player_running
playlist_ends net player files cur runs pending once v last =
    let reap = reaped_running net player runs ∙ ap (after_child net (childless player)) pending in
    elim (forward_playlist-At net (childless player) files cur v (omega arith)) [
      | inl (more, _, _) ↦ absurd (omega arith)
      | inr (_, inr (loops, _, _)) ↦ absurd (false≢true (sym once ∙ loops))
      | inr (_, inl (_, stays)) ↦ (
        (set_player_running (childless player) false).0,
        (set_player_running (childless player) false).1,
        reap ∙ rw stays,
        refl,
        refl,
        refl,
      )
    ]
