-- ===== src/Keypad/Choice.antt =====
-- Which device src/examples/ir takes, and what its keys ask for.
use odroid_player.Prelude.{
  zero, suc, ◌≡◌, refl, sym, ap, append-nil, ◌∙◌, inl, inr, String, List, [], ◌∷◌, ◌++◌, Option,
  none, some, Bool, true, false, ◌&&◌, All, Bool-cases,
}
use odroid_player.Keypad.{
  Key, ev_key_up, ev_key_down, ev_key_left, ev_key_right, ev_key_enter, ev_key_home, ev_key_list,
  other_key, Ask, send_play, send_stop, send_pause, send_next, send_prev, Remote,
  process_opc_command, Event, ev_syn, ev_msc, ev_key, process_events, Capture, select_failed,
  read_short, events, interrupted, interrupt_handler, Captured, after_events, capture_turn,
  capture_ir_event, Device, is_ir_keypad, find_loop, find_ir_device,
}

-- A device that can be used.
abbrev pub Fits : Device → Type 0
Fits d = (d.opens ≡ true) × (is_ir_keypad d ≡ true)

abbrev pub Unfit : Device → Type 0
Unfit d = (d.opens && is_ir_keypad d) ≡ false

flag_stays : (ds : List Device) (fname : String) → find_loop ds true fname ≡ (true, fname)
unfolding find_loop
flag_stays [] fname = refl
flag_stays (d ∷ ds) fname = flag_stays ds fname

-- Devices that cannot be used leave no flag, only a path in the buffer.
skips_others :
    (ds rest : List Device) (fname : String)
    → All Unfit ds
    → (g : String) × (find_loop (ds ++ rest) false fname ≡ find_loop rest false g)
unfolding find_loop
skips_others [] rest fname h = (fname, refl)
skips_others (d ∷ ds) rest fname h =
    let (g, e) = skips_others ds rest d.path h.1 in
    elim (Bool-cases d.opens) [
      | inr shut ↦ (g, rw shut e)
      | inl opened ↦
          let no : is_ir_keypad d ≡ false = simp opened at h.0 in
          (g, rw (opened, find_loop) (rw no e))
    ]

-- The path of the first device that opens and is the keypad, and not the common one; none when there
-- is no such device.
pub find_ir_device_first :
    (before : List Device) (d : Device) (after : List Device)
    → All Unfit before
    → Fits d
    → (find_ir_device (before ++ d ∷ after) ≡ some d.path) × (find_ir_device before ≡ none)
unfolding find_ir_device find_loop
find_ir_device_first before d after h fits =
    let (g, e) = skips_others before (d ∷ after) "" h in
    let (k, f) = skips_others before [] "" h in
    let found : find_loop (d ∷ after) false g ≡ (true, d.path) =
      simp (fits.0, fits.1) (flag_stays after d.path) in
    (rw (e ∙ found) refl, rw (ap (λ ds. find_loop ds false "") (sym (append-nil before)) ∙ f) refl)

-- What the requests say of the player: PLAY resumes it, PAUSE and STOP do not.
abbrev pub paused_after : Bool → List Ask → Bool
paused_after paused [] = paused
paused_after paused (send_play ∷ asks) = paused_after false asks
paused_after paused (send_pause ∷ asks) = paused_after true asks
paused_after paused (send_stop ∷ asks) = paused_after true asks
paused_after paused (_ ∷ asks) = paused_after paused asks

paused_after-append :
    (paused : Bool) (xs ys : List Ask)
    → paused_after paused (xs ++ ys) ≡ paused_after (paused_after paused xs) ys
paused_after-append paused [] ys = refl
paused_after-append paused (send_play ∷ xs) ys = paused_after-append false xs ys
paused_after-append paused (send_pause ∷ xs) ys = paused_after-append true xs ys
paused_after-append paused (send_stop ∷ xs) ys = paused_after-append true xs ys
paused_after-append paused (send_next ∷ xs) ys = paused_after-append paused xs ys
paused_after-append paused (send_prev ∷ xs) ys = paused_after-append paused xs ys

-- The request of one key, as a list.
abbrev asked : Option Ask → List Ask
asked none = []
asked (some a) = a ∷ []

key_tracks :
    (key : Key) (r : Remote)
    → let (ask, s) = process_opc_command key r in s.paused ≡ paused_after r.paused (asked ask)
unfolding process_opc_command
key_tracks ev_key_up r = refl
key_tracks ev_key_down r = refl
key_tracks ev_key_left r = refl
key_tracks ev_key_right r = refl
key_tracks ev_key_enter r = elim (Bool-cases r.paused) [ inl e ↦ simp e | inr e ↦ simp e ]
key_tracks ev_key_home r = refl
key_tracks ev_key_list r = refl
key_tracks other_key r = refl

ask_first :
    (paused : Bool) (ask : Option Ask) (asks : List Ask)
    → paused_after paused (elim ask [ none ↦ asks | some a ↦ a ∷ asks ])
      ≡ paused_after (paused_after paused (asked ask)) asks
ask_first paused none asks = refl
ask_first paused (some a) asks = paused_after-append paused (a ∷ []) asks

events_track :
    (evs : List Event) (r : Remote)
    → let (asks, s) = process_events evs r in s.paused ≡ paused_after r.paused asks
unfolding process_events
events_track [] r = refl
events_track (ev_syn ∷ evs) r = events_track evs r
events_track (ev_msc ∷ evs) r = events_track evs r
events_track (ev_key key zero ∷ evs) r = events_track evs r
events_track (ev_key key (suc value) ∷ evs) r =
    let s = (process_opc_command key r).1 in
    events_track evs s
    ∙ (ap (λ b. paused_after b (process_events evs s).0) (key_tracks key r)
        ∙ sym (ask_first r.paused (process_opc_command key r).0 (process_events evs s).0))

abbrev Tracks : Remote → Captured → Type 0
Tracks r (_, asks, s) = s.paused ≡ paused_after r.paused asks

after_events-Tracks :
    (r s : Remote) (asks : List Ask) (later : Captured)
    → s.paused ≡ paused_after r.paused asks
    → Tracks s later
    → Tracks r (after_events asks later)
unfolding after_events
after_events-Tracks r s asks (result, more, t) e h =
    h ∙ (ap (λ b. paused_after b more) e ∙ sym (paused_after-append r.paused asks more))

turn-Tracks :
    (c : Capture) (next : Remote → Captured) (r : Remote)
    → ((s : Remote) → Tracks s (next s))
    → Tracks r (capture_turn c next r)
unfolding capture_turn interrupt_handler
turn-Tracks select_failed next r h = refl
turn-Tracks read_short next r h = refl
turn-Tracks (events evs) next r h =
    let (asks, s) = process_events evs r in
    after_events-Tracks r s asks (next s) (events_track evs r) (h s)
turn-Tracks (interrupted evs) next r h =
    let (asks, s) = process_events evs r in
    after_events-Tracks r (interrupt_handler s) asks (next (interrupt_handler s))
      (events_track evs r) (h (interrupt_handler s))

-- The variable `paused`, by which ENTER chooses between PLAY and PAUSE, is after any number of
-- events what the requests that were sent say of the player, the last of PLAY, PAUSE and STOP
-- deciding.
pub capture_ir_event-tracks :
    (cs : List Capture) (r : Remote)
    → let (done, asks, s) = capture_ir_event cs r in s.paused ≡ paused_after r.paused asks
unfolding capture_ir_event
capture_ir_event-tracks [] r = refl
capture_ir_event-tracks (c ∷ cs) r = elim (Bool-cases r.stop) [
  | inl over ↦ rw over refl
  | inr on ↦
      simp on (turn-Tracks c (λ s. capture_ir_event cs s) r (λ s. capture_ir_event-tracks cs s))
]
