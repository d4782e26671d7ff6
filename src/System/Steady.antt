-- ===== src/System/Steady.antt =====
-- What the operations of src/server/server/server.c, src/server/response/response.c and
-- src/server/stream/stream.c keep of the part of a player that the threads share.
use odroid_player.Prelude.{
  ◌≡◌, inl, inr, String, List, [], ◌∷◌, Option, some, Bool, true, false, arith, Option-cases,
}
use odroid_player.Message.{Node, create_node, copy_data}
use odroid_player.Queue.{enqueue}
use odroid_player.Queue.Size.{enqueue-IsWellFormed}
use odroid_player.Player.{Player, set_player_running}
use odroid_player.Command.Moves.{PrevText}
use odroid_player.Server.Slots.{HasText, AllText-enqueue}
use odroid_player.Response.{save_prev_resp}
use odroid_player.System.Shared.{shared, IsSteady}

pub enqueue-IsSteady :
    (player : Player) (node : Node)
    → HasText node
    → IsSteady (shared player)
    → IsSteady (shared (record player { queue = (enqueue player.queue node).1 }))
enqueue-IsSteady player node t v = record {
  sized = enqueue-IsWellFormed player.queue node v.sized;
  texts = AllText-enqueue player.queue node v.texts t;
  prev = v.prev;
}

saved_PrevText :
    (node_ok items_ok : Bool) (node : Node)
    → HasText node
    → PrevText (
        create_node node_ok items_ok node.client_id node.client_fd node.msg_idx node.status
          node.type node.cmd node.n_data node.items)
unfolding create_node copy_data
saved_PrevText false items_ok node t = tt
saved_PrevText true items_ok node (text, n, has, size) = elim (Option-cases node.items) [
  | inl missing ↦ cc
  | inr (xs, e) ↦ kept items_ok xs e
]
  where
    kept :
        (ok : Bool) (xs : List (Option String))
        → node.items ≡ some xs
        → PrevText (
            create_node true ok node.client_id node.client_fd node.msg_idx node.status node.type
              node.cmd node.n_data node.items)
    kept false xs e = simp e tt
    kept true [] e = cc
    kept true (x ∷ xs) e = simp (e, size) (text, ground arith)

pub save-IsSteady :
    (saved_ok saved_items_ok : Bool) (node : Node) (player : Player)
    → HasText node
    → IsSteady (shared player)
    → IsSteady (shared (save_prev_resp saved_ok saved_items_ok node player))
unfolding save_prev_resp
save-IsSteady saved_ok saved_items_ok node player t v = record {
  sized = v.sized;
  texts = v.texts;
  prev = saved_PrevText saved_ok saved_items_ok node t;
}

pub running-IsSteady :
    (player : Player) (flag : Bool)
    → IsSteady (shared player)
    → IsSteady (shared (set_player_running player flag).0)
unfolding set_player_running
running-IsSteady player flag v = record {
  sized = record { counted = v.sized.counted; bounded = v.sized.bounded };
  texts = v.texts;
  prev = v.prev;
}
