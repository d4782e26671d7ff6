-- ===== src/System/Shared.antt =====
-- The part of a player that the server, response and stream threads share, but for the pool of clients
-- and the sets of descriptors: src/server/server/server.c and src/server/response/response.c.
use odroid_player.Prelude.{Option}
use odroid_player.Message.{Node}
use odroid_player.Queue.{Queue}
use odroid_player.Queue.Size.{IsWellFormed}
use odroid_player.Player.{Player}
use odroid_player.Command.Moves.{PrevText}
use odroid_player.Server.Slots.{AllText}

pub record Shared : Type 0 where
  pub queue : Queue Node
  pub prev_resp : Option Node

abbrev pub shared : Player → Shared
shared p = record { queue = p.queue; prev_resp = p.prev_resp }

-- The queue has its size right, its nodes have a text, and so has the response that is kept.
pub record IsSteady (r : Shared) : Type 0 where
  pub sized : IsWellFormed r.queue
  pub texts : AllText r.queue.nodes
  pub prev : PrevText r.prev_resp
