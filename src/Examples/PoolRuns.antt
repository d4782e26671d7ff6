-- ===== src/Examples/PoolRuns.antt =====
-- Runs of the theorems on src/server/client/client.c and src/server/utils/fd_set.c.
use odroid_player.Prelude.{◌≡◌, refl, pos, pred_ℤ, [], ◌∷◌, ◌++◌, none, some, true, eq_ℤ, arith}
use odroid_player.Sys.{close}
use odroid_player.Pool.{find_client_fd, find_client_index}
use odroid_player.Pool.Change.{
  SocketApi, add_client, remove_client, remove_at, create_client_stream,
}
use odroid_player.Pool.Overlap.{removals_overlap}
use odroid_player.Pool.Search.{find_slot}
use odroid_player.Pool.Removal.{stream_calls}
use odroid_player.Pool.Valid.{
  IsValid, client_of, SameOthers, fresh_client, add_client-IsValid, remove_client-IsValid,
}
use odroid_player.Pool.Streams.{with_stream, create_client_stream-IsValid}
use odroid_player.FdSet.{FdSet}
use odroid_player.Examples.{two_clients, two_clients-IsValid, streaming_client, plain_client}

-- Names as `create_socket_name` would make them, and a socket on descriptor 12.
abbrev good_api : SocketApi
good_api = record { create_socket_name = λ s. some s; create_socket_uds = λ type path. pos 12 }

-- No name can be made.
abbrev bad_api : SocketApi
bad_api = record { create_socket_name = λ s. none; create_socket_uds = λ type path. pos 0 }

add_example :
    let (done, p, calls) = add_client (pos 2) (pos 7) two_clients in
    (done ≡ true)
    × IsValid p
    × (client_of p (pos 7) ≡ some (fresh_client (pos 2) 6))
    × SameOthers 6 two_clients p
unfolding find_slot
add_example = add_client-IsValid (pos 2) 6 two_clients two_clients-IsValid refl (omega arith)

remove_example :
    let (p, calls) = remove_client (pos 5) two_clients in
    IsValid p
    × (client_of p (pos 5) ≡ none)
    × SameOthers 4 two_clients p
    × (calls ≡ stream_calls streaming_client ++ close (pos 5) ∷ [])
unfolding find_slot
remove_example = remove_client-IsValid 4 two_clients streaming_client two_clients-IsValid refl

overlap_example :
    let idx = find_client_index (pos 5) two_clients find_client_fd in
    let p = (remove_client (pos 5) two_clients).0 in
    let (q, calls) = remove_at idx (pos 5) p in
    IsValid p
    × (q ≡ record p { client_cnt = pred_ℤ p.client_cnt })
    × (calls ≡ close (pos 5) ∷ [])
    × ¬ IsValid q
unfolding find_slot
overlap_example = removals_overlap 4 two_clients streaming_client two_clients-IsValid refl

stream_example :
    let (made, p, calls) = create_client_stream good_api (pos 6) two_clients in
    (made ≡ true)
    × IsValid p
    × (client_of p (pos 6) ≡ some (with_stream plain_client (pos 12) "ops_stream" "opc_stream"))
    × SameOthers 5 two_clients p
unfolding find_slot
stream_example =
    create_client_stream-IsValid good_api 5 11 "ops_stream" "opc_stream" two_clients plain_client
      two_clients-IsValid refl refl refl refl refl

abbrev just_four : FdSet
just_four fd = eq_ℤ fd (pos 4)
