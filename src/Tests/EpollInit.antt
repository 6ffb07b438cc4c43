-- ===== src/Tests/EpollInit.antt =====
-- Two listening sockets, 5 and 7, and a pool of two connections.
use hao_server.Base.{ℕ, ◌≡◌, refl, true, List, [], ◌∷◌, some}
use hao_server.Net.State.{Socket}
use hao_server.Net.Pool.{init_connection_pool}
use hao_server.Net.EpollInit.{epoll_init}
use hao_server.Net.EpollInit.Listens.{Listens, epoll_init-Listens}
use hao_server.Tests.Fixtures.{blank, fresh_socket, zero_time}

epoll_init-Listens_example :
    (t : Socket) × (is : List ℕ) × (epoll_init blank zero_time
        (λ fd. true)
        true
        (5 ∷ 7 ∷ [])
        fresh_socket
      ≡ some (t, is))
    × Listens (init_connection_pool blank zero_time fresh_socket) t (5 ∷ 7 ∷ []) is
epoll_init-Listens_example =
    epoll_init-Listens blank refl zero_time (λ fd. true) (λ fd. refl) (5 ∷ 7 ∷ []) fresh_socket
      (λ j. refl) refl refl refl refl
