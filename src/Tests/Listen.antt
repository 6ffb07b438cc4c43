-- ===== src/Tests/Listen.antt =====
-- Two listening sockets are configured; the second cannot be bound.
use hao_server.Base.{ℕ, ◌≡◌, Bool, true, false, List, [], ◌∷◌, some, arith}
use hao_server.Base.Int.{pos}
use hao_server.Config.{
  JsonValue, object, array, bool, int, field, no_fields, item, no_items, at_key, find_field,
  compare_text, size,
}
use hao_server.Net.Listen.{
  Listeners, Attempt, open_listening_sockets, net_key, listen_key, port_key, any_key,
}
use hao_server.Net.Listen.Owned.{Owned, open_listening_sockets-Owned}
use hao_server.Tests.Address.{blank_address}

abbrev entry : ℕ → JsonValue
entry port = object (field any_key (bool true) (field port_key (int (pos port)) no_fields))

abbrev two_entries : JsonValue
two_entries = object (
    field net_key
      (object (field listen_key (array (item (entry 80) (item (entry 81) no_items))) no_fields))
      no_fields)

abbrev second_in_use : List Attempt
second_in_use =
    record { socket_fd = some 5; reuse_address_ok = true; bind_ok = true; listen_ok = true }
    ∷ record { socket_fd = some 6; reuse_address_ok = true; bind_ok = false; listen_ok = true }
    ∷ []

abbrev none_yet : Listeners
none_yet = record { listen_socket_list = []; closed = [] }

open_listening_sockets-Owned_example :
    (r : Listeners × Bool) × (open_listening_sockets blank_address two_entries second_in_use
        none_yet
      ≡ some r)
    × Owned (size (at_key listen_key (at_key net_key two_entries))) second_in_use none_yet r
unfolding at_key find_field compare_text size
open_listening_sockets-Owned_example =
    open_listening_sockets-Owned blank_address two_entries second_in_use none_yet (omega arith)
