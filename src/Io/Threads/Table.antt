-- ===== src/Io/Threads/Table.antt =====
-- The thread of `maintain` as steps of Io/Threads (src/commands/io/mod.rs).
use reql.Base.{ℕ, Text, none, some, List, [], ◌∷◌, ◌⊎◌}
use reql.Errors.{ok, err}
use reql.Io.Response.{Item, expected, unexpected}
use reql.Io.Cluster.{Address, World, Network as Sockets}
use reql.Io.Cluster.Status.{ServerStatus, Change, row, handle_item, handle_items}
use reql.Io.Threads.{Steps, after, changes}

module _ {T : Type 0} (resolve : Text → List Address ⊎ Text) (net : Sockets) (conn : ℕ) where
  handle_item-Steps :
      (u w : World) (i : Item (Change (ServerStatus T) (ServerStatus T)))
      → Steps resolve net u w
      → Steps resolve net u (handle_item net conn w i)
  unfolding handle_item
  handle_item-Steps u w (ok (some (expected c))) s = after u w _ s (changes conn (row c) w)
  handle_item-Steps u w (ok (some (unexpected v))) s = s
  handle_item-Steps u w (ok none) s = s
  handle_item-Steps u w (err e) s = s

  -- Whatever the answers are, the world behind them is reached by steps.
  pub handle_items-Steps :
      (u w : World) (is : List (Item (Change (ServerStatus T) (ServerStatus T))))
      → Steps resolve net u w
      → Steps resolve net u (handle_items net conn w is)
  unfolding handle_items
  handle_items-Steps u w [] s = s
  handle_items-Steps u w (i ∷ is) s =
      handle_items-Steps u (handle_item net conn w i) is (handle_item-Steps u w i s)
