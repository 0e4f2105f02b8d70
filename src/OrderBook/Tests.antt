-- ===== src/OrderBook/Tests.antt =====
-- Two snapshots of one symbol and one of another.
use hype_edge.Common.{ℕ, ◌≡◌, refl, none, some, List, [], ◌∷◌}
use hype_edge.Common.Int.{pos}
use hype_edge.OrderBook.{L2Level, L2BookSnapshot, new_manager, get_snapshot}
use hype_edge.OrderBook.Feed.{feed, latest, received, version_in, feed-refines}

abbrev level : ℕ → L2Level
level n = record { price = record { raw = pos n }; size = record { raw = pos 1 } }

abbrev book_of : ℕ → List L2Level → L2BookSnapshot
book_of symbol bids = record {
  symbol = symbol;
  bids = bids;
  asks = [];
  timestamp = pos 1;
  local_ts = pos 2;
  version = 0;
  connection_generation = 0;
}

abbrev books : List L2BookSnapshot
books =
    book_of 1 (level 9 ∷ [])
    ∷ book_of 2 (level 5 ∷ [])
    ∷ book_of 1 (level 10 ∷ level 9 ∷ level 8 ∷ [])
    ∷ []

-- Only the best two levels are kept.
latest_of_one :
    latest 2 1 books none ≡ some (record (book_of 1 (level 10 ∷ level 9 ∷ [])) { version = 2 })
latest_of_one = refl

feed-refines_example :
    (get_snapshot (feed (new_manager 2) books) 1 ≡ latest 2 1 books none)
    × (version_in (get_snapshot (feed (new_manager 2) books) 1) ≡ received 1 books)
feed-refines_example = feed-refines 2 1 books
