-- ===== src/OrderBook.antt =====
-- The order books of crates/trading/src/market_data/book.rs, with the levels and snapshots of
-- crates/domain/src/models.rs. Symbols are numbers, of which only equality counts, and times are
-- integers. The prices as floating-point numbers are left out.
pub mod Feed
mod Tests
use hype_edge.Common.{ℕ, zero, suc, ◌+◌, Option, none, some, List, [], ◌∷◌, map, if◌then◌else◌}
use hype_edge.Common.Int.{ℤ, pos}
use hype_edge.Common.Maps.{lookup, insert}
use hype_edge.Decimal.{Decimal, decimal_one, add, div}
use hype_edge.Decimal.WideInteger.{Wide}

pub record L2Level : Type 0 where
  pub price : Decimal
  pub size : Decimal

pub record L2BookSnapshot : Type 0 where
  pub symbol : ℕ
  pub bids : List L2Level
  pub asks : List L2Level
  pub timestamp : ℤ
  pub local_ts : ℤ
  pub version : ℕ
  pub connection_generation : ℕ

pub record OrderBook : Type 0 where
  pub symbol : ℕ
  pub depth : ℕ
  pub bids : List L2Level
  pub asks : List L2Level
  pub last_update_ts : Option ℤ
  pub version : ℕ
  pub snapshot : Option L2BookSnapshot

abbrev pub new_book : ℕ → ℕ → OrderBook
new_book symbol depth = record {
  symbol = symbol;
  depth = depth;
  bids = [];
  asks = [];
  last_update_ts = none;
  version = 0;
  snapshot = none;
}

abbrev pub first {ℓ} : {A : Type ℓ} → List A → Option A
first [] = none
first (x ∷ xs) = some x

unfoldable pub take_levels : ℕ → List (Decimal × Decimal) → List L2Level
take_levels zero ps = []
take_levels (suc n) [] = []
take_levels (suc n) (p ∷ ps) = record { price = p.0; size = p.1 } ∷ take_levels n ps

abbrev pub or_now : Option ℤ → ℤ → ℤ
or_now (some at) now = at
or_now none now = now

unfoldable pub snapshot_of :
    OrderBook → List (Decimal × Decimal) → List (Decimal × Decimal) → ℤ → ℤ → ℕ → L2BookSnapshot
unfolding take_levels
snapshot_of b bids asks ts local_ts generation = record {
  symbol = b.symbol;
  bids = take_levels b.depth bids;
  asks = take_levels b.depth asks;
  timestamp = ts;
  local_ts = local_ts;
  version = b.version + 1;
  connection_generation = generation;
}

unfoldable pub update :
    OrderBook
    → List (Decimal × Decimal)
    → List (Decimal × Decimal)
    → ℤ
    → Option ℤ
    → ℤ
    → ℕ
    → OrderBook × L2BookSnapshot
unfolding snapshot_of take_levels
update b bids asks ts received_at now generation =
    let snapshot = snapshot_of b bids asks ts (or_now received_at now) generation in
    (
      record b {
        bids = take_levels b.depth bids;
        asks = take_levels b.depth asks;
        last_update_ts = some ts;
        version = b.version + 1;
        snapshot = some snapshot;
      },
      snapshot,
    )

unfoldable pub best_bid : OrderBook → Option Decimal
best_bid b = elim (first b.bids) [ none ↦ none | some l ↦ some l.price ]

unfoldable pub best_ask : OrderBook → Option Decimal
best_ask b = elim (first b.asks) [ none ↦ none | some l ↦ some l.price ]

pub record BookManager : Type 0 where
  pub depth : ℕ
  pub books : List (ℕ × OrderBook)

abbrev pub new_manager : ℕ → BookManager
new_manager depth = record { depth = depth; books = [] }

-- The book of a symbol, a new one where there is none.
abbrev pub or_new : Option OrderBook → ℕ → ℕ → OrderBook
or_new (some b) symbol depth = b
or_new none symbol depth = new_book symbol depth

unfoldable pub get_book : BookManager → ℕ → OrderBook
get_book m symbol = or_new (lookup symbol m.books) symbol m.depth

abbrev pub snapshot_in : Option OrderBook → Option L2BookSnapshot
snapshot_in none = none
snapshot_in (some b) = b.snapshot

unfoldable pub get_snapshot : BookManager → ℕ → Option L2BookSnapshot
get_snapshot m symbol = snapshot_in (lookup symbol m.books)

unfoldable pub pairs_of : List L2Level → List (Decimal × Decimal)
pairs_of [] = []
pairs_of (l ∷ ls) = (l.price, l.size) ∷ pairs_of ls

unfoldable pub apply_snapshot : BookManager → L2BookSnapshot → BookManager × L2BookSnapshot
unfolding update get_book pairs_of
apply_snapshot m s =
    let updated =
      update (get_book m s.symbol) (pairs_of s.bids) (pairs_of s.asks) s.timestamp (some s.local_ts)
        s.local_ts s.connection_generation in
    (record m { books = insert s.symbol updated.0 m.books }, updated.1)
