-- ===== src/OrderBook/Feed.antt =====
-- What the books hold after a feed of snapshots, crates/trading/src/market_data/book.rs.
use hype_edge.Common.{
  ℕ, zero, suc, ◌+◌, ◌≡◌, refl, sym, ap, ◌∙◌, true, Option, none, some, List, [], ◌∷◌, arith, ◌==◌,
  ==_iff, if◌then◌else◌, Option-cases, Bool-cases, inl, inr,
}
use hype_edge.Common.Maps.{lookup, insert, lookup-insert}
use hype_edge.OrderBook.{
  L2Level, L2BookSnapshot, OrderBook, BookManager, new_manager, get_book, get_snapshot,
  apply_snapshot, update, snapshot_of, take_levels, pairs_of, snapshot_in,
}

abbrev pub take {ℓ} : {A : Type ℓ} → ℕ → List A → List A
take zero xs = []
take (suc n) [] = []
take (suc n) (x ∷ xs) = x ∷ take n xs

abbrev pub version_in : Option L2BookSnapshot → ℕ
version_in none = 0
version_in (some s) = s.version

-- How many snapshots of a symbol a feed has.
abbrev pub received : ℕ → List L2BookSnapshot → ℕ
received j [] = 0
received j (s ∷ ss) = (if s.symbol == j then 1 else 0) + received j ss

-- The latest snapshot of a symbol, cut to a depth and numbered, where `held` was there before.
abbrev pub latest : ℕ → ℕ → List L2BookSnapshot → Option L2BookSnapshot → Option L2BookSnapshot
latest depth j [] held = held
latest depth j (s ∷ ss) held = latest depth j ss (
    if s.symbol == j
    then some (record s {
      bids = take depth s.bids;
      asks = take depth s.asks;
      version = version_in held + 1;
    })
    else held)

unfoldable pub feed : BookManager → List L2BookSnapshot → BookManager
feed m [] = m
feed m (s ∷ ss) = feed (apply_snapshot m s).0 ss

take_levels-pairs_of : (n : ℕ) (ls : List L2Level) → take_levels n (pairs_of ls) ≡ take n ls
unfolding take_levels pairs_of
take_levels-pairs_of zero ls = refl
take_levels-pairs_of (suc n) [] = refl
take_levels-pairs_of (suc n) (l ∷ ls) = ap (λ (r : List L2Level). l ∷ r) (take_levels-pairs_of n ls)

-- Every book has its symbol, the depth of the manager and the version of its snapshot.
abbrev pub IsBook : ℕ → ℕ → OrderBook → Type 0
IsBook depth j b = (b.symbol ≡ j) × (b.depth ≡ depth) × (b.version ≡ version_in b.snapshot)

abbrev pub AreBooks : BookManager → Type 0
AreBooks m = (j : ℕ) (b : OrderBook) → lookup j m.books ≡ some b → IsBook m.depth j b

get_book-IsBook :
    (m : BookManager) (j : ℕ)
    → AreBooks m
    → IsBook m.depth j (get_book m j) × ((get_book m j).version ≡ version_in (get_snapshot m j))
unfolding get_book get_snapshot
get_book-IsBook m j h = elim (Option-cases (lookup j m.books)) [
  | inl e ↦ rw e ((refl, refl, refl), refl)
  | inr (b, e) ↦ rw e (h j b e, (h j b e).2)
]

update-IsBook :
    (m : BookManager) (s : L2BookSnapshot)
    → AreBooks m
    → IsBook m.depth s.symbol
        (update
          (get_book m s.symbol)
          (pairs_of s.bids)
          (pairs_of s.asks)
          s.timestamp
          (some s.local_ts)
          s.local_ts
          s.connection_generation).0
unfolding update snapshot_of
update-IsBook m s h = let b = get_book-IsBook m s.symbol h in (b.0.0, b.0.1, refl)

insert-AreBooks :
    (m : BookManager) (k : ℕ) (new : OrderBook)
    → AreBooks m
    → IsBook m.depth k new
    → (j : ℕ) (b : OrderBook) → lookup j (insert k new m.books) ≡ some b
    → IsBook m.depth j b
insert-AreBooks m k new h n j b e = elim (Bool-cases (k == j)) [
  | inl same ↦ ground (arith, lookup-insert k j new m.books, ==_iff k j)
  | inr other ↦ h j b (ground (arith, lookup-insert k j new m.books))
]

apply_snapshot-AreBooks :
    (m : BookManager) (s : L2BookSnapshot) → AreBooks m → AreBooks (apply_snapshot m s).0
unfolding apply_snapshot
apply_snapshot-AreBooks m s h =
    insert-AreBooks m s.symbol
      (update (get_book m s.symbol) (pairs_of s.bids) (pairs_of s.asks) s.timestamp
        (some s.local_ts) s.local_ts s.connection_generation).0
      h (update-IsBook m s h)

-- The snapshot as it is stored.
abbrev stored : ℕ → L2BookSnapshot → Option L2BookSnapshot → L2BookSnapshot
stored depth s held = record s {
  bids = take depth s.bids;
  asks = take depth s.asks;
  version = version_in held + 1;
}

snapshot_of-eq-stored :
    (m : BookManager) (s : L2BookSnapshot)
    → AreBooks m
    → snapshot_of
        (get_book m s.symbol)
        (pairs_of s.bids)
        (pairs_of s.asks)
        s.timestamp
        s.local_ts
        s.connection_generation
      ≡ stored m.depth s (get_snapshot m s.symbol)
unfolding snapshot_of
snapshot_of-eq-stored m s h =
    let b = get_book-IsBook m s.symbol h in
    ground (
      arith,
      b.0.0,
      b.0.1,
      b.1,
      take_levels-pairs_of m.depth s.bids,
      take_levels-pairs_of m.depth s.asks,
    )

apply_snapshot_view :
    (m : BookManager) (s : L2BookSnapshot) (j : ℕ)
    → AreBooks m
    → get_snapshot (apply_snapshot m s).0 j ≡ latest m.depth j (s ∷ []) (get_snapshot m j)
unfolding apply_snapshot update get_snapshot
apply_snapshot_view m s j h =
    let b = get_book m s.symbol in
    let new =
      (update b (pairs_of s.bids) (pairs_of s.asks) s.timestamp (some s.local_ts) s.local_ts
        s.connection_generation).0 in
    let found = lookup-insert s.symbol j new m.books in
    elim (Bool-cases (s.symbol == j)) [
      | inl e ↦
          let eq = (==_iff s.symbol j).0 e in
          ap snapshot_in found
          ∙ hit e (snapshot_of-eq-stored m s h)
          ∙ ap (λ (k : ℕ). some (stored m.depth s (get_snapshot m k))) eq
          ∙ sym (taken e)
      | inr e ↦ ground (arith, found)
    ]
  where
    hit :
        s.symbol == j ≡ true
        → snapshot_of
            (get_book m s.symbol)
            (pairs_of s.bids)
            (pairs_of s.asks)
            s.timestamp
            s.local_ts
            s.connection_generation
          ≡ stored m.depth s (get_snapshot m s.symbol)
        → snapshot_in (
            if s.symbol == j
            then some
                (update
                  (get_book m s.symbol)
                  (pairs_of s.bids)
                  (pairs_of s.asks)
                  s.timestamp
                  (some s.local_ts)
                  s.local_ts
                  s.connection_generation).0
            else lookup j m.books)
          ≡ some (stored m.depth s (get_snapshot m s.symbol))
    hit e k = ground (arith, k)

    taken :
        s.symbol == j ≡ true
        → latest m.depth j (s ∷ []) (get_snapshot m j) ≡ some (stored m.depth s (get_snapshot m j))
    taken e = ground arith

feed-eq-latest :
    (m : BookManager) (ss : List L2BookSnapshot) (j : ℕ)
    → AreBooks m
    → get_snapshot (feed m ss) j ≡ latest m.depth j ss (get_snapshot m j)
unfolding feed apply_snapshot
feed-eq-latest m [] j h = refl
feed-eq-latest m (s ∷ ss) j h =
    feed-eq-latest (apply_snapshot m s).0 ss j (apply_snapshot-AreBooks m s h)
    ∙ ap (latest m.depth j ss) (apply_snapshot_view m s j h)

version-latest :
    (depth j : ℕ) (ss : List L2BookSnapshot) (held : Option L2BookSnapshot)
    → version_in (latest depth j ss held) ≡ version_in held + received j ss
version-latest depth j [] held = omega arith
version-latest depth j (s ∷ ss) held = elim (Bool-cases (s.symbol == j)) [
  | inl e ↦ ground (
    arith,
    version-latest depth j ss (
        some (record s {
          bids = take depth s.bids;
          asks = take depth s.asks;
          version = version_in held + 1;
        })),
  )
  | inr e ↦ ground (arith, version-latest depth j ss held)
]

-- After any list of snapshots, a manager that started empty holds for every symbol the latest
-- snapshot of that symbol, both sides cut to the depth, and its version is the number of
-- snapshots of that symbol; for a symbol without a snapshot it holds none.
pub feed-refines :
    (depth j : ℕ) (ss : List L2BookSnapshot)
    → (get_snapshot (feed (new_manager depth) ss) j ≡ latest depth j ss none)
      × (version_in (get_snapshot (feed (new_manager depth) ss) j) ≡ received j ss)
unfolding lookup get_snapshot
feed-refines depth j ss =
    let same = feed-eq-latest (new_manager depth) ss j (λ k b e. ground arith) in
    (same, ap version_in same ∙ version-latest depth j ss none ∙ omega arith)
