-- ===== src/Runtime/Trade/Match/Best.antt =====
-- `findBestMatch` of runtime/src/shared/tradeMatch.ts and the pool of orders.
use co_net_dle.Common.{
  ℕ, ◌≤◌, ◌≡◌, refl, sym, ap, ◌∙◌, ◌⊎◌, inl, inr, Bool, true, false, not, ◌&&◌, none, some, List,
  [], ◌∷◌, arith, Bool-cases, Option-cases, some_injective, text_beq, text_beq_iff,
}
use co_net_dle.Runtime.Trade.Match.{
  OrderSide, sell, buy, is_sell, TradeOrder, orders_price_match, before, insert_order, sort_orders,
  open_side, Match, match_buys, match_sells, find_best_match,
}

abbrev pub Has : TradeOrder → List TradeOrder → Type 0
Has o [] = ⊥
Has o (x ∷ xs) = (x ≡ o) ⊎ Has o xs

insert_into :
    (o a : TradeOrder) (xs : List TradeOrder) → (a ≡ o) ⊎ Has o xs → Has o (insert_order a xs)
unfolding insert_order
insert_into o a [] h = h
insert_into o a (x ∷ xs) h = elim (Bool-cases (before a x)) [
  | inl first ↦ rw first h
  | inr later ↦ rw later (elim h [
    | inl here ↦ inr (insert_into o a xs (inl here))
    | inr (inl x_here) ↦ inl x_here
    | inr (inr there) ↦ inr (insert_into o a xs (inr there))
  ])
]

insert_from :
    (o a : TradeOrder) (xs : List TradeOrder) → Has o (insert_order a xs) → (a ≡ o) ⊎ Has o xs
unfolding insert_order
insert_from o a [] h = h
insert_from o a (x ∷ xs) h = elim (Bool-cases (before a x)) [
  | inl first ↦ rw first at h
  | inr later ↦ elim (rw later at h) [
    | inl x_here ↦ inr (inl x_here)
    | inr there ↦ elim (insert_from o a xs there) [
      | inl here ↦ inl here
      | inr past ↦ inr (inr past)
    ]
  ]
]

sort_into : (o : TradeOrder) (xs : List TradeOrder) → Has o xs → Has o (sort_orders xs)
unfolding sort_orders
sort_into o [] h = h
sort_into o (x ∷ xs) (inl here) = insert_into o x (sort_orders xs) (inl here)
sort_into o (x ∷ xs) (inr there) = insert_into o x (sort_orders xs) (inr (sort_into o xs there))

sort_from : (o : TradeOrder) (xs : List TradeOrder) → Has o (sort_orders xs) → Has o xs
unfolding sort_orders
sort_from o [] h = h
sort_from o (x ∷ xs) h = elim (insert_from o x (sort_orders xs) h) [
  | inl here ↦ inl here
  | inr there ↦ inr (sort_from o xs there)
]

-- The orders of a side are those of the list that have the side and are not cancelled.
open_from :
    (side : OrderSide → Bool) (o : TradeOrder) (xs : List TradeOrder)
    → Has o (open_side side xs)
    → Has o xs
open_from side o [] h = h
open_from side o (x ∷ xs) h = elim (Bool-cases (side x.side && not x.cancelled)) [
  | inl kept ↦ elim (rw kept at h) [
    | inl here ↦ inl here
    | inr there ↦ inr (open_from side o xs there)
  ]
  | inr left_out ↦ inr (open_from side o xs (rw left_out at h))
]

open_into :
    (side : OrderSide → Bool) (o : TradeOrder) (xs : List TradeOrder)
    → (side o.side && not o.cancelled) ≡ true
    → Has o xs
    → Has o (open_side side xs)
open_into side o [] k h = h
open_into side o (x ∷ xs) k (inl here) =
    rw (ap (λ y. side y.side && not y.cancelled) here ∙ k) (inl here)
open_into side o (x ∷ xs) k (inr there) = elim (Bool-cases (side x.side && not x.cancelled)) [
  | inl kept ↦ rw kept (inr (open_into side o xs k there))
  | inr left_out ↦ rw left_out (open_into side o xs k there)
]

-- What a match is, of the orders of two lists.
abbrev IsMatch : List TradeOrder → List TradeOrder → ℕ → Match → Type 0
IsMatch sells buys now m =
    Has m.sell_order sells
    × Has m.buy_order buys
    × (orders_price_match m.sell_order m.buy_order now ≡ true)
    × (m.clearing_price ≡ m.sell_order.price)

buys_found :
    (s : TradeOrder) (bs : List TradeOrder) (now : ℕ) (m : Match)
    → match_buys s bs now ≡ some m
    → (m.sell_order ≡ s)
      × Has m.buy_order bs
      × (orders_price_match m.sell_order m.buy_order now ≡ true)
      × (m.clearing_price ≡ m.sell_order.price)
unfolding match_buys
buys_found s [] now m h = cc
buys_found s (b ∷ bs) now m h = elim (Bool-cases (orders_price_match s b now)) [
  | inl fits ↦ let e = some_injective (rw fits at h) in rw (← e) (refl, inl refl, fits, refl)
  | inr apart ↦ let (a, has, c, d) = buys_found s bs now m (rw apart at h) in (a, inr has, c, d)
]

buys_none :
    (s : TradeOrder) (bs : List TradeOrder) (now : ℕ)
    → match_buys s bs now ≡ none
    → (b : TradeOrder) → Has b bs
    → orders_price_match s b now ≡ false
unfolding match_buys
buys_none s [] now h b has = absurd has
buys_none s (x ∷ bs) now h b has = elim (Bool-cases (orders_price_match s x now)) [
  | inl fits ↦ ground (arith, rw fits at h)
  | inr apart ↦ elim has [
    | inl here ↦ rw (← here) apart
    | inr there ↦ buys_none s bs now (rw apart at h) b there
  ]
]

sells_found :
    (ss bs : List TradeOrder) (now : ℕ) (m : Match)
    → match_sells ss bs now ≡ some m
    → IsMatch ss bs now m
unfolding match_sells
sells_found [] bs now m h = cc
sells_found (s ∷ ss) bs now m h = elim (Option-cases (match_buys s bs now)) [
  | inl e ↦
      let (a, b, c, d) = sells_found ss bs now m (rw (match_sells, e) at h) in (inr a, b, c, d)
  | inr (n, e) ↦
      let (a, b, c, d) = buys_found s bs now m (e ∙ (rw (match_sells, e) at h)) in
      (inl (sym a), b, c, d)
]

sells_none :
    (ss bs : List TradeOrder) (now : ℕ)
    → match_sells ss bs now ≡ none
    → (s b : TradeOrder) → Has s ss
    → Has b bs
    → orders_price_match s b now ≡ false
unfolding match_sells
sells_none [] bs now h s b has hb = absurd has
sells_none (x ∷ ss) bs now h s b has hb = elim (Option-cases (match_buys x bs now)) [
  | inl e ↦ elim has [
    | inl here ↦ rw (← here) (buys_none x bs now e b hb)
    | inr there ↦ sells_none ss bs now (rw (match_sells, e) at h) s b there hb
  ]
  | inr (n, e) ↦ ground (arith, rw (match_sells, e) at h)
]

-- An open sell order and an open buy order of one token for one asset, neither past its deadline,
-- where the buyer's price covers the seller's.
pub record Trades (s b : TradeOrder) (now : ℕ) : Type 0 where
  pub sells : s.side ≡ sell
  pub buys : b.side ≡ buy
  pub sell_open : s.cancelled ≡ false
  pub buy_open : b.cancelled ≡ false
  pub chain_nft : s.chain_nft_id ≡ b.chain_nft_id
  pub contract : s.subject_nft_contract ≡ b.subject_nft_contract
  pub token : s.subject_nft_id ≡ b.subject_nft_id
  pub asset : s.quote_asset ≡ b.quote_asset
  pub sell_in_time : now ≤ s.deadline
  pub buy_in_time : now ≤ b.deadline
  pub covered : s.price ≤ b.price

is_sell-true : (side : OrderSide) → is_sell side ≡ true → side ≡ sell
is_sell-true sell h = refl
is_sell-true buy h = ground arith

is_sell-false : (side : OrderSide) → is_sell side ≡ false → side ≡ buy
is_sell-false buy h = refl
is_sell-false sell h = ground arith

tests_passed :
    (s b : TradeOrder) (now : ℕ)
    → orders_price_match s b now ≡ true
    → ((is_sell s.side ≡ true) × (is_sell b.side ≡ false))
      × ((s.cancelled ≡ false) × (b.cancelled ≡ false))
      × ((now ≤ s.deadline) × (now ≤ b.deadline) × (s.price ≤ b.price))
unfolding orders_price_match
tests_passed s b now h = ground arith

texts_agree :
    (s b : TradeOrder) (now : ℕ)
    → orders_price_match s b now ≡ true
    → (text_beq s.chain_nft_id b.chain_nft_id ≡ true)
      × (text_beq s.subject_nft_contract b.subject_nft_contract ≡ true)
      × (text_beq s.subject_nft_id b.subject_nft_id ≡ true)
      × (text_beq s.quote_asset b.quote_asset ≡ true)
unfolding orders_price_match
texts_agree s b now h = ground arith

match-Trades : (s b : TradeOrder) (now : ℕ) → orders_price_match s b now ≡ true → Trades s b now
match-Trades s b now h =
    let ((sells, buys), (sell_open, buy_open), (sell_in_time, buy_in_time, covered)) =
      tests_passed s b now h in
    let (chain_nft, contract, token, asset) = texts_agree s b now h in
    record {
      sells = is_sell-true s.side sells;
      buys = is_sell-false b.side buys;
      sell_open = sell_open;
      buy_open = buy_open;
      chain_nft = (text_beq_iff s.chain_nft_id b.chain_nft_id).0 chain_nft;
      contract = (text_beq_iff s.subject_nft_contract b.subject_nft_contract).0 contract;
      token = (text_beq_iff s.subject_nft_id b.subject_nft_id).0 token;
      asset = (text_beq_iff s.quote_asset b.quote_asset).0 asset;
      sell_in_time = sell_in_time;
      buy_in_time = buy_in_time;
      covered = covered;
    }

-- Only orders of the right side that are not cancelled match.
open_when :
    (s b : TradeOrder) (now : ℕ)
    → orders_price_match s b now ≡ true
    → ((is_sell s.side && not s.cancelled) ≡ true)
      × ((not (is_sell b.side) && not b.cancelled) ≡ true)
unfolding orders_price_match
open_when s b now h = ground arith

abbrev buying : OrderSide → Bool
buying side = not (is_sell side)

-- A match that is found is of two orders of the pool: an open sell order and an open buy order with the
-- same chain NFT, subject contract, subject token and quote asset, neither past its deadline, where the
-- buyer's price covers the seller's. It clears at the seller's price.
pub found_match_fits :
    (orders : List TradeOrder) (now : ℕ) (m : Match)
    → find_best_match orders now ≡ some m
    → Has m.sell_order orders
      × Has m.buy_order orders
      × Trades m.sell_order m.buy_order now
      × (m.clearing_price ≡ m.sell_order.price)
unfolding find_best_match
found_match_fits orders now m e =
    let sells = open_side is_sell orders in
    let buys = open_side buying orders in
    let (a, b, c, d) = sells_found (sort_orders sells) (sort_orders buys) now m e in
    (
      open_from is_sell m.sell_order orders (sort_from m.sell_order sells a),
      open_from buying m.buy_order orders (sort_from m.buy_order buys b),
      match-Trades m.sell_order m.buy_order now c,
      d,
    )

-- When no match is found, no two orders of the pool match.
pub no_match_missed :
    (orders : List TradeOrder) (now : ℕ)
    → find_best_match orders now ≡ none
    → (s b : TradeOrder) → Has s orders
    → Has b orders
    → orders_price_match s b now ≡ false
unfolding find_best_match
no_match_missed orders now e s b has_s has_b =
    let sells = open_side is_sell orders in
    let buys = open_side buying orders in
    elim (Bool-cases (orders_price_match s b now)) [
      | inr apart ↦ apart
      | inl fits ↦
          let (ks, kb) = open_when s b now fits in
          sells_none (sort_orders sells) (sort_orders buys) now e s b
            (sort_into s sells (open_into is_sell s orders ks has_s))
            (sort_into b buys (open_into buying b orders kb has_b))
    ]
