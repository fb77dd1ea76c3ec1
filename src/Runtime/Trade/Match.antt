-- ===== src/Runtime/Trade/Match.antt =====
-- runtime/src/shared/tradeMatch.ts: `ordersPriceMatch`, `compareOrderPriority` and `findBestMatch`.
pub mod Best
use co_net_dle.Common.{
  ℕ, ◌≤◌, Bool, true, false, not, ◌&&◌, ◌||◌, Option, none, some, List, [], ◌∷◌, ltb, leb, ◌==◌,
  if◌then◌else◌, Text, text_beq,
}

pub data OrderSide : Type 0 where
  sell buy : OrderSide

-- Addresses and hashes are given in lower case, as `parseTradeOrder` leaves them, so the source's own
-- lower-casing changes nothing. The texts of the price, the amount and the deadline are given as their
-- numbers, as the source compares them; the token's is a text. `created_at` is `Date.parse` of the text,
-- none when that is not finite.
pub record TradeOrder : Type 0 where
  pub side : OrderSide
  pub chain_nft_id : Text
  pub maker : Text
  pub subject_nft_contract : Text
  pub subject_nft_id : Text
  pub quote_asset : Text
  pub price : ℕ
  pub amount : ℕ
  pub deadline : ℕ
  pub order_hash : Text
  pub created_at : Option ℕ
  pub cancelled : Bool

abbrev pub is_sell : OrderSide → Bool
is_sell sell = true
is_sell buy = false

unfoldable pub orders_price_match : TradeOrder → TradeOrder → ℕ → Bool
orders_price_match s b now =
    if s.cancelled || b.cancelled
    then false
    else if not (is_sell s.side) || is_sell b.side
    then false
    else if not (text_beq s.chain_nft_id b.chain_nft_id)
    then false
    else if not (text_beq s.subject_nft_contract b.subject_nft_contract)
    then false
    else if not (text_beq s.subject_nft_id b.subject_nft_id)
    then false
    else if not (text_beq s.quote_asset b.quote_asset)
    then false
    else if ltb s.deadline now || ltb b.deadline now
    then false
    else leb s.price b.price

-- `<` on texts, by code units.
abbrev pub text_lt : Text → Text → Bool
text_lt [] [] = false
text_lt [] (c ∷ t) = true
text_lt (b ∷ s) [] = false
text_lt (b ∷ s) (c ∷ t) = if ltb b c then true else if ltb c b then false else text_lt s t

-- `compareOrderPriority(a, b) <= 0`: `a` stays before `b`.
abbrev pub hash_before : TradeOrder → TradeOrder → Bool
hash_before a b = not (text_lt b.order_hash a.order_hash)

abbrev pub times_before : Option ℕ → Option ℕ → Bool → Bool
times_before (some s) (some t) same = if s == t then same else ltb s t
times_before _ _ same = same

abbrev pub before : TradeOrder → TradeOrder → Bool
before a b = times_before a.created_at b.created_at (hash_before a b)

-- `sort`, which is stable.
unfoldable pub insert_order : TradeOrder → List TradeOrder → List TradeOrder
insert_order a [] = a ∷ []
insert_order a (b ∷ bs) =
    let rest = insert_order a bs in if before a b then a ∷ b ∷ bs else b ∷ rest

unfoldable pub sort_orders : List TradeOrder → List TradeOrder
unfolding insert_order
sort_orders [] = []
sort_orders (a ∷ rest) = insert_order a (sort_orders rest)

abbrev pub open_side : (OrderSide → Bool) → List TradeOrder → List TradeOrder
open_side side [] = []
open_side side (o ∷ os) =
    if side o.side && not o.cancelled then o ∷ open_side side os else open_side side os

pub record Match : Type 0 where
  pub sell_order : TradeOrder
  pub buy_order : TradeOrder
  pub clearing_price : ℕ

-- The inner loop, over the buys.
unfoldable pub match_buys : TradeOrder → List TradeOrder → ℕ → Option Match
match_buys s [] now = none
match_buys s (b ∷ bs) now =
    if not (orders_price_match s b now)
    then match_buys s bs now
    else some (record { sell_order = s; buy_order = b; clearing_price = s.price })

unfoldable pub match_sells : List TradeOrder → List TradeOrder → ℕ → Option Match
unfolding match_buys
match_sells [] buys now = none
match_sells (s ∷ ss) buys now = elim (match_buys s buys now) [
  | some m ↦ some m
  | none ↦ match_sells ss buys now
]

unfoldable pub find_best_match : List TradeOrder → ℕ → Option Match
unfolding match_sells sort_orders
find_best_match orders now =
    match_sells (sort_orders (open_side is_sell orders))
      (sort_orders (open_side (λ s. not (is_sell s)) orders)) now
