-- ===== src/Runtime/Trade/Tests.antt =====
-- Matching at concrete orders.
use co_net_dle.Common.{◌≡◌, refl, inl, inr, false, some, [], ◌∷◌}
use co_net_dle.Runtime.Trade.Match.{
  TradeOrder, sell, buy, orders_price_match, insert_order, sort_orders, Match, match_buys,
  match_sells, find_best_match,
}
use co_net_dle.Runtime.Trade.Match.Best.{Has, Trades, found_match_fits, no_match_missed}

abbrev ask : TradeOrder
ask = record {
  side = sell;
  chain_nft_id = 1 ∷ [];
  maker = 2 ∷ [];
  subject_nft_contract = 3 ∷ [];
  subject_nft_id = 4 ∷ [];
  quote_asset = 5 ∷ [];
  price = 100;
  amount = 1;
  deadline = 1000;
  order_hash = 6 ∷ [];
  created_at = some 10;
  cancelled = false;
}

abbrev bid : TradeOrder
bid = record ask { side = buy; price = 120; order_hash = 7 ∷ []; created_at = some 20 }

abbrev low_bid : TradeOrder
low_bid = record bid { price = 90; created_at = some 15 }

abbrev matched : Match
matched = record { sell_order = ask; buy_order = bid; clearing_price = 100 }

found_match_fits_example :
    Has ask (low_bid ∷ bid ∷ ask ∷ [])
    × Has bid (low_bid ∷ bid ∷ ask ∷ [])
    × Trades ask bid 500
    × (100 ≡ ask.price)
unfolding find_best_match match_sells match_buys orders_price_match sort_orders insert_order
found_match_fits_example = found_match_fits (low_bid ∷ bid ∷ ask ∷ []) 500 matched refl

no_match_missed_example : orders_price_match ask low_bid 500 ≡ false
unfolding find_best_match match_sells match_buys orders_price_match sort_orders insert_order
no_match_missed_example =
    no_match_missed (low_bid ∷ ask ∷ []) 500 refl ask low_bid (inr (inl refl)) (inl refl)
