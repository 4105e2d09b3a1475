-- ===== src/Producer/Preparation/Match/Correspondence.antt =====
-- How a match message and the event that was prepared from it correspond.
use Prim.Native.String
use mathlib.Core.Path.{subst}
use cryptopulse.Prelude.{◌≡◌, refl, sym, ap, ◌∙◌, String, Bool, true, false, not, some, arith}
use cryptopulse.Python.Text.{is_empty}
use cryptopulse.Python.Decimal.{finite}
use cryptopulse.Python.Decimal.Parse.{parse_decimal}
use cryptopulse.Python.Datetime.{Datetime, is_naive, instant, from_instant}
use cryptopulse.Python.Value.{Fields, trade, text, object, side_value}
use cryptopulse.Contracts.Events.{InternalEvent}
use cryptopulse.Warehouse.World.{ok}
use cryptopulse.Producer.Settings.{get, is_match_type}
use cryptopulse.Producer.Raising.{bound, passed}
use cryptopulse.Producer.Preparation.{
  Runtime, str, with_offset, require, to_side, non_empty, to_utc_datetime, to_decimal,
  field_decimal,
}
use cryptopulse.Producer.Preparation.Parts.{
  require-eq-ok, to_side-eq-ok, non_empty-eq-ok, field_decimal-eq-ok, to_decimal-eq-ok,
  to_utc_datetime-eq-ok,
}
use cryptopulse.Producer.Preparation.Match.{is_match, prepare}

-- What each field of the event has to do with the raw payload.
pub record Corresponds (runtime : Runtime) (raw : Fields) (e : InternalEvent) : Type 0 where
  pub kind : is_match_type (get "type" raw) ≡ true
  pub event_id : e.event_id ≡ String.◌++◌ "coinbase:" e.trade_id
  pub source : e.source ≡ "coinbase"
  pub event_type : e.event_type ≡ trade
  pub received_at : e.received_at ≡ runtime.now
  pub symbol : get "product_id" raw ≡ text e.symbol
  pub symbol_given : is_empty e.symbol ≡ false
  pub trade_id : e.trade_id ≡ str runtime (get "trade_id" raw)
  pub trade_id_given : is_empty e.trade_id ≡ false
  pub side : str runtime (get "side" raw) ≡ side_value e.side
  pub price : parse_decimal runtime.digit (str runtime (get "price" raw)) ≡ some (finite e.price)
  pub quantity :
      parse_decimal runtime.digit (str runtime (get "size" raw)) ≡ some (finite e.quantity)
  pub trade_timestamp :
      (s : String) × (parsed : Datetime) × (get "time" raw ≡ text s)
      × (runtime.fromisoformat (with_offset s) ≡ some parsed)
      × (is_naive parsed ≡ false)
      × (e.trade_timestamp ≡ from_instant (instant parsed))
  pub payload : e.payload ≡ raw

is_match-eq-ok :
    (raw : Fields) {known : Bool} → is_match raw ≡ ok known → known ≡ is_match_type (get "type" raw)
unfolding is_match
is_match-eq-ok raw h = ground arith

ok-injective {ℓ} : {A : Type ℓ} {a b : A} → ok a ≡ ok b → a ≡ b
ok-injective h = cc

of_not : (b : Bool) → not b ≡ false → b ≡ true
of_not b h = ground arith

-- If a raw payload is prepared, then it is a match message, and each field of the event is the
-- conversion of its own field of the payload: the identity is made from the trade's number alone,
-- the time is in UTC, the numbers are those that the texts denote, digit for digit, and the payload
-- is kept as it was.
pub prepare-Corresponds :
    (runtime : Runtime) (raw : Fields) (e : InternalEvent)
    → prepare runtime (object raw) ≡ ok e
    → Corresponds runtime raw e
unfolding prepare
prepare-Corresponds runtime raw e h = bound (is_match raw) _ h λ known matched h1.
    passed (not known) _ _ h1 λ is h2. bound (require raw "side") _ h2 λ raw_side found_side h3.
      bound (to_side (str runtime raw_side)) _ h3 λ side to_side h4.
        bound (require raw "product_id") _ h4 λ raw_product found_product h5.
          bound (non_empty "product_id" raw_product) _ h5 λ product to_product h6.
            bound (require raw "trade_id") _ h6 λ raw_trade found_trade h7.
              passed (is_empty (str runtime raw_trade)) _ _ h7 λ given h8.
                bound (to_utc_datetime runtime raw "time") _ h8 λ time to_time h9.
                  bound (to_decimal runtime raw "price") _ h9 λ price to_price h10.
                    bound (to_decimal runtime raw "size") _ h10 λ quantity to_quantity h11.
                      bound (field_decimal price) _ h11 λ price' finite_price h12.
                        bound (field_decimal quantity) _ h12 λ quantity' finite_quantity h13.
                          subst (Corresponds runtime raw) (ok-injective h13) (record {
                            kind = sym (is_match-eq-ok raw matched) ∙ of_not known is;
                            event_id = refl;
                            source = refl;
                            event_type = refl;
                            received_at = refl;
                            symbol =
                                require-eq-ok raw "product_id" found_product
                                ∙ (non_empty-eq-ok "product_id" raw_product to_product).0;
                            symbol_given = (non_empty-eq-ok "product_id" raw_product to_product).1;
                            trade_id =
                                ap (str runtime) (sym (require-eq-ok raw "trade_id" found_trade));
                            trade_id_given = given;
                            side =
                                ap (str runtime) (require-eq-ok raw "side" found_side)
                                ∙ to_side-eq-ok (str runtime raw_side) to_side;
                            price =
                                to_decimal-eq-ok runtime raw "price" to_price
                                ∙ ap some (field_decimal-eq-ok price finite_price);
                            quantity =
                                to_decimal-eq-ok runtime raw "size" to_quantity
                                ∙ ap some (field_decimal-eq-ok quantity finite_quantity);
                            trade_timestamp = to_utc_datetime-eq-ok runtime raw "time" to_time;
                            payload = refl;
                          })
