-- ===== src/Tests/Runtime.antt =====
-- What Python prints for the same inputs.
use cryptopulse.Prelude.{◌≡◌, refl, String, Bool, true, false, none, some}
use cryptopulse.Prelude.Int.{pos, negsuc}
use cryptopulse.Python.Text.{strip, str_ℕ, str_leb, is_space}
use cryptopulse.Python.Decimal.{div, quantize}
use cryptopulse.Python.Print.{str_decimal}
use cryptopulse.Python.Datetime.{offset, absent}
use cryptopulse.Python.Isoformat.{isoformat}

strip_both_ends : strip "  a b\n" ≡ "a b"
unfolding strip is_space
strip_both_ends = refl

str_of_number : str_ℕ 1203 ≡ "1203"
unfolding str_ℕ
str_of_number = refl

uppercase_first : str_leb "Z" "a" ≡ true
unfolding str_leb
uppercase_first = refl

decimal_scientific :
    str_decimal (record { negative = true; coefficient = 12; exponent = negsuc 8 }) ≡ "-1.2E-8"
unfolding str_decimal
decimal_scientific = refl

-- Decimal(1) / Decimal(3)
third :
    div
      (record { negative = false; coefficient = 1; exponent = pos 0 })
      (record { negative = false; coefficient = 3; exponent = pos 0 })
    ≡ record { negative = false; coefficient = 3333333333333333333333333333; exponent = negsuc 27 }
unfolding div cryptopulse.Prelude.Int.◌-ℤ◌
third = refl

-- Decimal("2.345").quantize(Decimal("0.01"), rounding=ROUND_HALF_UP)
rounded :
    quantize (record { negative = false; coefficient = 2345; exponent = negsuc 2 }) 2
    ≡ some (record { negative = false; coefficient = 235; exponent = negsuc 1 })
unfolding quantize cryptopulse.Prelude.Int.◌-ℤ◌
rounded = refl

new_year_2024 :
    isoformat (record { wall = pos 1704067200123000; tzinfo = offset (pos 0) })
    ≡ "2024-01-01T00:00:00.123000+00:00"
unfolding isoformat
new_year_2024 = refl

leap_day :
    isoformat (record { wall = pos 1709251199000000; tzinfo = offset (negsuc 16199999999) })
    ≡ "2024-02-29T23:59:59-04:30"
unfolding isoformat
leap_day = refl

before_epoch :
    isoformat (record { wall = negsuc 0; tzinfo = absent }) ≡ "1969-12-31T23:59:59.999999"
unfolding isoformat
before_epoch = refl
