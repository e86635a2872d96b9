-- ===== src/Currency.antt =====
-- app/pkg/currency/currency.go: the table of currencies, and its lookups. A code is a text in the
-- program.
pub mod Known
use Prim.Native.String.{◌++◌ as append}
use service_platform.Prelude.{
  String, Bool, true, false, Option, none, some, List, [], ◌∷◌, Assoc, lookup,
}

pub record Currency : Type 0 where
  pub code : String
  pub symbol : String

-- `Currency.String`
unfoldable pub text : Currency → String
text c = append c.code (append " (" (append c.symbol ")"))

abbrev entry : String → String → String × Currency
entry code symbol = (code, record { code = code; symbol = symbol })

abbrev pub currency_map : Assoc Currency
currency_map =
    entry "USD" "$"
    ∷ entry "EUR" "€"
    ∷ entry "GBP" "£"
    ∷ entry "JPY" "¥"
    ∷ entry "CHF" "₣"
    ∷ entry "CAD" "C$"
    ∷ entry "AUD" "A$"
    ∷ entry "NZD" "NZ$"
    ∷ entry "SEK" "kr"
    ∷ entry "NOK" "kr"
    ∷ entry "DKK" "kr"
    ∷ entry "PLN" "zł"
    ∷ entry "CZK" "Kč"
    ∷ entry "HUF" "Ft"
    ∷ entry "BGN" "лв"
    ∷ entry "RON" "lei"
    ∷ entry "HRK" "kn"
    ∷ entry "RSD" "дин"
    ∷ entry "UAH" "₴"
    ∷ entry "RUB" "₽"
    ∷ entry "CNY" "¥"
    ∷ entry "KRW" "₩"
    ∷ entry "INR" "₹"
    ∷ entry "SGD" "S$"
    ∷ entry "HKD" "HK$"
    ∷ entry "TWD" "NT$"
    ∷ entry "THB" "฿"
    ∷ entry "MYR" "RM"
    ∷ entry "IDR" "Rp"
    ∷ entry "PHP" "₱"
    ∷ entry "VND" "₫"
    ∷ entry "BRL" "R$"
    ∷ entry "ARS" "$"
    ∷ entry "CLP" "$"
    ∷ entry "COP" "$"
    ∷ entry "PEN" "S/"
    ∷ entry "UYU" "$U"
    ∷ entry "MXN" "$"
    ∷ entry "ZAR" "R"
    ∷ entry "EGP" "£"
    ∷ entry "NGN" "₦"
    ∷ entry "KES" "Sh"
    ∷ entry "MAD" "\u{62f}.\u{645}."
    ∷ entry "TND" "\u{62f}.\u{62a}"
    ∷ entry "SAR" "\u{fdfc}"
    ∷ entry "AED" "\u{62f}.\u{625}"
    ∷ entry "QAR" "\u{631}.\u{642}"
    ∷ entry "KWD" "\u{62f}.\u{643}"
    ∷ entry "BHD" ".\u{62f}.\u{628}"
    ∷ entry "OMR" "\u{631}.\u{639}."
    ∷ entry "JOD" "\u{62f}.\u{627}"
    ∷ entry "LBP" "\u{644}.\u{644}"
    ∷ entry "ILS" "₪"
    ∷ entry "TRY" "₺"
    ∷ entry "IRR" "\u{fdfc}"
    ∷ entry "PKR" "₨"
    ∷ entry "BDT" "৳"
    ∷ entry "LKR" "Rs"
    ∷ entry "NPR" "₨"
    ∷ entry "AFN" "\u{60b}"
    ∷ entry "MMK" "K"
    ∷ entry "LAK" "₭"
    ∷ entry "KHR" "៛"
    ∷ entry "BND" "B$"
    ∷ entry "MNT" "₮"
    ∷ entry "KZT" "₸"
    ∷ entry "UZS" "лв"
    ∷ entry "AMD" "֏"
    ∷ entry "AZN" "₼"
    ∷ entry "GEL" "₾"
    ∷ entry "MDL" "lei"
    ∷ entry "BYN" "Br"
    ∷ entry "ISK" "kr"
    ∷ []

-- The value behind the pointer that `GetCurrency` returns, which is never `nil`: Go's zero value for
-- a key that is missing.
abbrev pub or_zero : Option Currency → Currency
or_zero none = record { code = ""; symbol = "" }
or_zero (some c) = c

unfoldable pub get_currency : String → Currency
get_currency code = or_zero (lookup code currency_map)

unfoldable pub get_all_currencies : Assoc Currency
get_all_currencies = currency_map

-- `currency != nil`, for a pointer that is never `nil`.
unfoldable pub get_currency_by_string : String → Currency × Bool
unfolding get_currency
get_currency_by_string code = (get_currency code, true)

unfoldable pub is_valid_currency : String → Bool
is_valid_currency code = elim (lookup code currency_map) [ none ↦ false | some c ↦ true ]
