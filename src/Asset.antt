-- ===== src/Asset.antt =====
-- src/core/asset.ts: amounts as integers of minimal units.
pub mod Decimal
pub mod RoundTrip
pub mod Tests
use signbox.Prelude.{
  ℕ, zero, suc, ◌+◌, ◌-◌, ◌*◌, ◌/◌, ◌%◌, ◌^◌, ◌≤◌, ◌<◌, max, String, ◌≡◌, refl, sym, ap, ◌∙◌, subst,
  ◌≡⟨◌⟩◌, ◌∎, fun_ext, ◌≢◌, ◌↔◌, ◌⊎◌, inl, inr, Bool, true, false, not, ◌&&◌, ◌||◌, Option, none,
  some, List, [], ◌∷◌, ◌++◌, map, append-nil, append_assoc, arith, ltb, leb, ◌==◌, if◌then◌else◌,
  ==_iff, leb_iff, &&_iff, Bool-cases, Option-cases, length, take, drop, replicate, length-append,
  length-replicate, take-append-drop, length-drop, keep, any, every, All, Any, All-append, All-map,
  every_iff, any_iff, any-false,
}
use signbox.Prelude.Text.{
  Text, lit, text_eq, text_eq_iff, text_eq_refl, starts_with, includes, split, text_mem, lookup,
  insert, lookup-insert, remove, lookup-remove,
}
use signbox.Prelude.Outcome.{Outcome, ok, err, ◌>>=◌, >>=-eq-ok, Outcome-cases, find_ok}
use signbox.Errors.{Thrown, asset}
use signbox.Asset.Decimal.{is_digit, span, value_from, decimal_text, pad_start}

abbrev pub max_asset_units : ℕ
max_asset_units = 2 ^ 62 - 1

abbrev pub max_precision : ℕ
max_precision = 18

pub record AssetAmount : Type 0 where
  pub units : ℕ
  pub symbol : Text
  pub precision : ℕ

pub record BareAmount : Type 0 where
  pub units : ℕ
  pub precision : ℕ

-- The part of `ASSET_RE` and `BARE_AMOUNT_RE` that both share, `(\d+)(?:\.(\d+))?`, and what is
-- left behind it. A digit, a dot, a blank and the end exclude one another, so that the greedy
-- reading is the only one.
pub record AmountMatch : Type 0 where
  pub int_part : Text
  pub frac_part : Option Text
  pub rest : Text

unfoldable pub no_frac : Text → Text → AmountMatch
no_frac int_part rest = record { int_part = int_part; frac_part = none; rest = rest }

unfoldable pub after_dot : Text → Text → Text → Text → AmountMatch
unfolding no_frac
after_dot int_part s [] rest = no_frac int_part (b'.' ∷ s)
after_dot int_part s (d ∷ frac) rest = record {
  int_part = int_part;
  frac_part = some (d ∷ frac);
  rest = rest;
}

unfoldable pub match_frac : Text → Text → AmountMatch
unfolding no_frac after_dot span is_digit
match_frac int_part [] = no_frac int_part []
match_frac int_part (c ∷ s) =
    let (frac, rest) = span is_digit s in
    if c == b'.' then after_dot int_part s frac rest else no_frac int_part (c ∷ s)

unfoldable pub after_int : Text → Text → Option AmountMatch
unfolding match_frac
after_int [] rest = none
after_int (d ∷ int_part) rest = some (match_frac (d ∷ int_part) rest)

unfoldable pub match_amount : Text → Option AmountMatch
unfolding after_int span is_digit
match_amount s = let (int_part, rest) = span is_digit s in after_int int_part rest

is_upper : ℕ → Bool
is_upper c = leb b'A' c && leb c b'Z'

-- `SYMBOL_RE`: 1 to 7 uppercase ASCII letters.
unfoldable pub is_symbol : Text → Bool
unfolding is_upper
is_symbol s = every is_upper s && leb 1 (length s) && leb (length s) 7

frac_text : Option Text → Text
frac_text none = []
frac_text (some frac) = frac

unfoldable pub to_units : Text → Option Text → Outcome Thrown BareAmount
unfolding frac_text value_from
to_units int_part frac_part =
    let precision = length (frac_text frac_part) in
    let units = value_from 0 (int_part ++ frac_text frac_part) in
    if ltb max_precision precision
    then err asset
    else if ltb max_asset_units units
    then err asset
    else ok (record { units = units; precision = precision })

with_symbol : Text → BareAmount → AssetAmount
with_symbol symbol bare = record { units = bare.units; symbol = symbol; precision = bare.precision }

unfoldable pub parse_symbol : AmountMatch → Text → Outcome Thrown AssetAmount
unfolding with_symbol
parse_symbol m [] = err asset
parse_symbol m (c ∷ symbol) =
    if c == b' ' && is_symbol symbol
    then (do bare ← to_units m.int_part m.frac_part; ok (with_symbol symbol bare))
    else err asset

unfoldable pub parse_asset : Text → Outcome Thrown AssetAmount
parse_asset input = elim (match_amount input) [ none ↦ err asset | some m ↦ parse_symbol m m.rest ]

unfoldable pub parse_end : AmountMatch → Text → Outcome Thrown BareAmount
parse_end m [] = to_units m.int_part m.frac_part
parse_end m (_ ∷ _) = err asset

unfoldable pub parse_bare_amount : Text → Outcome Thrown BareAmount
parse_bare_amount input = elim (match_amount input) [
  | none ↦ err asset
  | some m ↦ parse_end m m.rest
]

pub format_bare_amount : BareAmount → Text
unfolding decimal_text pad_start
format_bare_amount amount =
    let digits = pad_start (amount.precision + 1) (decimal_text amount.units) in
    if amount.precision == 0
    then digits
    else take (length digits - amount.precision) digits
      ++ (b'.' ∷ drop (length digits - amount.precision) digits)

abbrev pub bare_of : AssetAmount → BareAmount
bare_of a = record { units = a.units; precision = a.precision }

pub format_asset : AssetAmount → Text
unfolding format_bare_amount
format_asset a = format_bare_amount (bare_of a) ++ (b' ' ∷ a.symbol)

-- The result of a comparison, -1, 0 or 1.
pub data Sign : Type 0 where
  less equal greater : Sign

pub compare_units : ℕ → ℕ → Sign
compare_units a b = if ltb a b then less else if ltb b a then greater else equal

pub compare_bare_amounts : BareAmount → BareAmount → Outcome Thrown Sign
unfolding compare_units
compare_bare_amounts a b =
    if a.precision == b.precision then ok (compare_units a.units b.units) else err asset

pub compare_assets : AssetAmount → AssetAmount → Outcome Thrown Sign
unfolding compare_bare_amounts text_eq
compare_assets a b =
    if text_eq a.symbol b.symbol then compare_bare_amounts (bare_of a) (bare_of b) else err asset

-- Everything above, opened for a run at concrete texts.
pub asset_code : Unit {0}
unfolding parse_asset parse_bare_amount match_amount parse_symbol parse_end to_units is_symbol
asset_code = tt

parses :
    parse_asset (lit "1000.0000 XPR")
    ≡ ok (record { units = 10000000; symbol = lit "XPR"; precision = 4 })
unfolding asset_code
parses = refl

refuses : parse_asset (lit "1000.0000  XPR") ≡ err asset
unfolding asset_code
refuses = refl

refuses_dot : parse_asset (lit "1000. XPR") ≡ err asset
unfolding asset_code
refuses_dot = refl

formats : format_asset (record { units = 5; symbol = lit "XPR"; precision = 4 }) ≡ lit "0.0005 XPR"
unfolding format_asset
formats = refl
