-- ===== src/Asset/Tests.antt =====
-- Runs of src/core/asset.ts on concrete texts.
use signbox.Prelude.{◌≡◌, refl, arith}
use signbox.Prelude.Text.{lit}
use signbox.Prelude.Outcome.{ok, err}
use signbox.Errors.{asset}
use signbox.Asset.{
  AssetAmount, BareAmount, parse_asset, format_asset, is_symbol, match_amount, parse_symbol,
  to_units, bare_of,
}
use signbox.Asset.RoundTrip.{IsRepresentable, parse_asset-format_asset}

abbrev half : BareAmount
half = record { units = 5_000; precision = 4 }

abbrev half_xpr : AssetAmount
half_xpr = record { units = 5_000; symbol = lit "XPR"; precision = 4 }

half-IsRepresentable : IsRepresentable half
half-IsRepresentable = record { units_fit = omega arith; precision_fits = omega arith }

reads_half : parse_asset (lit "0.5000 XPR") ≡ ok half_xpr
unfolding parse_asset match_amount parse_symbol is_symbol to_units
reads_half = refl

writes_half : format_asset half_xpr ≡ lit "0.5000 XPR"
unfolding format_asset
writes_half = refl

refuses_sign : parse_asset (lit "-1 XPR") ≡ err asset
unfolding parse_asset match_amount
refuses_sign = refl

parse_asset-format_asset_example : parse_asset (format_asset half_xpr) ≡ ok half_xpr
unfolding is_symbol bare_of
parse_asset-format_asset_example = parse_asset-format_asset half_xpr half-IsRepresentable refl
