-- ===== src/Asset/RoundTrip.antt =====
-- Parsing after formatting, and what a parsed amount satisfies.
use signbox.Prelude.{
  ℕ, zero, suc, ◌+◌, ◌-◌, ◌≤◌, ◌≡◌, refl, ap, ◌∙◌, inl, inr, true, false, none, some, [], ◌∷◌, ◌++◌,
  append-nil, append_assoc, arith, ◌==◌, Bool-cases, Option-cases, length, take, drop,
  take-append-drop, length-drop,
}
use signbox.Prelude.Text.{Text, split}
use signbox.Prelude.Outcome.{ok}
use signbox.Asset.Decimal.{
  is_digit, span-append, value_from, decimal_text, pad_start, IsDigits, StopsAt,
  value_from-pad_start, value_from-decimal_text, pad_start-IsDigits, length-pad_start, All-take,
  All-drop,
}
use signbox.Asset.{
  AssetAmount, BareAmount, AmountMatch, match_amount, match_frac, max_asset_units, max_precision,
  is_symbol, to_units, parse_asset, parse_symbol, with_symbol, parse_bare_amount, parse_end,
  format_asset, format_bare_amount, bare_of,
}

-- What may stand behind an amount: neither a digit nor a dot.
abbrev pub Ends : Text → Type 0
Ends [] = Unit
Ends (c ∷ s) = (is_digit c ≡ false) × ((c == b'.') ≡ false)

Ends-StopsAt : (t : Text) → Ends t → StopsAt is_digit t
Ends-StopsAt [] h = tt
Ends-StopsAt (c ∷ t) h = h.0

match_frac-Ends :
    (s t : Text) → Ends t → match_frac s t ≡ record { int_part = s; frac_part = none; rest = t }
unfolding match_frac
match_frac-Ends s [] h = refl
match_frac-Ends s (c ∷ t) h = rw h.1

pub match_amount-plain :
    (s t : Text)
    → IsDigits s
    → 1 ≤ length s
    → Ends t
    → match_amount (s ++ t) ≡ some (record { int_part = s; frac_part = none; rest = t })
unfolding match_amount
match_amount-plain [] t h n e = absurd (omega arith)
match_amount-plain (d ∷ s) t h n e =
    rw (span-append is_digit (d ∷ s) t h (Ends-StopsAt t e)) (ap some (match_frac-Ends (d ∷ s) t e))

match_frac-dot :
    (s f t : Text)
    → IsDigits f
    → 1 ≤ length f
    → Ends t
    → match_frac s (b'.' ∷ (f ++ t)) ≡ record { int_part = s; frac_part = some f; rest = t }
unfolding match_frac
match_frac-dot s [] t h n e = absurd (omega arith)
match_frac-dot s (d ∷ f) t h n e = rw (span-append is_digit (d ∷ f) t h (Ends-StopsAt t e))

pub match_amount-frac :
    (s f t : Text)
    → IsDigits s
    → 1 ≤ length s
    → IsDigits f
    → 1 ≤ length f
    → Ends t
    → match_amount (s ++ (b'.' ∷ (f ++ t)))
      ≡ some (record { int_part = s; frac_part = some f; rest = t })
unfolding match_amount
match_amount-frac [] f t h n k m e = absurd (omega arith)
match_amount-frac (d ∷ s) f t h n k m e =
    rw (span-append is_digit (d ∷ s) (b'.' ∷ (f ++ t)) h (unfold is_digit in refl))
      (ap some (match_frac-dot (d ∷ s) f t k m e))

-- An amount that has a text of its own: within the bounds of the parser.
pub record IsRepresentable (b : BareAmount) : Type 0 where
  pub units_fit : b.units ≤ max_asset_units
  pub precision_fits : b.precision ≤ max_precision

take-pos : (n : ℕ) (s : Text) → 1 ≤ n → 1 ≤ length s → 1 ≤ length (take n s)
take-pos zero s h k = h
take-pos (suc n) [] h k = k
take-pos (suc n) (c ∷ s) h k = omega arith

-- The two parts that `format_bare_amount` writes.
module _ (b : BareAmount) where
  digits : Text
  digits = pad_start (b.precision + 1) (decimal_text b.units)

  abbrev point : ℕ
  point = length digits - b.precision

  value_from-digits : value_from 0 (take point digits ++ drop point digits) ≡ b.units
  unfolding digits
  value_from-digits = rw (take-append-drop point digits) (
      value_from-pad_start (b.precision + 1) (decimal_text b.units)
      ∙ value_from-decimal_text b.units)

  length-digits : b.precision + 1 ≤ length digits
  unfolding digits
  length-digits = length-pad_start (b.precision + 1) (decimal_text b.units)

  digits-IsDigits : IsDigits digits
  unfolding digits
  digits-IsDigits = pad_start-IsDigits (b.precision + 1) b.units

  length-frac : length (drop point digits) ≡ b.precision
  length-frac = omega (arith, length-drop {A = ℕ} point digits, length-digits)

  length-int : 1 ≤ length (take point digits)
  length-int = take-pos point digits (omega (arith, length-digits)) (omega (arith, length-digits))

  -- What the expression reads back of the formatted amount, whatever ends it.
  abbrev IsReadBack : Text → Type 0
  IsReadBack t =
      (m : AmountMatch) × (match_amount (format_bare_amount b ++ t) ≡ some m)
      × (m.rest ≡ t)
      × (IsRepresentable b → to_units m.int_part m.frac_part ≡ ok b)

  IsReadBack-whole : (t : Text) → Ends t → (b.precision == 0) ≡ true → IsReadBack t
  unfolding format_bare_amount digits to_units
  IsReadBack-whole t e whole = (
    record { int_part = digits; frac_part = none; rest = t },
    rw whole (match_amount-plain digits t digits-IsDigits (omega (arith, length-digits)) e),
    refl,
    λ h. rw (append-nil digits) (
        rw (value_from-pad_start (b.precision + 1) (decimal_text b.units))
          (rw (value_from-decimal_text b.units) (ground (arith, h.units_fit)))),
  )

  IsReadBack-split : (t : Text) → Ends t → (b.precision == 0) ≡ false → IsReadBack t
  unfolding format_bare_amount digits to_units
  IsReadBack-split t e split = (
    record { int_part = take point digits; frac_part = some (drop point digits); rest = t },
    rw split (
        rw append_assoc (
          match_amount-frac (take point digits) (drop point digits) t
            (All-take is_digit point digits digits-IsDigits) length-int
            (All-drop is_digit point digits digits-IsDigits) (ground (arith, length-frac)) e)),
    refl,
    λ h. rw value_from-digits (rw length-frac (ground (arith, h.units_fit, h.precision_fits))),
  )

  read_back : (t : Text) → Ends t → IsReadBack t
  read_back t e = elim (Bool-cases (b.precision == 0)) [
    | inl whole ↦ IsReadBack-whole t e whole
    | inr split ↦ IsReadBack-split t e split
  ]

-- Parsing a formatted bare amount gives it back, for units of at most 2^62 - 1 and a precision of
-- at most 18.
pub parse_bare_amount-format_bare_amount :
    (b : BareAmount) → IsRepresentable b → parse_bare_amount (format_bare_amount b) ≡ ok b
unfolding parse_bare_amount parse_end
parse_bare_amount-format_bare_amount b h =
    let (m, matched, ended, units) = read_back b [] tt in
    let reads : match_amount (format_bare_amount b) ≡ some m = rw append-nil at matched in
    rw (reads, parse_bare_amount) (rw (ended, parse_end) (units h))

-- Parsing a formatted asset gives it back: units of at most 2^62 - 1, a precision of at most 18,
-- and a symbol of 1 to 7 letters A to Z.
pub parse_asset-format_asset :
    (a : AssetAmount)
    → IsRepresentable (bare_of a)
    → is_symbol a.symbol ≡ true
    → parse_asset (format_asset a) ≡ ok a
unfolding parse_asset parse_symbol format_asset
parse_asset-format_asset a h sym_ok =
    let (m, matched, ended, units) =
      read_back (bare_of a) (b' ' ∷ a.symbol) (unfold is_digit in (refl, refl)) in
    rw (matched, parse_asset) (rw (ended, parse_symbol) (rw sym_ok (rw (units h))))

parse_symbol-bounds :
    (m : AmountMatch) (s : Text) (a : AssetAmount)
    → parse_symbol m s ≡ ok a
    → IsRepresentable (bare_of a) × (is_symbol a.symbol ≡ true)
unfolding parse_symbol to_units with_symbol
parse_symbol-bounds m [] a e = absurd (cc)
parse_symbol-bounds m (c ∷ symbol) a e =
    (record { units_fit = ground arith; precision_fits = ground arith }, ground arith)

-- A text that parses to an asset has units of at most 2^62 - 1, a precision of at most 18 and a
-- symbol of 1 to 7 letters A to Z, and formatting the asset gives a text with the same parse.
pub parse_asset_canonical :
    (input : Text) (a : AssetAmount)
    → parse_asset input ≡ ok a
    → IsRepresentable (bare_of a)
      × (is_symbol a.symbol ≡ true)
      × (parse_asset (format_asset a) ≡ ok a)
unfolding parse_asset
parse_asset_canonical input a e = elim (Option-cases (match_amount input)) [
  | inl missed ↦ absurd (ground arith)
  | inr (m, matched) ↦
      let (fits, symbol) = parse_symbol-bounds m m.rest a (rw (matched, parse_asset) at e) in
      (fits, symbol, parse_asset-format_asset a fits symbol)
]
