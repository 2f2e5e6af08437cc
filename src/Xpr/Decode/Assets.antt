-- ===== src/Xpr/Decode/Assets.antt =====
-- The asset strings of an action's data, as the decoder expands them.
use signbox.Prelude.{
  ℕ, ◌≤◌, ◌≡◌, refl, sym, ap, ◌∙◌, subst, inl, inr, Bool, true, false, ◌&&◌, none, some, [], ◌∷◌,
  ◌++◌, append_assoc, arith, ◌==◌, ==_iff, &&_iff, Bool-cases, Option-cases, length,
}
use signbox.Prelude.Text.{Text, lit}
use signbox.Value.{nat, Value, num, str, obj, end, field}
use signbox.Asset.Decimal.{is_digit, span, span-All, IsDigits}
use signbox.Asset.{AmountMatch, no_frac, after_dot, match_frac, after_int, match_amount, is_symbol}
use signbox.Asset.RoundTrip.{Ends, match_amount-plain, match_amount-frac}
use signbox.Xpr.Decode.{
  frac_length, amount_text, quantity_value, expand_rest, expand_match, expand_asset_string,
}

-- Digits, or digits on both sides of a dot, with the number of those behind it.
pub data IsAmount : Text → ℕ → Type 0 where
  whole : (s : Text) → IsDigits s → 1 ≤ length s → IsAmount s 0
  decimal :
      (s f : Text)
      → IsDigits s
      → 1 ≤ length s
      → IsDigits f
      → 1 ≤ length f
      → IsAmount (s ++ (b'.' ∷ f)) (length f)

-- An amount, a blank and a symbol.
pub record IsAsset (s amount symbol : Text) (precision : ℕ) : Type 0 where
  pub amount_form : IsAmount amount precision
  pub symbol_form : is_symbol symbol ≡ true
  pub whole_text : s ≡ amount ++ (b' ' ∷ symbol)

abbrev pub quantity : Text → Text → ℕ → Value
quantity amount symbol precision = obj (
    field (lit "amount") (str amount)
      (field (lit "symbol") (str symbol) (field (lit "precision") (num (nat precision)) end)))

-- An asset string becomes the quantity that it writes; any other text stays.
pub data IsExpanded (s : Text) : Value → Type 0 where
  expanded :
      (amount symbol : Text) (precision : ℕ)
      → IsAsset s amount symbol precision
      → IsExpanded s (quantity amount symbol precision)
  plain :
      ((amount symbol : Text) (precision : ℕ) → ¬ IsAsset s amount symbol precision)
      → IsExpanded s (str s)

span-++ : (p : ℕ → Bool) (s : Text) → s ≡ (span p s).0 ++ (span p s).1
unfolding span
span-++ p [] = refl
span-++ p (c ∷ s) = elim (Bool-cases (p c)) [
  | inl good ↦ rw good (ap (λ t. c ∷ t) (span-++ p s))
  | inr bad ↦ rw bad refl
]

-- What a match says of the text.
record IsMatch (s : Text) (m : AmountMatch) : Type 0 where
  pub form : IsAmount (amount_text m.int_part m.frac_part) (frac_length m.frac_part)
  pub text : s ≡ amount_text m.int_part m.frac_part ++ m.rest

no_frac-IsMatch : (d rest : Text) → IsDigits d → 1 ≤ length d → IsMatch (d ++ rest) (no_frac d rest)
unfolding no_frac amount_text frac_length
no_frac-IsMatch d rest h n = record { form = whole d h n; text = refl }

after_dot-IsMatch :
    (d s frac rest : Text)
    → IsDigits d
    → 1 ≤ length d
    → IsDigits frac
    → s ≡ frac ++ rest
    → IsMatch (d ++ (b'.' ∷ s)) (after_dot d s frac rest)
unfolding after_dot amount_text frac_length
after_dot-IsMatch d s [] rest h n k e = no_frac-IsMatch d (b'.' ∷ s) h n
after_dot-IsMatch d s (f ∷ frac) rest h n k e = record {
  form = decimal d (f ∷ frac) h n k (omega arith);
  text = ap (λ t. d ++ (b'.' ∷ t)) e ∙ sym (append_assoc d (b'.' ∷ (f ∷ frac)) rest);
}

match_frac-IsMatch : (d s : Text) → IsDigits d → 1 ≤ length d → IsMatch (d ++ s) (match_frac d s)
unfolding match_frac
match_frac-IsMatch d [] h n = no_frac-IsMatch d [] h n
match_frac-IsMatch d (c ∷ s) h n = elim (Bool-cases (c == b'.')) [
  | inl dot ↦
      rw (dot, (==_iff c b'.').0 dot)
        (after_dot-IsMatch d s (span is_digit s).0 (span is_digit s).1 h n (span-All is_digit s)
          (span-++ is_digit s))
  | inr differs ↦ rw differs (no_frac-IsMatch d (c ∷ s) h n)
]

after_int-IsMatch :
    (d rest : Text) (m : AmountMatch)
    → IsDigits d
    → after_int d rest ≡ some m
    → IsMatch (d ++ rest) m
unfolding after_int
after_int-IsMatch [] rest m h e = absurd (cc e)
after_int-IsMatch (c ∷ d) rest m h e =
    let same : match_frac (c ∷ d) rest ≡ m = cc e in
    subst (IsMatch ((c ∷ d) ++ rest)) same (match_frac-IsMatch (c ∷ d) rest h (omega arith))

match_amount-IsMatch : (s : Text) (m : AmountMatch) → match_amount s ≡ some m → IsMatch s m
unfolding match_amount
match_amount-IsMatch s m e =
    rw (span-++ is_digit s)
      (after_int-IsMatch (span is_digit s).0 (span is_digit s).1 m (span-All is_digit s) e)

blank-Ends : (symbol : Text) → Ends (b' ' ∷ symbol)
unfolding is_digit
blank-Ends symbol = (refl, refl)

match-expands :
    (s : Text) (m : AmountMatch) (symbol : Text)
    → match_amount s ≡ some m
    → m.rest ≡ b' ' ∷ symbol
    → is_symbol symbol ≡ true
    → expand_asset_string s
      ≡ quantity (amount_text m.int_part m.frac_part) symbol (frac_length m.frac_part)
unfolding expand_asset_string expand_match expand_rest quantity_value
match-expands s m symbol e blank upper =
    ap (expand_match s) e ∙ ap (expand_rest s m) blank ∙ rw upper refl

-- The expansion of an asset string is its quantity.
amount-expands :
    (amount symbol : Text) (precision : ℕ)
    → IsAmount amount precision
    → is_symbol symbol ≡ true
    → expand_asset_string (amount ++ (b' ' ∷ symbol)) ≡ quantity amount symbol precision
unfolding amount_text frac_length
amount-expands _ symbol _ (whole s h n) upper =
    match-expands (s ++ (b' ' ∷ symbol)) _ symbol
      (match_amount-plain s (b' ' ∷ symbol) h n (blank-Ends symbol)) refl upper
amount-expands _ symbol _ (decimal s f h n k m) upper =
    ap expand_asset_string (append_assoc s (b'.' ∷ f) (b' ' ∷ symbol))
    ∙ match-expands (s ++ (b'.' ∷ (f ++ (b' ' ∷ symbol)))) _ symbol
        (match_amount-frac s f (b' ' ∷ symbol) h n k m (blank-Ends symbol)) refl upper

asset-expands :
    (s amount symbol : Text) (precision : ℕ)
    → IsAsset s amount symbol precision
    → expand_asset_string s ≡ quantity amount symbol precision
asset-expands s amount symbol precision h =
    rw h.whole_text (amount-expands amount symbol precision h.amount_form h.symbol_form)

not_quantity :
    (s amount symbol : Text) (precision : ℕ) → ¬ (str s ≡ quantity amount symbol precision)
not_quantity s amount symbol precision e = cc e

unmatched-expands : (s : Text) → match_amount s ≡ none → expand_asset_string s ≡ str s
unfolding expand_asset_string expand_match
unmatched-expands s e = ap (expand_match s) e

nothing-expands :
    (s : Text) (m : AmountMatch)
    → match_amount s ≡ some m
    → m.rest ≡ []
    → expand_asset_string s ≡ str s
unfolding expand_asset_string expand_match expand_rest
nothing-expands s m e at_end = ap (expand_match s) e ∙ ap (expand_rest s m) at_end

other-expands :
    (s : Text) (m : AmountMatch) (c : ℕ) (symbol : Text)
    → match_amount s ≡ some m
    → m.rest ≡ c ∷ symbol
    → (c == b' ' && is_symbol symbol) ≡ false
    → expand_asset_string s ≡ str s
unfolding expand_asset_string expand_match expand_rest
other-expands s m c symbol e behind bad =
    ap (expand_match s) e ∙ ap (expand_rest s m) behind ∙ rw bad refl

rest-IsExpanded :
    (s : Text) (m : AmountMatch) (rest : Text)
    → match_amount s ≡ some m
    → m.rest ≡ rest
    → IsExpanded s (expand_rest s m rest)
unfolding expand_rest quantity_value
rest-IsExpanded s m [] e at_end = plain (λ amount symbol precision h.
    not_quantity s amount symbol precision
      (sym (nothing-expands s m e at_end) ∙ asset-expands s amount symbol precision h))
rest-IsExpanded s m (c ∷ symbol) e behind = elim (Bool-cases (c == b' ' && is_symbol symbol)) [
  | inl good ↦
      let (blank, upper) = (&&_iff (c == b' ') (is_symbol symbol)).0 good in
      let found = match_amount-IsMatch s m e in
      rw good (
        expanded (amount_text m.int_part m.frac_part) symbol (frac_length m.frac_part) (record {
          amount_form = found.form;
          symbol_form = upper;
          whole_text =
              found.text
              ∙ ap (λ t. amount_text m.int_part m.frac_part ++ t)
                  (behind ∙ ap (λ k. k ∷ symbol) ((==_iff c b' ').0 blank));
        }))
  | inr bad ↦ rw bad (
      plain (λ amount symbol' precision h. not_quantity s amount symbol' precision (
        sym (other-expands s m c symbol e behind bad)
        ∙ asset-expands s amount symbol' precision h)))
]

pub expand_asset_string-IsExpanded : (s : Text) → IsExpanded s (expand_asset_string s)
unfolding expand_asset_string expand_match
expand_asset_string-IsExpanded s = elim (Option-cases (match_amount s)) [
  | inl missing ↦
      subst (λ o. IsExpanded s (expand_match s o)) (sym missing)
        (plain (λ amount symbol precision h.
          not_quantity s amount symbol precision
            (sym (unmatched-expands s missing) ∙ asset-expands s amount symbol precision h)))
  | inr (m, found) ↦
      subst (λ o. IsExpanded s (expand_match s o)) (sym found)
        (rest-IsExpanded s m m.rest found refl)
]
