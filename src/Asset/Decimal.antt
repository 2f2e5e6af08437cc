-- ===== src/Asset/Decimal.antt =====
-- Decimal numerals as texts: the part of BigInt, `toString` and `padStart` that the amounts use.
use signbox.Prelude.{
  ℕ, zero, suc, ◌+◌, ◌-◌, ◌*◌, ◌/◌, ◌%◌, ◌≤◌, ◌<◌, ◌≡◌, refl, inl, inr, Bool, true, false, ◌&&◌, [],
  ◌∷◌, ◌++◌, arith, ltb, leb, if◌then◌else◌, Bool-cases, length, take, drop, replicate,
  length-append, length-replicate, All, All-append,
}
use signbox.Prelude.Text.{Text}

unfoldable pub is_digit : ℕ → Bool
is_digit c = leb b'0' c && leb c b'9'

-- The longest prefix on which a test passes, and the rest.
unfoldable pub span : (ℕ → Bool) → Text → Text × Text
span p [] = ([], [])
span p (c ∷ s) = let (front, back) = span p s in if p c then (c ∷ front, back) else ([], c ∷ s)

-- BigInt of a run of digits, after the digits already read.
unfoldable pub value_from : ℕ → Text → ℕ
value_from acc [] = acc
value_from acc (c ∷ s) = value_from (acc * 10 + (c - b'0')) s

-- BigInt.prototype.toString; the fuel bounds the number of digits.
unfoldable pub decimal_from : ℕ → ℕ → Text
decimal_from zero n = []
decimal_from (suc f) n =
    let rest = decimal_from f (n / 10) in
    if ltb n 10 then (b'0' + n) ∷ [] else rest ++ ((b'0' + n % 10) ∷ [])

unfoldable pub decimal_text : ℕ → Text
unfolding decimal_from
decimal_text n = decimal_from (suc n) n

-- `s.padStart(n, "0")`.
unfoldable pub pad_start : ℕ → Text → Text
pad_start n s = replicate (n - length s) b'0' ++ s

abbrev pub IsDigits : Text → Type 0
IsDigits s = All (λ c. is_digit c ≡ true) s

-- What a run of characters ends at: the end, or a character that fails the test.
abbrev pub StopsAt : (ℕ → Bool) → Text → Type 0
StopsAt p [] = Unit
StopsAt p (c ∷ s) = p c ≡ false

pub span-append :
    (p : ℕ → Bool) (s t : Text) → All (λ c. p c ≡ true) s → StopsAt p t → span p (s ++ t) ≡ (s, t)
unfolding span
span-append p [] [] h stop = refl
span-append p [] (c ∷ t) h stop = rw stop
span-append p (c ∷ s) t (hc, h) stop = rw (span-append p s t h stop) (rw hc)

pub span-All : (p : ℕ → Bool) (s : Text) → All (λ c. p c ≡ true) (span p s).0
unfolding span
span-All p [] = tt
span-All p (c ∷ s) = ground (arith, span-All p s)

pub value_from-append :
    (acc : ℕ) (s t : Text) → value_from acc (s ++ t) ≡ value_from (value_from acc s) t
unfolding value_from
value_from-append acc [] t = refl
value_from-append acc (c ∷ s) t = value_from-append (acc * 10 + (c - b'0')) s t

value_from-zeros : (n : ℕ) (s : Text) → value_from 0 (replicate n b'0' ++ s) ≡ value_from 0 s
unfolding value_from
value_from-zeros zero s = refl
value_from-zeros (suc n) s = value_from-zeros n s

pub value_from-pad_start : (n : ℕ) (s : Text) → value_from 0 (pad_start n s) ≡ value_from 0 s
unfolding pad_start
value_from-pad_start n s = value_from-zeros (n - length s) s

-- Enough fuel writes the number whole.
value_from-decimal_from : (f n : ℕ) → n < f → value_from 0 (decimal_from f n) ≡ n
unfolding decimal_from
value_from-decimal_from zero n h = elim h [ ]
value_from-decimal_from (suc f) n h = elim (Bool-cases (ltb n 10)) [
  | inl small ↦ rw small (unfold value_from in omega arith)
  | inr large ↦
      let ih = value_from-decimal_from f (n / 10) (ground arith) in
      rw (large, value_from-append) (rw ih (unfold value_from in omega arith))
]

pub value_from-decimal_text : (n : ℕ) → value_from 0 (decimal_text n) ≡ n
unfolding decimal_text
value_from-decimal_text n = value_from-decimal_from (suc n) n (omega arith)

decimal_from-IsDigits : (f n : ℕ) → IsDigits (decimal_from f n)
unfolding decimal_from is_digit
decimal_from-IsDigits zero n = tt
decimal_from-IsDigits (suc f) n = elim (Bool-cases (ltb n 10)) [
  | inl small ↦ rw small (ground arith, tt)
  | inr large ↦ rw large (
      All-append _ (decimal_from f (n / 10)) _ (decimal_from-IsDigits f (n / 10))
        (ground arith, tt))
]

replicate-IsDigits : (n : ℕ) → IsDigits (replicate n b'0')
unfolding is_digit
replicate-IsDigits zero = tt
replicate-IsDigits (suc n) = (refl, replicate-IsDigits n)

pub pad_start-IsDigits : (n m : ℕ) → IsDigits (pad_start n (decimal_text m))
unfolding pad_start decimal_text
pad_start-IsDigits n m =
    All-append _ (replicate (n - length (decimal_text m)) b'0') _ (replicate-IsDigits _)
      (decimal_from-IsDigits (suc m) m)

pub length-pad_start : (n : ℕ) (s : Text) → n ≤ length (pad_start n s)
unfolding pad_start
length-pad_start n s = omega (
  arith,
  length-append (replicate (n - length s) b'0') s,
  length-replicate {A = ℕ} (n - length s) b'0',
)

pub All-take :
    (p : ℕ → Bool) (n : ℕ) (s : Text) → All (λ c. p c ≡ true) s → All (λ c. p c ≡ true) (take n s)
All-take p zero s h = tt
All-take p (suc n) [] h = tt
All-take p (suc n) (c ∷ s) (hc, h) = (hc, All-take p n s h)

pub All-drop :
    (p : ℕ → Bool) (n : ℕ) (s : Text) → All (λ c. p c ≡ true) s → All (λ c. p c ≡ true) (drop n s)
All-drop p zero s h = h
All-drop p (suc n) [] h = tt
All-drop p (suc n) (c ∷ s) (hc, h) = All-drop p n s h
