-- ===== src/Quota/Totals.antt =====
-- Laws of the sums over a journal.
use signbox.Prelude.{ℕ, ◌+◌, ◌≤◌, ◌≡◌, refl, Bool, false, [], ◌∷◌, ◌++◌, map, arith, keep, All}
use signbox.Quota.{Event, Journal, total}

pub total-append : (w : Event → ℕ) (es fs : Journal) → total w (es ++ fs) ≡ total w es + total w fs
unfolding total
total-append w [] fs = omega arith
total-append w (e ∷ es) fs = omega (arith, total-append w es fs)

pub total-le :
    (w v : Event → ℕ) (es : Journal) → ((e : Event) → w e ≤ v e) → total w es ≤ total v es
unfolding total
total-le w v [] h = omega arith
total-le w v (e ∷ es) h = omega (arith, h e, total-le w v es h)

pub total-eq : (w v : Event → ℕ) (es : Journal) → All (λ e. w e ≡ v e) es → total w es ≡ total v es
unfolding total
total-eq w v [] h = refl
total-eq w v (e ∷ es) (he, h) = omega (arith, he, total-eq w v es h)

pub total-map :
    (w : Event → ℕ) (f : Event → Event) (es : Journal)
    → total w (map f es) ≡ total (λ e. w (f e)) es
unfolding total
total-map w f [] = refl
total-map w f (e ∷ es) = omega (arith, total-map w f es)

pub total-keep-le :
    (w : Event → ℕ) (p : Event → Bool) (es : Journal) → total w (keep p es) ≤ total w es
unfolding total
total-keep-le w p [] = omega arith
total-keep-le w p (e ∷ es) = ground (arith, total-keep-le w p es)

pub total-keep :
    (w : Event → ℕ) (p : Event → Bool) (es : Journal)
    → ((e : Event) → p e ≡ false → w e ≡ 0)
    → total w (keep p es) ≡ total w es
unfolding total
total-keep w p [] h = refl
total-keep w p (e ∷ es) h = ground (arith, total-keep w p es h, h e)

pub total-zero : (w : Event → ℕ) (es : Journal) → All (λ e. w e ≡ 0) es → total w es ≡ 0
unfolding total
total-zero w [] h = refl
total-zero w (e ∷ es) (he, h) = omega (arith, he, total-zero w es h)
