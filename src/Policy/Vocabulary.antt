-- ===== src/Policy/Vocabulary.antt =====
-- src/core/policy/vocabulary.ts: the patterns of the policy document, as tests on texts.
use signbox.Prelude.{
  ℕ, ◌≡◌, refl, Bool, true, false, ◌&&◌, ◌||◌, [], ◌∷◌, leb, ◌==◌, length, drop, any, every,
}
use signbox.Prelude.Text.{Text, lit, starts_with, split, text_mem}

abbrev in_range : ℕ → ℕ → ℕ → Bool
in_range lo hi c = leb lo c && leb c hi

is_lower_or_digit : ℕ → Bool
is_lower_or_digit c = in_range b'a' b'z' c || in_range b'0' b'9' c

-- `[a-zA-Z0-9_]`.
is_word : ℕ → Bool
is_word c = in_range b'a' b'z' c || in_range b'A' b'Z' c || in_range b'0' b'9' c || (c == b'_')

has_length : ℕ → ℕ → Text → Bool
has_length lo hi s = leb lo (length s) && leb (length s) hi

-- `SELECT_FIELD_PATTERN`, which is also one segment of a data path.
unfoldable pub is_select_field : Text → Bool
unfolding is_word has_length
is_select_field s = every is_word s && has_length 1 64 s

-- `RULE_ID_PATTERN`.
rule_id_tail : Text → Bool
unfolding is_lower_or_digit
rule_id_tail s = every (λ c. is_lower_or_digit c || (c == b'-')) s && leb (length s) 63

unfoldable pub is_rule_id : Text → Bool
unfolding rule_id_tail is_lower_or_digit
is_rule_id [] = false
is_rule_id (c ∷ s) = is_lower_or_digit c && rule_id_tail s

-- `CHAIN_ID_PATTERN`.
unfoldable pub is_chain_id : Text → Bool
unfolding has_length
is_chain_id s = every (λ c. in_range b'0' b'9' c || in_range b'a' b'f' c) s && has_length 64 64 s

-- `MATCH_PATH_PATTERN`: four fixed paths, or `data.` and one to five segments.
unfoldable pub is_match_path : Text → Bool
unfolding is_select_field split has_length
is_match_path s =
    text_mem s (
      lit "contract"
      ∷ lit "action"
      ∷ lit "authorization.actor"
      ∷ lit "authorization.permission"
      ∷ [])
    || (starts_with s (lit "data.")
        && every is_select_field (split b'.' (drop 5 s))
        && leb (length (split b'.' (drop 5 s))) 5)

paths :
    every is_match_path
      (lit "data.quantity" ∷ lit "authorization.actor" ∷ lit "data.a.b.c.d.e" ∷ [])
    ≡ true
unfolding is_match_path text_mem starts_with
paths = refl

no_paths :
    any is_match_path (lit "data." ∷ lit "data" ∷ lit "data.a.b.c.d.e.f" ∷ lit "authorization" ∷ [])
    ≡ false
unfolding is_match_path text_mem starts_with
no_paths = refl
