-- ===== src/Prelude/Text.antt =====
-- Texts as lists of code points: what the program concatenates, splits or compares by content.
use Prim.Native.Char.{code}
use Prim.Native.String.{String}
use se_ticketbox.Prelude.{
  ℕ, ◌+◌, ◌≡◌, refl, Bool, true, false, ◌&&◌, ◌||◌, List, [], ◌∷◌, arith, leb, ◌==◌, if◌then◌else◌,
}

abbrev pub Text : Type 0
Text = List ℕ

abbrev pub codes : String → Text
codes String.[] = []
codes (String.◌∷◌ c s) = code c ∷ codes s

unfoldable pub text_eq : Text → Text → Bool
text_eq [] [] = true
text_eq (x ∷ xs) (y ∷ ys) = x == y && text_eq xs ys
text_eq _ _ = false

pub text_eq_refl : (xs : Text) → text_eq xs xs ≡ true
unfolding text_eq
text_eq_refl [] = refl
text_eq_refl (x ∷ xs) = ground (arith, text_eq_refl xs)

pub text_eq-eq : (xs ys : Text) → text_eq xs ys ≡ true → xs ≡ ys
unfolding text_eq
text_eq-eq [] [] h = refl
text_eq-eq [] (y ∷ ys) h = ground arith
text_eq-eq (x ∷ xs) [] h = ground arith
text_eq-eq (x ∷ xs) (y ∷ ys) h = ground (arith, text_eq-eq xs ys)

abbrev pub is_empty : Text → Bool
is_empty [] = true
is_empty (x ∷ xs) = false

-- The lower case of an ASCII letter.
unfoldable pub to_lower : ℕ → ℕ
to_lower c = if leb b'A' c && leb c b'Z' then c + 32 else c

unfoldable pub starts_with : Text → Text → Bool
starts_with [] s = true
starts_with (x ∷ xs) [] = false
starts_with (x ∷ xs) (y ∷ ys) = x == y && starts_with xs ys

-- Does the second text contain the first one?
unfoldable pub includes : Text → Text → Bool
unfolding starts_with
includes p [] = starts_with p []
includes p (c ∷ s) = starts_with p (c ∷ s) || includes p s
