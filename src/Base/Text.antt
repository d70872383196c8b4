-- ===== src/Base/Text.antt =====
-- Go's `strings` over native texts, and the equality test that numbers and texts share.
-- `lower` and `trim_space` treat ASCII letters and blanks; Go's also treat other alphabets.
use Prim.Native.Nat.{ℕ, ◌-◌}
use Prim.Native.Char.{Char, code}
use Prim.Native.String.{String, ◌++◌, len, slice, char_at}
use mathlib.Core.Path.{◌≡◌, refl}
use mathlib.Core.Logic.{◌↔◌}
use mathlib.Core.Bool.{Bool, true, false, ◌&&◌, ◌||◌}
use mathlib.Core.List.{List, [], ◌∷◌}
use mathlib.Core.Option.{Option, none, some}
use text.Mathlib.Text.{◌==◌ as text_eq, starts_with, find?}
use text.Mathlib.TextEquality.{eq_iff}
use gontext.Base.Tests.{nat_eq, nat_eq_iff, leb, if◌then◌else◌, is_some}

-- Types whose values Go compares with `==`.
pub record Eq {ℓ} (A : Type ℓ) : Type ℓ where
  pub eq : A → A → Bool
  pub eq_laws : (a b : A) → (eq a b ≡ true) ↔ (a ≡ b)

abbrev pub ◌==◌ {κ} : {V : Type κ} ⦃test : Eq V⦄ → V → V → Bool
◌==◌ ⦃test⦄ v w = test.eq v w

infix 50 ◌==◌
instance abbrev pub number_eq : Eq ℕ
number_eq = record { eq = nat_eq; eq_laws = nat_eq_iff }

instance abbrev pub string_eq : Eq String
string_eq = record { eq = text_eq; eq_laws = eq_iff }

-- s + t
abbrev pub concat : String → String → String
concat s t = s ++ t

abbrev pub has_prefix : String → String → Bool
has_prefix s t = starts_with s t

-- strings.TrimPrefix
abbrev pub trim_prefix : String → String → String
trim_prefix s t = if starts_with s t then slice s (len t) (len s) else s

abbrev pub contains_text : String → String → Bool
contains_text s t = is_some (find? s t)

-- strings.Contains at a list of texts: a membership loop
abbrev pub contains : List String → String → Bool
contains [] v = false
contains (x ∷ xs) v = x == v || contains xs v

lower_char : Char → Char
lower_char c =
    if leb 65 (code c) && leb (code c) 90
    then char_at "abcdefghijklmnopqrstuvwxyz" (code c - 65)
    else c

unfoldable pub lower : String → String
unfolding lower_char
lower String.[] = String.[]
lower (String.◌∷◌ c s) = String.◌∷◌ (lower_char c) (lower s)

is_space : Char → Bool
is_space c = code c == 32 || leb 9 (code c) && leb (code c) 13

trim_left : String → String
unfolding is_space
trim_left String.[] = String.[]
trim_left (String.◌∷◌ c s) = if is_space c then trim_left s else String.◌∷◌ c s

trim_right : String → String
unfolding is_space
trim_right String.[] = String.[]
trim_right (String.◌∷◌ c s) =
    let rest = trim_right s in
    if is_space c && rest == String.[] then String.[] else String.◌∷◌ c rest

unfoldable pub trim_space : String → String
unfolding trim_left trim_right
trim_space s = trim_left (trim_right s)

push : Char → List String → List String
push c [] = String.◌∷◌ c String.[] ∷ []
push c (w ∷ ws) = String.◌∷◌ c w ∷ ws

-- strings.Split(s, ",")
unfoldable pub split_comma : String → List String
unfolding push
split_comma String.[] = String.[] ∷ []
split_comma (String.◌∷◌ c s) =
    let rest = split_comma s in if code c == 44 then String.[] ∷ rest else push c rest

-- strings.Split(s, c) at a character of this code
unfoldable pub split_on : ℕ → String → List String
unfolding push
split_on b String.[] = String.[] ∷ []
split_on b (String.◌∷◌ c s) =
    let rest = split_on b s in if code c == b then String.[] ∷ rest else push c rest

-- strings.EqualFold
unfoldable pub equal_fold : String → String → Bool
equal_fold s t = lower s == lower t

before : Char → Option (String × String) → Option (String × String)
before c none = none
before c (some (a, b)) = some (String.◌∷◌ c a, b)

-- strings.IndexByte(s, b), as what stands before and after the first such byte
unfoldable pub cut : ℕ → String → Option (String × String)
unfolding before
cut b String.[] = none
cut b (String.◌∷◌ c s) =
    let rest = cut b s in if code c == b then some (String.[], s) else before c rest

trim_runs : lower "  Public\t" ≡ "  public\t"
unfolding lower
trim_runs = refl

split_runs : split_comma "a,,b " ≡ "a" ∷ "" ∷ "b " ∷ []
unfolding split_comma
split_runs = refl

cut_runs : cut 64 "key@v@1" ≡ some ("key", "v@1")
unfolding cut
cut_runs = refl
