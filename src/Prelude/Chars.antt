-- ===== src/Prelude/Chars.antt =====
-- Text as its list of Unicode scalar values, with the tests of Rust's `char` and `str` that the
-- program uses. An `OsString` is such a list in which a lone surrogate may stand.
use Prim.Native.Char.{code}
use Prim.Native.String.{String}
use Prim.Native.Nat.{ℕ, ◌+◌, ◌≤◌, ◌<◌}
use mathlib.Core.Path.{◌≡◌, refl, sym, ap, ap₂, ◌∙◌}
use mathlib.Core.Logic.{◌↔◌, ◌⊎◌, inl, inr}
use mathlib.Core.Bool.{Bool, true, false, not, ◌&&◌, ◌||◌}
use mathlib.Core.List.{List, [], ◌∷◌, ◌++◌, map, reverse}
use native.Mathlib.Omega.{arith}
use agent_workboard.Prelude.Tests.{ltb, leb, ◌==◌, if◌then◌else◌}
use agent_workboard.Prelude.Lists.{length, is_empty, any, all, all-reverse, is_empty-reverse}

abbrev pub Text : Type 0
Text = List ℕ

abbrev pub text : String → Text
text String.[] = []
text (String.◌∷◌ c s) = code c ∷ text s

-- `char::is_control`: the general category Cc.
unfoldable pub is_control : ℕ → Bool
is_control c = ltb c 32 || (leb 127 c && ltb c 160)

-- `char::is_whitespace`: the property White_Space.
unfoldable pub is_whitespace : ℕ → Bool
is_whitespace c =
    (leb 9 c && leb c 13)
    || c == 32
    || c == 133
    || c == 160
    || c == 5760
    || (leb 8192 c && leb c 8202)
    || c == 8232
    || c == 8233
    || c == 8239
    || c == 8287
    || c == 12288

unfoldable pub is_ascii_uppercase : ℕ → Bool
is_ascii_uppercase c = leb b'A' c && leb c b'Z'

unfoldable pub is_ascii_lowercase : ℕ → Bool
is_ascii_lowercase c = leb b'a' c && leb c b'z'

unfoldable pub is_ascii_digit : ℕ → Bool
is_ascii_digit c = leb b'0' c && leb c b'9'

unfoldable pub is_ascii_alphanumeric : ℕ → Bool
unfolding is_ascii_uppercase is_ascii_lowercase is_ascii_digit
is_ascii_alphanumeric c = is_ascii_uppercase c || is_ascii_lowercase c || is_ascii_digit c

unfoldable pub trim_start : Text → Text
trim_start [] = []
trim_start (c ∷ s) = if is_whitespace c then trim_start s else c ∷ s

-- `str::trim`.
unfoldable pub trim : Text → Text
unfolding trim_start
trim s = reverse (trim_start (reverse (trim_start s)))

-- `s.trim().is_empty()`.
unfoldable pub is_blank : Text → Bool
unfolding trim
is_blank s = is_empty (trim s)

utf8_width : ℕ → ℕ
utf8_width c = if ltb c 128 then 1 else if ltb c 2048 then 2 else if ltb c 65536 then 3 else 4

-- `str::len`: the bytes of the UTF-8 form.
unfoldable pub len : Text → ℕ
unfolding utf8_width
len [] = 0
len (c ∷ s) = utf8_width c + len s

unfoldable pub text_eq : Text → Text → Bool
text_eq [] [] = true
text_eq (c ∷ s) (d ∷ t) = c == d && text_eq s t
text_eq [] (d ∷ t) = false
text_eq (c ∷ s) [] = false

-- `s.chars().any(char::is_control)`.
unfoldable pub has_control : Text → Bool
has_control s = any is_control s

-- `str::starts_with` and `str::ends_with`, with a character.
unfoldable pub starts_with : Text → ℕ → Bool
starts_with [] c = false
starts_with (d ∷ s) c = d == c

unfoldable pub ends_with : Text → ℕ → Bool
ends_with [] c = false
ends_with (d ∷ []) c = d == c
ends_with (d ∷ e ∷ s) c = ends_with (e ∷ s) c

unfoldable pub is_surrogate : ℕ → Bool
is_surrogate c = leb 55296 c && leb c 57343

-- `OsStr::to_str` succeeds.
unfoldable pub is_unicode : Text → Bool
is_unicode s = all (λ c. not (is_surrogate c)) s

is_empty-trim_start : (s : Text) → is_empty (trim_start s) ≡ all is_whitespace s
unfolding trim_start
is_empty-trim_start [] = refl
is_empty-trim_start (c ∷ s) = ground (arith, is_empty-trim_start s)

all-trim_start : (s : Text) → all is_whitespace (trim_start s) ≡ all is_whitespace s
unfolding trim_start
all-trim_start [] = refl
all-trim_start (c ∷ s) = ground (arith, all-trim_start s)

-- A text is blank exactly when it is all white space.
pub is_blank-eq-all : (s : Text) → is_blank s ≡ all is_whitespace s
unfolding is_blank
is_blank-eq-all s =
    is_empty-reverse (trim_start (reverse (trim_start s)))
    ∙ is_empty-trim_start (reverse (trim_start s))
    ∙ all-reverse is_whitespace (trim_start s)
    ∙ all-trim_start s

pub text_eq_iff : (s t : Text) → (text_eq s t ≡ true) ↔ (s ≡ t)
unfolding text_eq
text_eq_iff [] [] = (λ h. refl, λ e. refl)
text_eq_iff (c ∷ s) (d ∷ t) = ground (arith, text_eq_iff s t)
text_eq_iff [] (d ∷ t) = (λ h. cc, λ e. cc)
text_eq_iff (c ∷ s) [] = (λ h. cc, λ e. cc)

pub text_eq_self : (s : Text) → text_eq s s ≡ true
text_eq_self s = (text_eq_iff s s).1 refl

pub len-append : (s t : Text) → len (s ++ t) ≡ len s + len t
unfolding len
len-append [] t = omega arith
len-append (c ∷ s) t = omega (arith, len-append s t)

pub length-le-len : (s : Text) → length s ≤ len s
unfolding len
length-le-len [] = omega arith
length-le-len (c ∷ s) = ground (arith, length-le-len s)

-- A change of ASCII characters to ASCII characters keeps the number of bytes.
pub len-map :
    (f : ℕ → ℕ)
    → ((c : ℕ) → (f c ≡ c) ⊎ ((c < 128) × (f c < 128)))
    → (s : Text) → len (map f s) ≡ len s
unfolding len utf8_width
len-map f h [] = refl
len-map f h (c ∷ s) = ap₂ (λ a b. a + b) (same_width (h c)) (len-map f h s)
  where
    narrow : (d : ℕ) → d < 128 → utf8_width d ≡ 1
    narrow d k = ground arith

    same_width : (f c ≡ c) ⊎ ((c < 128) × (f c < 128)) → utf8_width (f c) ≡ utf8_width c
    same_width (inl e) = ap utf8_width e
    same_width (inr (a, b)) = narrow (f c) b ∙ sym (narrow c a)
