-- ===== src/Common/Text.antt =====
-- The string methods of Python that the services use, over code points. `lower` and `strip` know
-- the ASCII letters and spaces; Python's know those of other scripts too.
use Prim.Native.Char.{Char, char, code, IsScalar}
use mathlib.Core.Logic.{dite}
use native.Mathlib.Decide.{dec_lt}
use one_loyal.Prelude.{
  ℕ, suc, ◌+◌, ◌-◌, ◌≡◌, refl, not, ◌<◌, arith, String, Bool, true, false, ◌&&◌, ◌||◌, List, [],
  ◌∷◌, leb, ◌==◌, str_eq, if◌then◌else◌,
}

abbrev pub codes : String → List ℕ
codes String.[] = []
codes (String.◌∷◌ c s) = code c ∷ codes s

abbrev pub lower_code : ℕ → ℕ
lower_code c = if leb b'A' c && leb c b'Z' then c + 32 else c

abbrev pub lower : List ℕ → List ℕ
lower [] = []
lower (c ∷ cs) = lower_code c ∷ lower cs

abbrev pub starts_with : List ℕ → List ℕ → Bool
starts_with [] cs = true
starts_with (p ∷ ps) [] = false
starts_with (p ∷ ps) (c ∷ cs) = p == c && starts_with ps cs

-- `sub in text`
abbrev pub contains : List ℕ → List ℕ → Bool
contains sub [] = starts_with sub []
contains sub (c ∷ cs) = starts_with sub (c ∷ cs) || contains sub cs

-- The ASCII characters that `str.isspace` accepts
abbrev pub is_space : ℕ → Bool
is_space c = c == 32 || leb 9 c && leb c 13 || leb 28 c && leb c 31

abbrev pub left_strip : String → String
left_strip String.[] = ""
left_strip (String.◌∷◌ c s) =
    let rest = left_strip s in if is_space (code c) then rest else String.◌∷◌ c s

-- A character before nothing but spaces ends the text.
abbrev pub right_strip : String → String
right_strip String.[] = ""
right_strip (String.◌∷◌ c s) =
    let rest = right_strip s in
    if is_space (code c) && str_eq rest "" then "" else String.◌∷◌ c rest

abbrev pub strip : String → String
strip s = right_strip (left_strip s)

-- `len`
abbrev pub len : String → ℕ
len String.[] = 0
len (String.◌∷◌ c s) = suc (len s)

abbrev pub is_alpha_code : ℕ → Bool
is_alpha_code c = leb b'A' c && leb c b'Z' || leb b'a' c && leb c b'z'

abbrev all_alpha : String → Bool
all_alpha String.[] = true
all_alpha (String.◌∷◌ c s) = is_alpha_code (code c) && all_alpha s

-- `str.isalpha`, which the empty text fails
abbrev pub isalpha : String → Bool
isalpha s = not (str_eq s "") && all_alpha s

pub ascii-IsScalar : (n : ℕ) → n < 128 → IsScalar n
ascii-IsScalar n h = ground arith

-- The letter 32 places lower, for a small letter.
abbrev upper_char : Char → Char
upper_char c =
    dite (dec_lt (code c) 123)
      (λ h.
        if leb b'a' (code c)
        then char (code c - 32) (ascii-IsScalar (code c - 32) (omega arith))
        else c)
      (λ _. c)

abbrev lower_char : Char → Char
lower_char c =
    dite (dec_lt (code c) 91)
      (λ h.
        if leb b'A' (code c)
        then char (code c + 32) (ascii-IsScalar (code c + 32) (omega arith))
        else c)
      (λ _. c)

-- `str.upper` and `str.lower` of a text
abbrev pub upper : String → String
upper String.[] = ""
upper (String.◌∷◌ c s) = String.◌∷◌ (upper_char c) (upper s)

abbrev pub lowered : String → String
lowered String.[] = ""
lowered (String.◌∷◌ c s) = String.◌∷◌ (lower_char c) (lowered s)

upper_runs : upper "uZs" ≡ "UZS"
unfolding dec_lt
upper_runs = refl

lowered_runs : lowered "A@Z.uz" ≡ "a@z.uz"
unfolding dec_lt
lowered_runs = refl
