-- ===== src/Base/Texts.antt =====
-- Texts: put together with a separator, and compared without regard to case. Case is that of ASCII.
use Prim.Native.Nat.{ℕ, ◌+◌, ◌-◌}
use Prim.Native.Char.{code}
use Prim.Native.String.{String, ◌++◌}
use mathlib.Core.Bool.{Bool, true, false, ◌&&◌, ◌||◌}
use mathlib.Core.List.{List, [], ◌∷◌, map}
use gektor.Base.Tests.{leb, ◌==◌, if◌then◌else◌}

-- `f"{a}|{b}"`
unfoldable pub bar : String → String → String
bar a b = a ++ ("|" ++ b)

-- A text put behind a label, `f"exchange_status={s}"`.
unfoldable pub labelled : String → String → String
labelled a b = a ++ b

abbrev pub codes : String → List ℕ
codes String.[] = []
codes (String.◌∷◌ c s) = code c ∷ codes s

abbrev pub to_upper : ℕ → ℕ
to_upper c = if leb b'a' c && leb c b'z' then c - 32 else c

abbrev pub to_lower : ℕ → ℕ
to_lower c = if leb b'A' c && leb c b'Z' then c + 32 else c

-- s.upper()
abbrev pub upper : String → List ℕ
upper s = map to_upper (codes s)

-- s.lower()
abbrev pub lower : String → List ℕ
lower s = map to_lower (codes s)

-- The first text is where the second one starts.
abbrev pub is_start : List ℕ → List ℕ → Bool
is_start [] text = true
is_start (c ∷ cs) [] = false
is_start (c ∷ cs) (d ∷ text) = c == d && is_start cs text

-- part in text
abbrev pub is_part : List ℕ → List ℕ → Bool
is_part part [] = is_start part []
is_part part (d ∷ text) = is_start part (d ∷ text) || is_part part text

abbrev pub same_codes : List ℕ → List ℕ → Bool
same_codes [] [] = true
same_codes [] (d ∷ ds) = false
same_codes (c ∷ cs) [] = false
same_codes (c ∷ cs) (d ∷ ds) = c == d && same_codes cs ds

-- text in (a, b, …), for a text in capitals
abbrev pub is_one_of : List ℕ → List String → Bool
is_one_of text [] = false
is_one_of text (name ∷ names) = same_codes text (codes name) || is_one_of text names
