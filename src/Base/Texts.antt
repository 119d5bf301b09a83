-- ===== src/Base/Texts.antt =====
-- Texts: optional texts, membership, the order of code points, and blanks.
use Prim.Native.Nat.{ℕ, compare, Ordering}
use Prim.Native.Char.{code}
use Prim.Native.String.{String, ◌++◌}
use mathlib.Core.Path.{◌≡◌, refl}
use mathlib.Core.Logic.{◌↔◌}
use mathlib.Core.Bool.{Bool, true, false, ◌&&◌, ◌||◌}
use mathlib.Core.Option.{Option, none, some}
use mathlib.Core.List.{List, [], ◌∷◌}
use native.Mathlib.Omega.{arith}
use text.Mathlib.Text.{◌==◌}
use text.Mathlib.TextEquality.{eq_iff}
use panopticon_next.Base.Tests.{leb}

-- Python's `==` on `str | None`.
unfoldable pub eq_option : Option String → Option String → Bool
eq_option none none = true
eq_option none (some t) = false
eq_option (some s) none = false
eq_option (some s) (some t) = s == t

pub eq_option_iff : (s t : Option String) → (eq_option s t ≡ true) ↔ (s ≡ t)
unfolding eq_option
eq_option_iff none none = (λ _. refl, λ _. refl)
eq_option_iff none (some t) = (λ h. cc, λ h. cc)
eq_option_iff (some s) none = (λ h. cc, λ h. cc)
eq_option_iff (some s) (some t) = ground (arith, eq_iff s t)

-- `x in xs`.
abbrev pub contains : List String → String → Bool
contains [] x = false
contains (y ∷ ys) x = y == x || contains ys x

-- Python's `+` on texts.
abbrev pub concat : String → String → String
concat s t = s ++ t

-- The code points of a text.
abbrev pub codes : String → List ℕ
codes String.[] = []
codes (String.◌∷◌ c s) = code c ∷ codes s

-- The lexicographic order of code points, by which `order_by(id)` sorts.
abbrev codes_before : List ℕ → List ℕ → Bool
codes_before [] [] = false
codes_before [] (y ∷ ys) = true
codes_before (x ∷ xs) [] = false
codes_before (x ∷ xs) (y ∷ ys) =
    let rest = codes_before xs ys in
    elim (compare x y) [ Ordering.lt ↦ true | Ordering.eq ↦ rest | Ordering.gt ↦ false ]

abbrev pub before : String → String → Bool
before s t = codes_before (codes s) (codes t)

abbrev between : ℕ → ℕ → ℕ → Bool
between lo hi c = leb lo c && leb c hi

-- The characters that `str.strip` removes.
abbrev pub is_space : ℕ → Bool
is_space c =
    between 9 13 c
    || between 28 32 c
    || between 0x85 0x85 c
    || between 0xa0 0xa0 c
    || between 0x1680 0x1680 c
    || between 0x2000 0x200a c
    || between 0x2028 0x2029 c
    || between 0x202f 0x202f c
    || between 0x205f 0x205f c
    || between 0x3000 0x3000 c

abbrev all_space : List ℕ → Bool
all_space [] = true
all_space (c ∷ cs) = is_space c && all_space cs

-- `not s.strip()`.
abbrev pub is_blank : String → Bool
is_blank s = all_space (codes s)

-- `bool(s)` on an optional text: neither None nor empty.
abbrev pub is_given : Option String → Bool
is_given none = false
is_given (some String.[]) = false
is_given (some (String.◌∷◌ c s)) = true
