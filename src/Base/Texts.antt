-- ===== src/Base/Texts.antt =====
-- The order of texts by their code points, as Python compares them.
use Prim.Native.String.{String, [], ◌∷◌}
use Prim.Native.Char.{Char, code}
use text.Mathlib.TextEquality.{codes_equal}
use text.Mathlib.TextPositions.{compare_self}
use mathlib.Core.Path.{◌≡◌, refl}
use mathlib.Core.Logic.{◌⊎◌, inl, inr}
use mathlib.Core.Bool.{Bool, true, false}
use native.Mathlib.Omega.{arith}
use text.Mathlib.Text.{◌==◌ as str_eq}
use text.Mathlib.TextPositions.{eq_refl}
use mercury_trading.Base.Tests.{ltb, ◌==◌, if◌then◌else◌}

abbrev pub text_le : String → String → Bool
text_le [] t = true
text_le (c ∷ s) [] = false
text_le (c ∷ s) (d ∷ t) =
    let rest = text_le s t in
    if ltb (code c) (code d) then true else if code c == code d then rest else false

pub text_le_total : (a b : String) → (text_le a b ≡ true) ⊎ (text_le b a ≡ true)
text_le_total [] t = inl refl
text_le_total (c ∷ s) [] = inr refl
text_le_total (c ∷ s) (d ∷ t) = ground (arith, text_le_total s t)

pub text_le_trans : (a b c : String) → text_le a b ≡ true → text_le b c ≡ true → text_le a c ≡ true
text_le_trans [] b c h k = refl
text_le_trans (x ∷ a) [] c h k = absurd (ground arith)
text_le_trans (x ∷ a) (y ∷ b) [] h k = absurd (ground arith)
text_le_trans (x ∷ a) (y ∷ b) (z ∷ c) h k = ground (arith, text_le_trans a b c)

code_eq : (c d : Char) → code c ≡ code d → c ≡ d
code_eq c d same = codes_equal c d (rw same (compare_self (code d)))

text_le-eq : (a b : String) → text_le a b ≡ true → text_le b a ≡ true → a ≡ b
text_le-eq [] [] h k = refl
text_le-eq [] (d ∷ t) h k = absurd (ground arith)
text_le-eq (c ∷ s) [] h k = absurd (ground arith)
text_le-eq (c ∷ s) (d ∷ t) h k =
    let same : code c ≡ code d = ground arith in
    let rest : s ≡ t = text_le-eq s t (ground (arith, same)) (ground (arith, same)) in
    rw (code_eq c d same, rest) refl

pub text_le_antisym : (a b : String) → text_le a b ≡ true → text_le b a ≡ true → str_eq a b ≡ true
text_le_antisym a b h k = rw (text_le-eq a b h k) (eq_refl b)
