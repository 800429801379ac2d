-- ===== src/Prelude/Text.antt =====
-- The order of texts by bytes, Go's `<` on strings.
use Prim.Native.Nat.{Ordering}
use Prim.Native.String.{String, compare}
use Prim.Native.String.compare
use mathlib.Core.Path.{◌≡◌, refl}
use mathlib.Core.Bool.{Bool, true, false}
use mathlib.Core.Logic.{◌≢◌, inl, inr}
use text.Mathlib.Text.{◌==◌}
use text.Mathlib.TextEquality.{eq_iff}
use goncordia.Prelude.Tests.{Bool-cases}
use native.Mathlib.Omega.{arith}

abbrev pub text_ltb : String → String → Bool
text_ltb a b = elim (compare a b) [ Ordering.lt ↦ true | _ ↦ false ]

pub text_ltb_asymm : (a b : String) → text_ltb a b ≡ true → text_ltb b a ≡ false
text_ltb_asymm String.[] String.[] h = refl
text_ltb_asymm String.[] (String.◌∷◌ d t) h = rw (text_ltb, compare.cons-nil d t)
text_ltb_asymm (String.◌∷◌ c s) String.[] h = ground (arith, compare.cons-nil c s)
text_ltb_asymm (String.◌∷◌ c s) (String.◌∷◌ d t) h =
    ground (arith, compare.cons-cons c d s t, compare.cons-cons d c t s, text_ltb_asymm s t)

-- Where neither `b` precedes `a` nor `c` precedes `b`, `c` does not precede `a`.
pub text_ltb_trans :
    (a b c : String) → text_ltb b a ≡ false → text_ltb c b ≡ false → text_ltb c a ≡ false
text_ltb_trans String.[] String.[] c h k = k
text_ltb_trans String.[] (String.◌∷◌ b t) String.[] h k = refl
text_ltb_trans String.[] (String.◌∷◌ b t) (String.◌∷◌ c u) h k = rw (text_ltb, compare.cons-nil c u)
text_ltb_trans (String.◌∷◌ a s) String.[] c h k = ground (arith, compare.nil-cons a s)
text_ltb_trans (String.◌∷◌ a s) (String.◌∷◌ b t) String.[] h k =
    ground (arith, compare.nil-cons b t)
text_ltb_trans (String.◌∷◌ a s) (String.◌∷◌ b t) (String.◌∷◌ c u) h k = ground (
  arith,
  compare.cons-cons b a t s,
  compare.cons-cons c b u t,
  compare.cons-cons c a u s,
  text_ltb_trans s t u,
)

pub ne→eq_false : (a b : String) → a ≢ b → (a == b) ≡ false
ne→eq_false a b h = elim (Bool-cases (a == b)) [ inl e ↦ absurd (h ((eq_iff a b).0 e)) | inr e ↦ e ]
