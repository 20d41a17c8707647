-- ===== src/Prelude/Texts.antt =====
-- Tests of a text against constants, and conjunctions of tests.
use Prim.Native.String.{String}
use mathlib.Core.Path.{◌≡◌, sym, subst}
use mathlib.Core.Bool.{Bool, true, false, ◌&&◌}
use mathlib.Core.Logic.{◌≢◌}
use native.Mathlib.Omega.{arith}
use text.Mathlib.Text.{◌==◌ as str_eq}
use text.Mathlib.TextEquality.{eq_iff}

-- A text that is one constant is not another.
pub not_other : (s a b : String) → str_eq a b ≡ false → str_eq s a ≡ true → str_eq s b ≡ false
not_other s a b h p = subst (λ (z : String). str_eq z b ≡ false) (sym ((eq_iff s a).0 p)) h

pub and_left : (a b : Bool) → (a && b) ≡ true → a ≡ true
and_left a b h = ground arith

pub and_right : (a b : Bool) → (a && b) ≡ true → b ≡ true
and_right a b h = ground arith

pub true-false : {a : Bool} → a ≡ true → a ≢ false
true-false h n = ground arith
