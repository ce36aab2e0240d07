-- ===== src/Prelude/Texts.antt =====
-- Texts as lists of code units, for the code that looks into them.
use Prim.Native.Char.{code}
use Prim.Native.Nat.{ℕ, ◌+◌, ◌-◌, ◌*◌}
use Prim.Native.String.{String}
use mathlib.Core.Path.{◌≡◌, refl}
use mathlib.Core.Logic.{◌↔◌}
use mathlib.Core.Bool.{Bool, true, false, ◌&&◌, ◌||◌}
use mathlib.Core.List.{List, [], ◌∷◌}
use edopro_server_ts.Prelude.Tests.{leb, if◌then◌else◌, and-eq-true_iff}
use edopro_server_ts.Prelude.Eq.{Eq, ◌==◌, ==_iff, nat_eq}

abbrev pub Text : Type 0
Text = List ℕ

abbrev pub codes : String → Text
codes String.[] = []
codes (String.◌∷◌ c s) = code c ∷ codes s

-- `===` on texts.
abbrev pub text_eqb : Text → Text → Bool
text_eqb [] [] = true
text_eqb [] (_ ∷ _) = false
text_eqb (_ ∷ _) [] = false
text_eqb (a ∷ s) (b ∷ t) = (a == b) && text_eqb s t

pub text_eqb_iff : (s t : Text) → (text_eqb s t ≡ true) ↔ (s ≡ t)
text_eqb_iff [] [] = (λ _. refl, λ _. refl)
text_eqb_iff [] (b ∷ t) = (λ h. cc, λ h. cc)
text_eqb_iff (a ∷ s) [] = (λ h. cc, λ h. cc)
text_eqb_iff (a ∷ s) (b ∷ t) =
    let heads = ==_iff a b in
    let tails = text_eqb_iff s t in
    (
      λ h.
          let (first, rest) = (and-eq-true_iff (a == b) (text_eqb s t)).0 h in
          cc (heads.0 first, tails.0 rest),
      λ h. (and-eq-true_iff (a == b) (text_eqb s t)).1 (heads.1 cc, tails.1 cc),
    )

instance abbrev pub text_eq : Eq Text
text_eq = record { eqb = text_eqb; eqb_iff = text_eqb_iff }

abbrev pub is_digit : ℕ → Bool
is_digit c = leb 48 c && leb c 57

-- The value of the digits that a text begins with.
abbrev pub digits_value : ℕ → Text → ℕ
digits_value n [] = n
digits_value n (c ∷ cs) = if is_digit c then digits_value (10 * n + (c - 48)) cs else n

-- `startsWith` and `endsWith`.
abbrev pub starts_with : Text → Text → Bool
starts_with [] s = true
starts_with (_ ∷ _) [] = false
starts_with (a ∷ prefix) (b ∷ s) = (a == b) && starts_with prefix s

abbrev pub ends_with : Text → Text → Bool
ends_with suffix [] = text_eqb suffix []
ends_with suffix (c ∷ cs) = text_eqb suffix (c ∷ cs) || ends_with suffix cs
