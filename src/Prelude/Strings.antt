-- ===== src/Prelude/Strings.antt =====
-- Rust strings as the lists of their bytes in UTF-8, with the `str` methods that the source calls.
use Prim.Native.Nat.{ℕ, zero, suc, ◌+◌}
use Prim.Native.Char.{code}
use Prim.Native.String.{String}
use mathlib.Core.Path.{◌≡◌}
use mathlib.Core.Logic.{◌↔◌}
use mathlib.Core.Bool.{Bool, true, false, ◌&&◌, ◌||◌}
use mathlib.Core.Option.{none, some}
use mathlib.Core.List.{List, [], ◌∷◌, ◌++◌, map, reverse}
use native.Mathlib.Omega.{arith}
use chain_registry_core.Prelude.Tests.{Key, nat_beq, ltb, leb, if◌then◌else◌}
use chain_registry_core.Prelude.Lists.{length, get_elem?}

abbrev pub Text : Type 0
Text = List ℕ

-- A literal: the code points of a text, which are its bytes where it is ASCII.
abbrev pub txt : String → Text
txt String.[] = []
txt (String.◌∷◌ c s) = code c ∷ txt s

abbrev pub text_beq : Text → Text → Bool
text_beq [] [] = true
text_beq [] (b ∷ t) = false
text_beq (a ∷ s) [] = false
text_beq (a ∷ s) (b ∷ t) = nat_beq a b && text_beq s t

pub text_beq_iff : (s t : Text) → (text_beq s t ≡ true) ↔ (s ≡ t)
text_beq_iff [] [] = ground arith
text_beq_iff [] (b ∷ t) = ground arith
text_beq_iff (a ∷ s) [] = ground arith
text_beq_iff (a ∷ s) (b ∷ t) = ground (arith, text_beq_iff s t)

instance abbrev pub text_eq : Key Text
text_eq = record { test = text_beq; test_iff = text_beq_iff }

abbrev pub is_empty : Text → Bool
is_empty [] = true
is_empty (a ∷ s) = false

abbrev pub starts_with : Text → Text → Bool
starts_with s [] = true
starts_with [] (p ∷ ps) = false
starts_with (a ∷ s) (p ∷ ps) = nat_beq a p && starts_with s ps

-- The white space of Unicode (`char::is_whitespace`) in UTF-8, of one byte, two and three.
abbrev whites : List Text
whites =
    map (λ c. c ∷ []) (9 ∷ 10 ∷ 11 ∷ 12 ∷ 13 ∷ 32 ∷ [])
    ++ (map (λ c. 194 ∷ c ∷ []) (133 ∷ 160 ∷ [])
        ++ ((225 ∷ 154 ∷ 128 ∷ [])
            ∷ (226 ∷ 129 ∷ 159 ∷ [])
            ∷ (227 ∷ 128 ∷ 128 ∷ [])
            ∷ map (λ c. 226 ∷ 128 ∷ c ∷ [])
                (128 ∷ 129 ∷ 130 ∷ 131 ∷ 132 ∷ 133 ∷ 134 ∷ 135 ∷ 136 ∷ 137 ∷ 138 ∷ 168 ∷ 169 ∷ 175
                  ∷ [])))

-- How many bytes the first of the texts takes that the text starts with, or 0.
width : List Text → Text → ℕ
width [] s = 0
width (w ∷ ws) s = if starts_with s w then length w else width ws s

-- The text less `k` bytes and then less the texts `ws` that it starts with.
skip : List Text → ℕ → Text → Text
unfolding width
skip ws k [] = []
skip ws (suc k) (a ∷ s) = skip ws k s
skip ws zero (a ∷ s) = elim (width ws (a ∷ s)) [ zero ↦ a ∷ s | suc k ↦ skip ws k s ]

unfoldable pub trim : Text → Text
unfolding skip
trim s = reverse (skip (map reverse whites) 0 (reverse (skip whites 0 s)))

lower : ℕ → ℕ
lower c = if leb 65 c && leb c 90 then c + 32 else c

unfoldable pub to_ascii_lowercase : Text → Text
unfolding lower
to_ascii_lowercase s = map lower s

-- `trim_start_matches("0x")`, which strips every leading copy of the prefix.
unfoldable pub trim_start_0x : Text → Text
trim_start_0x [] = []
trim_start_0x (a ∷ []) = a ∷ []
trim_start_0x (a ∷ b ∷ s) = if nat_beq a 48 && nat_beq b 120 then trim_start_0x s else a ∷ b ∷ s

-- `Ord::cmp` on strings: lexicographic on the bytes. True where `s <= t`.
abbrev pub text_leb : Text → Text → Bool
text_leb [] t = true
text_leb (a ∷ s) [] = false
text_leb (a ∷ s) (b ∷ t) = if nat_beq a b then text_leb s t else leb a b

-- Whether `[..12]` is a slice of whole characters, and no panic: the byte after it starts one.
abbrev pub cuts_at_12 : Text → Bool
cuts_at_12 t = elim (get_elem? t 12) [
  | none ↦ nat_beq (length t) 12
  | some c ↦ ltb c 128 || leb 192 c
]
