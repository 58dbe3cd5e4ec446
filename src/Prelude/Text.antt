-- ===== src/Prelude/Text.antt =====
-- Go's operations on strings, over the native texts. Changes of case are those of ASCII.
use Prim.Native.Char.{Char, code}
use Prim.Native.Nat.{ℕ, ◌+◌, ◌/◌, ◌%◌}
use Prim.Native.String.{String, ◌++◌}
use mathlib.Core.Bool.{Bool, true, false, ◌&&◌, ◌||◌}
use mathlib.Core.List.{List, [], ◌∷◌, ◌++◌ as list_append}
use mathlib.Core.Option.{Option, none, some}
use mathlib.Core.Logic.{inl, inr}
use mathlib.Core.Path.{◌≡◌, refl, ap, ap₂, sym, ◌∙◌}
use native.Mathlib.Omega.{arith}
use text.Mathlib.TextEquality.{Char-path}
use text.Mathlib.TextLemmas.{nil-append, cons-append}
use claude_code_gateway.Prelude.Tests.{
  Bool-cases, ◌==◌, nat_eq, string_eq, nat_beq, nat_beq_iff, leb, ltb, if◌then◌else◌,
}

-- `strings.CutPrefix`: what follows the prefix, if it is one.
unfoldable pub cut_prefix : String → String → Option String
cut_prefix s String.[] = some s
cut_prefix String.[] (String.◌∷◌ c p) = none
cut_prefix (String.◌∷◌ d s) (String.◌∷◌ c p) =
    if nat_beq (code d) (code c) then cut_prefix s p else none

-- `strings.HasPrefix`
unfoldable pub has_prefix : String → String → Bool
unfolding cut_prefix
has_prefix s p = elim (cut_prefix s p) [ none ↦ false | some _ ↦ true ]

-- `strings.TrimPrefix`
unfoldable pub trim_prefix : String → String → String
unfolding cut_prefix
trim_prefix s p = elim (cut_prefix s p) [ none ↦ s | some r ↦ r ]

-- The letter at the same place of the second alphabet.
unfoldable pub lower_from : String → String → Char → Char
lower_from (String.◌∷◌ u us) (String.◌∷◌ l ls) c =
    if nat_beq (code c) (code u) then l else lower_from us ls c
lower_from _ _ c = c

-- `strings.ToLower`
unfoldable pub to_lower : String → String
unfolding lower_from
to_lower String.[] = ""
to_lower (String.◌∷◌ c s) =
    String.◌∷◌ (lower_from "ABCDEFGHIJKLMNOPQRSTUVWXYZ" "abcdefghijklmnopqrstuvwxyz" c) (to_lower s)

-- `strings.EqualFold`
unfoldable pub equal_fold : String → String → Bool
unfolding to_lower
equal_fold s t = to_lower s == to_lower t

abbrev pub is_space : Char → Bool
is_space c = nat_beq (code c) 32 || leb 9 (code c) && leb (code c) 13

unfoldable pub trim_left : String → String
trim_left String.[] = ""
trim_left (String.◌∷◌ c s) = if is_space c then trim_left s else String.◌∷◌ c s

unfoldable pub trim_right : String → String
trim_right String.[] = ""
trim_right (String.◌∷◌ c s) =
    let rest = trim_right s in if rest == "" && is_space c then "" else String.◌∷◌ c rest

-- `strings.TrimSpace`
unfoldable pub trim_space : String → String
unfolding trim_left trim_right
trim_space s = trim_right (trim_left s)

abbrev pub in_front : Char → Option String → Option String
in_front c none = none
in_front c (some r) = some (String.◌∷◌ c r)

-- `strings.CutSuffix(s, "*")`
unfoldable pub cut_star : String → Option String
cut_star String.[] = none
cut_star (String.◌∷◌ c s) =
    let rest = cut_star s in
    if s == "" then (if nat_beq (code c) b'*' then some "" else none) else in_front c rest

-- `strings.Cut`: what stands before the first such character and after it, and whether there is one.
unfoldable pub cut : ℕ → String → String × String × Bool
cut sep String.[] = ("", "", false)
cut sep (String.◌∷◌ c s) =
    let (before, after, found) = cut sep s in
    if nat_beq (code c) sep then ("", s, true) else (String.◌∷◌ c before, after, found)

-- `strings.Contains`
unfoldable pub contains_text : String → String → Bool
unfolding has_prefix
contains_text String.[] p = has_prefix "" p
contains_text (String.◌∷◌ c s) p = if has_prefix (String.◌∷◌ c s) p then true else contains_text s p

-- `strings.ContainsAny`
unfoldable pub contains_char : Char → String → Bool
contains_char c String.[] = false
contains_char c (String.◌∷◌ d s) = if nat_beq (code d) (code c) then true else contains_char c s

unfoldable pub contains_any : String → String → Bool
unfolding contains_char
contains_any String.[] chars = false
contains_any (String.◌∷◌ c s) chars = if contains_char c chars then true else contains_any s chars

-- The bytes of a character, as `s[i]` reads them.
abbrev pub utf8 : ℕ → List ℕ
utf8 n =
    if ltb n 0x80
    then n ∷ []
    else if ltb n 0x800
    then (0xc0 + n / 64) ∷ (0x80 + n % 64) ∷ []
    else if ltb n 0x10000
    then (0xe0 + n / 4096) ∷ (0x80 + n / 64 % 64) ∷ (0x80 + n % 64) ∷ []
    else (0xf0 + n / 262144) ∷ (0x80 + n / 4096 % 64) ∷ (0x80 + n / 64 % 64) ∷ (0x80 + n % 64) ∷ []

unfoldable pub bytes : String → List ℕ
bytes String.[] = []
bytes (String.◌∷◌ c s) = list_append (utf8 (code c)) (bytes s)

cut_prefix-nil : (s : String) → cut_prefix s "" ≡ some s
unfolding cut_prefix
cut_prefix-nil String.[] = refl
cut_prefix-nil (String.◌∷◌ c s) = refl

-- A prefix that was cut off can be put back.
pub cut_prefix-append : (s p r : String) → cut_prefix s p ≡ some r → s ≡ p ++ r
unfolding cut_prefix
cut_prefix-append s String.[] r h =
    let e : s ≡ r = ground (arith, cut_prefix-nil s) in e ∙ sym (nil-append r)
cut_prefix-append String.[] (String.◌∷◌ c p) r h = ground arith
cut_prefix-append (String.◌∷◌ d s) (String.◌∷◌ c p) r h =
    elim (Bool-cases (nat_beq (code d) (code c))) [
      | inl same ↦
          let rest : s ≡ p ++ r = cut_prefix-append s p r (rw same at h) in
          let first : d ≡ c = Char-path d c ((nat_beq_iff (code d) (code c)).0 same) in
          ap₂ String.◌∷◌ first rest ∙ sym (cons-append c p r)
      | inr other ↦ absurd (ground arith)
    ]

-- What follows a prefix is cut off again.
pub append-cut_prefix : (p r : String) → cut_prefix (p ++ r) p ≡ some r
unfolding cut_prefix
append-cut_prefix String.[] r = cut_prefix-nil ("" ++ r) ∙ ap some (nil-append r)
append-cut_prefix (String.◌∷◌ c p) r = rw cons-append (ground (arith, append-cut_prefix p r))
