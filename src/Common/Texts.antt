-- ===== src/Common/Texts.antt =====
-- Texts that the program slices are byte strings: a `&str` is its UTF-8 bytes.
use Prim.Native.Nat.{ℕ, zero, suc}
use Prim.Native.Char.{code}
use Prim.Native.String.{String}
use mathlib.Core.Bool.{Bool, true, false, ◌&&◌}
use mathlib.Core.List.{List, [], ◌∷◌}
use mathlib.Core.Option.{Option, none, some}
use ferrumgw.Common.Tests.{ltb, leb, if◌then◌else◌}
use ferrumgw.Common.Equality.{nat_beq}

abbrev pub Bytes : Type 0
Bytes = List ℕ

-- The bytes of an ASCII literal.
abbrev pub ascii : String → Bytes
ascii String.[] = []
ascii (String.◌∷◌ c s) = code c ∷ ascii s

abbrev pub starts_with_byte : ℕ → Bytes → Bool
starts_with_byte b [] = false
starts_with_byte b (x ∷ xs) = nat_beq x b

abbrev pub ends_with_byte : ℕ → Bytes → Bool
ends_with_byte b [] = false
ends_with_byte b (x ∷ []) = nat_beq x b
ends_with_byte b (x ∷ y ∷ ys) = ends_with_byte b (y ∷ ys)

-- A continuation byte of UTF-8, at which a slice may not start.
abbrev pub is_continuation : ℕ → Bool
is_continuation x = leb 128 x && ltb x 192

-- `&s[n..]`; `none` is the panic at an index that is out of range or no character boundary.
abbrev pub slice_from : ℕ → Bytes → Option Bytes
slice_from zero s = some s
slice_from (suc zero) [] = none
slice_from (suc zero) (x ∷ []) = some []
slice_from (suc zero) (x ∷ y ∷ s) = if is_continuation y then none else some (y ∷ s)
slice_from (suc (suc n)) [] = none
slice_from (suc (suc n)) (x ∷ s) = slice_from (suc n) s

-- `starts_with`: whether the text begins with the prefix.
abbrev pub starts_with : String → String → Bool
starts_with s String.[] = true
starts_with String.[] (String.◌∷◌ c prefix) = false
starts_with (String.◌∷◌ d s) (String.◌∷◌ c prefix) =
    nat_beq (code d) (code c) && starts_with s prefix

-- What follows the prefix, if the text begins with it.
abbrev pub strip_prefix : String → String → Option String
strip_prefix s String.[] = some s
strip_prefix String.[] (String.◌∷◌ c prefix) = none
strip_prefix (String.◌∷◌ d s) (String.◌∷◌ c prefix) =
    let rest = strip_prefix s prefix in if nat_beq (code d) (code c) then rest else none

-- `s.split(c)` at an ASCII character: the first part, and the others.
abbrev pub split_on : ℕ → String → String × List String
split_on b String.[] = (String.[], [])
split_on b (String.◌∷◌ c s) =
    let (first, rest) = split_on b s in
    if nat_beq (code c) b then (String.[], first ∷ rest) else (String.◌∷◌ c first, rest)
