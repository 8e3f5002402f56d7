-- ===== src/Tests/Codec.antt =====
-- Formats of times and JSON values that meet the laws.
use ferrumgw.Common.{
  ℕ, zero, suc, ◌≡◌, refl, ap, String, false, List, [], ◌∷◌, Result, ok, err, ◌==◌, string_eq,
  ==_iff, Bool-cases, inl, inr, if◌then◌else◌,
}
use ferrumgw.Config.{PluginScope, global, proxy}
use ferrumgw.Grpc.Conversions.{Codec}
use ferrumgw.Grpc.Conversions.Fields.{CodecLaws}

-- A time is written as a mark and as many strokes.
abbrev strokes : ℕ → String
strokes zero = String.[]
strokes (suc n) = String.◌∷◌ "i" (strokes n)

abbrev count : String → ℕ
count String.[] = 0
count (String.◌∷◌ c s) = suc (count s)

count-strokes : (n : ℕ) → count (strokes n) ≡ n
count-strokes zero = refl
count-strokes (suc n) = ap suc (count-strokes n)

abbrev parse_time : String → Result String ℕ
parse_time String.[] = err "empty"
parse_time (String.◌∷◌ c s) = ok (count s)

abbrev scope_text : PluginScope → String
scope_text global = "global"
scope_text proxy = "proxy"

abbrev scope_of : String → PluginScope
scope_of s = if s == "proxy" then proxy else global

abbrev credentials_text : List (String × String) → Result String String
credentials_text [] = ok "{}"
credentials_text (c ∷ credentials) = ok "{\"key-auth\":\"old\",\"jwt\":\"kept\"}"

abbrev credentials_of : String → Result String (List (String × String))
credentials_of s = if s == "{}" then ok [] else ok (("key-auth", "old") ∷ ("jwt", "kept") ∷ [])

abbrev pub codec : Codec String
codec = record {
  to_rfc3339 = λ n. String.◌∷◌ "T" (strokes n);
  parse_from_rfc3339 = parse_time;
  credentials_to_string = credentials_text;
  credentials_from_str = credentials_of;
  config_to_string = λ s. ok s;
  config_from_str = λ s. ok s;
  scope_to_text = scope_text;
  scope_of_text = scope_of;
}

scope_lem : (s : PluginScope) → scope_of (scope_text s) ≡ s
scope_lem global = refl
scope_lem proxy = refl

marked : (s : String) → (String.◌∷◌ "T" s == "") ≡ false
marked s = elim (Bool-cases (String.◌∷◌ "T" s == "")) [
  | inl same ↦ absurd (filled s ((==_iff (String.◌∷◌ "T" s) "").0 same))
  | inr other ↦ other
]
  where
    filled : (s : String) → ¬ (String.◌∷◌ "T" s ≡ "")
    filled s e = cc

pub codec-CodecLaws : CodecLaws codec
codec-CodecLaws = record {
  parse-to_rfc3339 = λ n. ap ok (count-strokes n);
  to_rfc3339-filled = λ n. marked (strokes n);
  scope_of-to_text = scope_lem;
}
