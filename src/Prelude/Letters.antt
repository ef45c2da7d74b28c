-- ===== src/Prelude/Letters.antt =====
-- Python's methods on texts that look at letters, spaces and digits.
use Prim.Native.Nat.{ℕ, zero, suc, ◌+◌, ◌/◌, ◌%◌}
use Prim.Native.Char.{Char, code}
use Prim.Native.String.{String}
use mathlib.Core.Bool.{Bool, true, false, ◌&&◌, ◌||◌}
use mathlib.Core.List.{List, [], ◌∷◌}
use text.Mathlib.Text.{◌==◌ as str_eq}
use twai_swarm.Prelude.Tests.{ltb, leb, nat_beq, if◌then◌else◌, get_or}
use twai_swarm.Prelude.Lists.{get_elem?}
use twai_swarm.Prelude.Text.{join}

-- The code point of a letter of ASCII in lower case; no other character becomes one of these letters.
abbrev pub lower_code : Char → ℕ
lower_code c = if leb b'A' (code c) && leb (code c) b'Z' then code c + 32 else code c

-- `s.lower() == word`, for a word in lower case.
unfoldable pub is_word : String → String → Bool
is_word String.[] String.[] = true
is_word String.[] (String.◌∷◌ d word) = false
is_word (String.◌∷◌ c s) String.[] = false
is_word (String.◌∷◌ c s) (String.◌∷◌ d word) =
    let rest = is_word s word in if nat_beq (lower_code c) (code d) then rest else false

-- `s.lower().endswith(suffix)`
unfoldable pub ends_with : String → String → Bool
ends_with String.[] suffix = is_word String.[] suffix
ends_with (String.◌∷◌ c s) suffix = is_word (String.◌∷◌ c s) suffix || ends_with s suffix

-- The characters that `strip` drops.
abbrev pub is_space : Char → Bool
is_space c =
    let n = code c in
    leb 9 n && leb n 13
    || leb 28 n && leb n 32
    || nat_beq n 133
    || nat_beq n 160
    || nat_beq n 5760
    || leb 8192 n && leb n 8202
    || nat_beq n 8232
    || nat_beq n 8233
    || nat_beq n 8239
    || nat_beq n 8287
    || nat_beq n 12288

-- `s.lstrip()`, for any set of characters.
unfoldable pub drop_first : (Char → Bool) → String → String
drop_first dropped String.[] = String.[]
drop_first dropped (String.◌∷◌ c s) =
    let rest = drop_first dropped s in if dropped c then rest else String.◌∷◌ c s

-- `s.rstrip()`
unfoldable pub drop_last : (Char → Bool) → String → String
drop_last dropped String.[] = String.[]
drop_last dropped (String.◌∷◌ c s) =
    let rest = drop_last dropped s in
    elim rest [
      | String.[] ↦ if dropped c then String.[] else String.◌∷◌ c String.[]
      | String.◌∷◌ d t ↦ String.◌∷◌ c (String.◌∷◌ d t)
    ]

-- `s.strip()`
unfoldable pub strip : (Char → Bool) → String → String
strip dropped s = drop_last dropped (drop_first dropped s)

abbrev pub digit_texts : List String
digit_texts = "0" ∷ "1" ∷ "2" ∷ "3" ∷ "4" ∷ "5" ∷ "6" ∷ "7" ∷ "8" ∷ "9" ∷ []

abbrev pub digit_text : ℕ → String
digit_text n = get_or "" (get_elem? digit_texts (n % 10))

-- Each round takes one digit off, so a round for each unit of the number is more than enough.
unfoldable pub decimal : ℕ → ℕ → String
decimal zero n = digit_text n
decimal (suc rounds) n =
    let longer = join (decimal rounds (n / 10)) (digit_text n) in
    if ltb n 10 then digit_text n else longer

-- `str(n)`
unfoldable pub str_nat : ℕ → String
str_nat n = decimal n n

-- `s.startswith(prefix)`
unfoldable pub starts_with : String → String → Bool
starts_with prefix String.[] = str_eq prefix ""
starts_with String.[] (String.◌∷◌ d s) = true
starts_with (String.◌∷◌ c prefix) (String.◌∷◌ d s) =
    let rest = starts_with prefix s in if nat_beq (code c) (code d) then rest else false

-- `s[:-len(suffix)]`, where `s` ends with the suffix.
unfoldable pub without_suffix : String → String → String
without_suffix suffix String.[] = String.[]
without_suffix suffix (String.◌∷◌ c s) =
    let rest = String.◌∷◌ c (without_suffix suffix s) in
    if str_eq suffix (String.◌∷◌ c s) then String.[] else rest
