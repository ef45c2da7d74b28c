-- ===== src/Prelude/Text.antt =====
-- Python's texts as the native `String`: the methods that the program calls on qualified names.
use Prim.Native.Char.{Char, code}
use Prim.Native.String.{String}
use Prim.Native.String as S
use mathlib.Core.Bool.{Bool, true, false}
use mathlib.Core.Option.{Option, none, some}
use Prim.Native.String.append
use mathlib.Core.Path.{◌≡◌, refl, sym, ap, ◌∙◌}
use mathlib.Core.Logic.{inl, inr}
use mathlib.Core.Bool.{◌||◌}
use native.Mathlib.Omega.{arith}
use text.Mathlib.TextEquality.{Char-path}
use mathlib.Core.List.{List, [], ◌∷◌}
use twai_swarm.Prelude.Tests.{ltb, nat_beq, nat_beq_iff, if◌then◌else◌, Bool-cases}

abbrev pub is_dot : Char → Bool
is_dot c = nat_beq (code c) b'.'

-- `s.rsplit(".", 1)`, where there is a dot: the texts before and after the last one.
unfoldable pub split_last_dot : String → Option (String × String)
split_last_dot String.[] = none
split_last_dot (String.◌∷◌ c s) = elim (split_last_dot s) [
  | some (a, b) ↦ some (String.◌∷◌ c a, b)
  | none ↦ if is_dot c then some (String.[], s) else none
]

-- `s.startswith("_")`
unfoldable pub starts_with_underscore : String → Bool
starts_with_underscore String.[] = false
starts_with_underscore (String.◌∷◌ c s) = nat_beq (code c) b'_'

-- `s <= t`, by code points.
unfoldable pub str_leb : String → String → Bool
str_leb String.[] t = true
str_leb (String.◌∷◌ c s) String.[] = false
str_leb (String.◌∷◌ c s) (String.◌∷◌ d t) =
    let rest = str_leb s t in
    if ltb (code c) (code d) then true else if nat_beq (code c) (code d) then rest else false

pub str_leb_total : (s t : String) → str_leb s t ≡ false → str_leb t s ≡ true
unfolding str_leb
str_leb_total String.[] t h = absurd (cc h)
str_leb_total (String.◌∷◌ c s) String.[] h = refl
str_leb_total (String.◌∷◌ c s) (String.◌∷◌ d t) h = ground (arith, h, str_leb_total s t)

pub str_leb_trans : (s t u : String) → str_leb s t ≡ true → str_leb t u ≡ true → str_leb s u ≡ true
unfolding str_leb
str_leb_trans String.[] t u h k = refl
str_leb_trans (String.◌∷◌ c s) String.[] u h k = absurd (cc h)
str_leb_trans (String.◌∷◌ c s) (String.◌∷◌ d t) String.[] h k = absurd (cc k)
str_leb_trans (String.◌∷◌ c s) (String.◌∷◌ d t) (String.◌∷◌ e u) h k =
    ground (arith, h, k, str_leb_trans s t u)

pub str_leb_antisymm : (s t : String) → str_leb s t ≡ true → str_leb t s ≡ true → s ≡ t
unfolding str_leb
str_leb_antisymm String.[] String.[] h k = refl
str_leb_antisymm String.[] (String.◌∷◌ d t) h k = absurd (cc k)
str_leb_antisymm (String.◌∷◌ c s) String.[] h k = absurd (cc h)
str_leb_antisymm (String.◌∷◌ c s) (String.◌∷◌ d t) h k =
    let same : code c ≡ code d = ground (arith, h, k) in
    let tail : str_leb s t ≡ true = ground (arith, h, same) in
    let back : str_leb t s ≡ true = ground (arith, k, same) in
    ap (λ x. String.◌∷◌ x s) (Char-path c d same)
    ∙ ap (λ x. String.◌∷◌ d x) (str_leb_antisymm s t tail back)

-- `s + t`
abbrev pub join : String → String → String
join = S.◌++◌

abbrev pub has_dot : String → Bool
has_dot String.[] = false
has_dot (String.◌∷◌ c s) = is_dot c || has_dot s

-- `s.split(".", 1)`, where there is a dot: the texts before and after the first one.
unfoldable pub split_first_dot : String → Option (String × String)
split_first_dot String.[] = none
split_first_dot (String.◌∷◌ c s) =
    let later : Option (String × String) = elim (split_first_dot s) [
      | none ↦ none
      | some (a, b) ↦ some (String.◌∷◌ c a, b)
    ] in
    if is_dot c then some (String.[], s) else later

-- `s.split(".")`
unfoldable pub split_dots : String → List String
split_dots String.[] = String.[] ∷ []
split_dots (String.◌∷◌ c s) =
    let rest = split_dots s in
    let longer : List String = elim rest [
      | [] ↦ String.◌∷◌ c String.[] ∷ []
      | w ∷ ws ↦ String.◌∷◌ c w ∷ ws
    ] in
    if is_dot c then String.[] ∷ rest else longer

-- `s.rsplit(".", 1)[-1]`
unfoldable pub last_part : String → String
last_part s = elim (split_last_dot s) [ none ↦ s | some (_, last) ↦ last ]

-- `s.split(".", 1)[0]`
unfoldable pub first_part : String → String
first_part s = elim (split_first_dot s) [ none ↦ s | some (first, _) ↦ first ]

-- `f"{owner}.{name}"`
abbrev pub dotted : String → String → String
dotted owner name = join owner (join "." name)

-- What the split of a text is: at its last dot, or nowhere, where it has none.
abbrev pub Split : String → Option (String × String) → Type 0
Split s none = has_dot s ≡ false
Split s (some (a, b)) = (s ≡ join a (join "." b)) × (has_dot b ≡ false)

dot-join : (c : Char) (s : String) → is_dot c ≡ true → String.◌∷◌ c s ≡ join "" (join "." s)
dot-join c s h =
    let dot : Char = "." in
    let same : c ≡ dot = Char-path c dot ((nat_beq_iff (code c) b'.').0 h) in
    let one : join "." s ≡ String.◌∷◌ dot s =
      (λ i. append.cons dot "" s i) ∙ (λ i. String.◌∷◌ dot (append.nil s i)) in
    ap (λ x. String.◌∷◌ x s) same ∙ sym one ∙ sym (λ i. append.nil (join "." s) i)

Split-cons :
    (c : Char) (s : String) (o : Option (String × String))
    → Split s o
    → split_last_dot s ≡ o
    → Split (String.◌∷◌ c s) (split_last_dot (String.◌∷◌ c s))
unfolding split_last_dot
Split-cons c s (some (a, b)) h e =
    rw e (ap (String.◌∷◌ c) h.0 ∙ (λ i. sym (append.cons c a (join "." b)) i), h.1)
Split-cons c s none h e = elim (Bool-cases (is_dot c)) [
  | inl d ↦ rw (e, d) (dot-join c s d, h)
  | inr d ↦ rw (e, d) (ground arith)
]

pub split_last_dot_lem : (s : String) → Split s (split_last_dot s)
split_last_dot_lem String.[] = unfold split_last_dot in refl
split_last_dot_lem (String.◌∷◌ c s) = Split-cons c s (split_last_dot s) (split_last_dot_lem s) refl

-- A text of a part with no dot, a dot and a rest is split there.
pub split_first_dot-dotted :
    (head rest : String)
    → has_dot head ≡ false
    → split_first_dot (dotted head rest) ≡ some (head, rest)
unfolding split_first_dot
split_first_dot-dotted String.[] rest h = let dot : Char = "." in rw (← dot-join dot rest refl) refl
split_first_dot-dotted (String.◌∷◌ c head) rest h =
    let inner : has_dot head ≡ false = ground (arith, h) in
    let plain : is_dot c ≡ false = ground (arith, h) in
    let e = split_first_dot-dotted head rest inner in
    rw (append.cons c head (join "." rest), plain, e) refl

-- What the split of a text at its first dot is.
abbrev pub SplitFirst : String → Option (String × String) → Type 0
SplitFirst s none = has_dot s ≡ false
SplitFirst s (some (a, b)) = s ≡ dotted a b

SplitFirst-cons :
    (c : Char) (s : String) (o : Option (String × String))
    → SplitFirst s o
    → split_first_dot s ≡ o
    → SplitFirst (String.◌∷◌ c s) (split_first_dot (String.◌∷◌ c s))
unfolding split_first_dot
SplitFirst-cons c s none h e = elim (Bool-cases (is_dot c)) [
  | inl d ↦ rw d (dot-join c s d)
  | inr d ↦ rw (e, d) (ground arith)
]
SplitFirst-cons c s (some (a, b)) h e = elim (Bool-cases (is_dot c)) [
  | inl d ↦ rw d (dot-join c s d)
  | inr d ↦ rw (e, d) (ap (String.◌∷◌ c) h ∙ (λ i. sym (append.cons c a (join "." b)) i))
]

pub split_first_dot_lem : (s : String) → SplitFirst s (split_first_dot s)
split_first_dot_lem String.[] = unfold split_first_dot in refl
split_first_dot_lem (String.◌∷◌ c s) =
    SplitFirst-cons c s (split_first_dot s) (split_first_dot_lem s) refl

abbrev pub is_slash : Char → Bool
is_slash c = nat_beq (code c) b'/'

-- `s.rstrip("/")`
unfoldable pub without_last_slashes : String → String
without_last_slashes String.[] = String.[]
without_last_slashes (String.◌∷◌ c s) =
    let rest = without_last_slashes s in
    elim rest [
      | String.[] ↦ if is_slash c then String.[] else String.◌∷◌ c String.[]
      | String.◌∷◌ d t ↦ String.◌∷◌ c (String.◌∷◌ d t)
    ]

-- `s.rsplit("/", 1)`, where there is a slash: the text after the last one.
unfoldable pub after_last_slash : String → Option String
after_last_slash String.[] = none
after_last_slash (String.◌∷◌ c s) = elim (after_last_slash s) [
  | some t ↦ some t
  | none ↦ if is_slash c then some s else none
]
