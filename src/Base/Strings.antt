-- ===== src/Base/Strings.antt =====
-- A JavaScript string as the list of its UTF-16 code units, and the string methods and the shapes
-- of regular expressions that the source uses.
use Prim.Native.Char.{code}
use Prim.Native.Nat.{ℕ, zero, suc, ◌+◌, ◌/◌, ◌%◌}
use Prim.Native.String.{String}
use mathlib.Core.Path.{◌≡◌, refl}
use mathlib.Core.Logic.{◌↔◌}
use mathlib.Core.Bool.{Bool, true, false, ◌&&◌, ◌||◌}
use mathlib.Core.List.{List, [], ◌∷◌, ◌++◌}
use mathlib.Core.Option.{Option, none, some}
use native.Mathlib.Omega.{arith}
use mc_gantry.Base.Tests.{if◌then◌else◌, leb, ◌==◌}
use mc_gantry.Base.Lists.{is_empty}

abbrev pub Text : Type 0
Text = List ℕ

-- A literal of characters of the basic plane: its code units are its code points.
abbrev pub codes : String → Text
codes String.[] = []
codes (String.◌∷◌ c s) = code c ∷ codes s

-- `s === t` on strings.
unfoldable pub text_eq : Text → Text → Bool
text_eq [] [] = true
text_eq [] (d ∷ t) = false
text_eq (c ∷ s) [] = false
text_eq (c ∷ s) (d ∷ t) = c == d && text_eq s t

pub text_eq_sound : (s t : Text) → text_eq s t ≡ true → s ≡ t
unfolding text_eq
text_eq_sound [] [] h = refl
text_eq_sound [] (d ∷ t) h = ground arith
text_eq_sound (c ∷ s) [] h = ground arith
text_eq_sound (c ∷ s) (d ∷ t) h = ground (arith, text_eq_sound s t)

pub text_eq_refl : (s : Text) → text_eq s s ≡ true
unfolding text_eq
text_eq_refl [] = refl
text_eq_refl (c ∷ s) = ground (arith, text_eq_refl s)

pub text_eq_iff : (s t : Text) → (text_eq s t ≡ true) ↔ (s ≡ t)
text_eq_iff s t = (text_eq_sound s t, λ e. ground (arith, text_eq_refl s))

pub text_ne : (s t : Text) → text_eq s t ≡ false → ¬ (s ≡ t)
text_ne s t h e = ground (arith, text_eq_iff s t)

-- `s.startsWith(t)`
unfoldable pub starts_with : Text → Text → Bool
starts_with s [] = true
starts_with [] (d ∷ t) = false
starts_with (c ∷ s) (d ∷ t) = c == d && starts_with s t

-- `a || b` on strings: the second where the first is empty.
abbrev pub or_text : Text → Text → Text
or_text [] b = b
or_text (c ∷ s) b = c ∷ s

-- A string that passes a test such as `if (token)`.
abbrev pub present : Option Text → Option Text
present none = none
present (some []) = none
present (some (c ∷ s)) = some (c ∷ s)

-- `\s` and what `trim` removes: white space and line terminators of ECMAScript.
unfoldable pub is_space : ℕ → Bool
is_space c =
    (leb 9 c && leb c 13)
    || c == 32
    || c == 160
    || c == 0x1680
    || (leb 0x2000 c && leb c 0x200a)
    || c == 0x2028
    || c == 0x2029
    || c == 0x202f
    || c == 0x205f
    || c == 0x3000
    || c == 0xfeff

-- `[a-z0-9]`
unfoldable pub is_alnum : ℕ → Bool
is_alnum c = (leb b'a' c && leb c b'z') || (leb b'0' c && leb c b'9')

-- `s.replace(/^[p]+/, '')`
unfoldable pub drop_start : (ℕ → Bool) → Text → Text
drop_start p [] = []
drop_start p (c ∷ s) = let rest = drop_start p s in if p c then rest else c ∷ s

-- `s.replace(/[p]+$/, '')`
unfoldable pub drop_end : (ℕ → Bool) → Text → Text
drop_end p [] = []
drop_end p (c ∷ s) = let rest = drop_end p s in if is_empty rest && p c then [] else c ∷ rest

unfoldable pub trim_start : Text → Text
unfolding drop_start is_space
trim_start = drop_start is_space

unfoldable pub trim : Text → Text
unfolding trim_start drop_end
trim s = drop_end is_space (trim_start s)

-- `s.replace(/[p]/g, r)`
unfoldable pub replace_each : (ℕ → Bool) → Text → Text → Text
replace_each p r [] = []
replace_each p r (c ∷ s) = (if p c then r else c ∷ []) ++ replace_each p r s

-- `s.replace(/[p]+/g, r)`: a unit of the class is kept back while the run goes on.
abbrev pub next_is : (ℕ → Bool) → Text → Bool
next_is p [] = false
next_is p (c ∷ s) = p c

unfoldable pub replace_runs : (ℕ → Bool) → Text → Text → Text
replace_runs p r [] = []
replace_runs p r (c ∷ s) =
    (if p c then (if next_is p s then [] else r) else c ∷ []) ++ replace_runs p r s

-- `s.split(/\r?\n/)`: the part that is being read comes first. A `\r` before a `\n` is dropped.
unfoldable pub split_lines : Text → Text → List Text
split_lines part [] = part ∷ []
split_lines part (c ∷ s) =
    let same = split_lines part s in
    let closed = part ∷ split_lines [] s in
    let longer = split_lines (part ++ c ∷ []) s in
    if c == 13 && next_is (λ d. d == 10) s then same else if c == 10 then closed else longer

-- `s.toLowerCase()` on the basic Latin letters; what it does elsewhere is a parameter of the
-- functions that call it.
unfoldable pub ascii_lower : ℕ → ℕ
ascii_lower c = if leb b'A' c && leb c b'Z' then c + 32 else c

-- The decimal digits of a number that is not negative, `String(n)`, the last digit first.
unfoldable pub digits_rev : ℕ → ℕ → Text
digits_rev zero n = []
digits_rev (suc fuel) n =
    let rest = digits_rev fuel (n / 10) in (b'0' + n % 10) ∷ (if leb 10 n then rest else [])
