-- ===== src/Flatten/Texts.antt =====
-- What ee/dataflatten/flatten.go uses of the packages strings, bytes and strconv, on byte strings.
use launcher.Base.{
  ℕ, zero, suc, ◌+◌, ◌-◌, ◌*◌, ◌/◌, ◌%◌, ◌^◌, Bool, true, false, ◌&&◌, ◌||◌, Option, none, some,
  List, [], ◌∷◌, ◌++◌, Bytes, ◌==◌, if◌then◌else◌, ltb, leb, nat_eq, length, drop, ℤ, pos, negsuc,
}

abbrev pub get_elem? {ℓ} : {A : Type ℓ} → List A → ℕ → Option A
get_elem? [] i = none
get_elem? (x ∷ xs) zero = some x
get_elem? (x ∷ xs) (suc i) = get_elem? xs i

-- `strings.CutPrefix`
unfoldable pub cut_prefix : Bytes → Bytes → Option Bytes
cut_prefix [] s = some s
cut_prefix (p ∷ ps) [] = none
cut_prefix (p ∷ ps) (c ∷ s) = let rest = cut_prefix ps s in if nat_eq p c then rest else none

abbrev pub or_whole : Bytes → Option Bytes → Bytes
or_whole s none = s
or_whole s (some rest) = rest

unfoldable pub trim_prefix : Bytes → Bytes → Bytes
unfolding cut_prefix
trim_prefix prefix s = or_whole s (cut_prefix prefix s)

unfoldable pub has_prefix : Bytes → Bytes → Bool
unfolding cut_prefix
has_prefix prefix s = elim (cut_prefix prefix s) [ none ↦ false | some rest ↦ true ]

-- `strings.HasSuffix` and `strings.TrimSuffix`, by the place where the suffix would stand
unfoldable pub has_suffix : Bytes → Bytes → Bool
has_suffix suffix s = leb (length suffix) (length s) && drop (length s - length suffix) s == suffix

abbrev pub take_bytes : ℕ → Bytes → Bytes
take_bytes zero s = []
take_bytes (suc n) [] = []
take_bytes (suc n) (c ∷ s) = c ∷ take_bytes n s

unfoldable pub trim_suffix : Bytes → Bytes → Bytes
unfolding has_suffix
trim_suffix suffix s = if has_suffix suffix s then take_bytes (length s - length suffix) s else s

-- `strings.Contains` and `bytes.Contains`
unfoldable pub has_infix : Bytes → Bytes → Bool
unfolding has_prefix
has_infix infix_ [] = has_prefix infix_ []
has_infix infix_ (c ∷ s) = has_prefix infix_ (c ∷ s) || has_infix infix_ s

-- `strings.SplitN(s, separator, 2)`; `none` if the separator is not in it
unfoldable pub split_once : Bytes → Bytes → Option (Bytes × Bytes)
unfolding cut_prefix
split_once separator [] = elim (cut_prefix separator []) [
  | none ↦ none
  | some rest ↦ some ([], rest)
]
split_once separator (c ∷ s) =
    let further = split_once separator s in
    elim (cut_prefix separator (c ∷ s)) [
      | some rest ↦ some ([], rest)
      | none ↦ elim further [ none ↦ none | some (before, after) ↦ some (c ∷ before, after) ]
    ]

-- the digits of a number, on fuel
unfoldable pub digits : ℕ → ℕ → Bytes
digits zero n = []
digits (suc fuel) n =
    let more = digits fuel (n / 10) in
    if ltb n 10 then (b'0' + n) ∷ [] else more ++ (b'0' + n % 10) ∷ []

-- `strconv.Itoa` of an index
unfoldable pub itoa : ℕ → Bytes
unfolding digits
itoa n = digits (suc n) n

unfoldable pub read_digits : ℕ → Bytes → Option ℕ
read_digits n [] = some n
read_digits n (c ∷ s) =
    let rest = read_digits (n * 10 + (c - b'0')) s in
    if leb b'0' c && leb c b'9' then rest else none

abbrev pub signed : Bool → Option ℕ → Option ℤ
signed negative none = none
signed false (some n) = if ltb n (2 ^ 63) then some (pos n) else none
signed true (some zero) = some (pos 0)
signed true (some (suc n)) = if ltb n (2 ^ 63) then some (negsuc n) else none

-- `strconv.Atoi`: an optional sign and digits, in the range of an `int`
unfoldable pub atoi : Bytes → Option ℤ
unfolding read_digits
atoi [] = none
atoi (c ∷ []) = signed false (read_digits 0 (c ∷ []))
atoi (c ∷ d ∷ s) =
    if nat_eq c b'-'
    then signed true (read_digits 0 (d ∷ s))
    else if nat_eq c b'+'
    then signed false (read_digits 0 (d ∷ s))
    else signed false (read_digits 0 (c ∷ d ∷ s))
