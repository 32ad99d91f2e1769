-- ===== src/Version/Decimal.antt =====
-- The decimal print of a number, and that it undoes the reading of `Number(text)`: a number without
-- leading zeros is the print of its value.
use Prim.Native.Nat.{zero, suc, ◌/◌, ◌%◌, ◌*◌, ◌-◌}
use mathlib.Core.List.{append_assoc, append-nil}
use dockplane.Base.{
  ℕ, ◌+◌, ◌≤◌, ◌<◌, ◌≡◌, refl, sym, ap, ◌∙◌, ◌⊎◌, inl, inr, Bool, true, ◌&&◌, [], ◌∷◌, ◌++◌, arith,
  all, ltb, nat_eq, Bool-cases, ==_iff, if◌then◌else◌,
}
use dockplane.Version.Codes.{Codes, is_digit, is_numeric, value}

-- Each round prints the last digit behind those of the tenth.
digits_from : ℕ → ℕ → Codes
digits_from zero n = (b'0' + n % 10) ∷ []
digits_from (suc fuel) n =
    let front = digits_from fuel (n / 10) in
    if ltb n 10 then (b'0' + n % 10) ∷ [] else front ++ (b'0' + n % 10) ∷ []

-- A number has at most as many digits beyond the first as it has units.
unfoldable pub print_number : ℕ → Codes
unfolding digits_from
print_number n = digits_from n n

enough_fuel : (f g n : ℕ) → n ≤ f → n ≤ g → digits_from f n ≡ digits_from g n
unfolding digits_from
enough_fuel zero zero n a b = refl
enough_fuel zero (suc g) n a b = ground arith
enough_fuel (suc f) zero n a b = ground arith
enough_fuel (suc f) (suc g) n a b = ground (arith, enough_fuel f g (n / 10))

pub print_number_step :
    (n : ℕ)
    → print_number n
      ≡ (if ltb n 10 then (b'0' + n % 10) ∷ [] else print_number (n / 10) ++ (b'0' + n % 10) ∷ [])
unfolding print_number digits_from
print_number_step zero = refl
print_number_step (suc n) = ground (arith, enough_fuel n (suc n / 10) (suc n / 10))

all-append : (p : ℕ → Bool) (s t : Codes) → all p (s ++ t) ≡ (all p s && all p t)
all-append p [] t = refl
all-append p (c ∷ s) t = ground (arith, all-append p s t)

print_number-push :
    (n c : ℕ)
    → 1 ≤ n
    → is_digit c ≡ true
    → print_number (n * 10 + (c - b'0')) ≡ print_number n ++ c ∷ []
unfolding is_digit
print_number-push n c h d =
    let tenth : (n * 10 + (c - b'0')) / 10 ≡ n = ground arith in
    let last : b'0' + (n * 10 + (c - b'0')) % 10 ≡ c = ground arith in
    ground (arith, print_number_step (n * 10 + (c - b'0')))

print_number-value :
    (s : Codes) (n : ℕ)
    → 1 ≤ n
    → all is_digit s ≡ true
    → print_number (value n s) ≡ print_number n ++ s
unfolding value
print_number-value [] n h d = sym (append-nil (print_number n))
print_number-value (c ∷ s) n h d =
    let (head, tail) : (is_digit c ≡ true) × (all is_digit s ≡ true) = ground (arith, d) in
    print_number-value s (n * 10 + (c - b'0')) (omega arith) tail
    ∙ (ap (λ front. front ++ s) (print_number-push n c h head)
        ∙ append_assoc (print_number n) (c ∷ []) s)

print_number-value_digit : (c : ℕ) → is_digit c ≡ true → print_number (0 * 10 + (c - b'0')) ≡ c ∷ []
unfolding is_digit
print_number-value_digit c d = ground (arith, print_number_step (0 * 10 + (c - b'0')))

-- The text of a number without leading zeros is the print of its value.
pub print_number-value_numeric : (s : Codes) → is_numeric s ≡ true → print_number (value 0 s) ≡ s
unfolding is_numeric value
print_number-value_numeric [] h = absurd (ground arith)
print_number-value_numeric (c ∷ []) h = print_number-value_digit c h
print_number-value_numeric (c ∷ d ∷ s) h =
    let (head, tail) : (is_digit c ≡ true) × (all is_digit (d ∷ s) ≡ true) = ground (arith, h) in
    let positive : 1 ≤ 0 * 10 + (c - b'0') = unfold is_digit in ground (arith, ==_iff c b'0') in
    print_number-value (d ∷ s) (0 * 10 + (c - b'0')) positive tail
    ∙ ap (λ front. front ++ d ∷ s) (print_number-value_digit c head)

-- Numbers without leading zeros that have the same value are the same text.
pub value_inj :
    (s t : Codes) → is_numeric s ≡ true → is_numeric t ≡ true → value 0 s ≡ value 0 t → s ≡ t
value_inj s t hs ht e =
    sym (print_number-value_numeric s hs) ∙ (ap print_number e ∙ print_number-value_numeric t ht)

value-append : (s t : Codes) (n : ℕ) → value n (s ++ t) ≡ value (value n s) t
unfolding value
value-append [] t n = refl
value-append (c ∷ s) t n = value-append s t (n * 10 + (c - b'0'))

digits_from-value : (f n : ℕ) → n ≤ f → value 0 (digits_from f n) ≡ n
unfolding digits_from value
digits_from-value zero n h = ground arith
digits_from-value (suc f) n h = ground (
  arith,
  digits_from-value f (n / 10),
  value-append (digits_from f (n / 10)) ((b'0' + n % 10) ∷ []) 0,
)

-- A printed number is read back.
pub value-print_number : (n : ℕ) → value 0 (print_number n) ≡ n
unfolding print_number
value-print_number n = digits_from-value n n (omega arith)

-- A print has only digits, and starts with zero only when it is zero.
abbrev IsPrint : Codes → ℕ → Type 0
IsPrint [] n = ⊥
IsPrint (c ∷ s) n =
    (is_digit c ≡ true) × (all is_digit s ≡ true) × (b'0' < c ⊎ ((n ≡ 0) × (s ≡ [])))

IsPrint-append :
    (s : Codes) (n c : ℕ)
    → 0 < n / 10
    → IsPrint s (n / 10)
    → is_digit c ≡ true
    → IsPrint (s ++ c ∷ []) n
IsPrint-append [] n c pos h d = absurd h
IsPrint-append (a ∷ s) n c pos h d = ground (arith, all-append is_digit s (c ∷ []))

digits_from-IsPrint : (f n : ℕ) → n ≤ f → IsPrint (digits_from f n) n
unfolding digits_from is_digit
digits_from-IsPrint zero n h = ground arith
digits_from-IsPrint (suc f) n h = elim (Bool-cases (ltb n 10)) [
  | inl small ↦ rw small (ground arith)
  | inr large ↦ rw large (
      IsPrint-append (digits_from f (n / 10)) n (b'0' + n % 10) (ground arith)
        (digits_from-IsPrint f (n / 10) (ground arith)) (ground arith))
]

numeric_of_IsPrint : (s : Codes) (n : ℕ) → IsPrint s n → is_numeric s ≡ true
unfolding is_numeric
numeric_of_IsPrint [] n h = absurd h
numeric_of_IsPrint (c ∷ []) n h = h.0
numeric_of_IsPrint (c ∷ d ∷ s) n h = ground (arith, ==_iff c b'0')

pub is_numeric-print_number : (n : ℕ) → is_numeric (print_number n) ≡ true
unfolding print_number
is_numeric-print_number n = numeric_of_IsPrint _ n (digits_from-IsPrint n n (omega arith))
