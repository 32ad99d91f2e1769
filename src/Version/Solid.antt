-- ===== src/Version/Solid.antt =====
-- Printed versions hold no white space, so that `trim` leaves them as they are.
use dockplane.Base.{
  ℕ, ◌≡◌, refl, ap, ◌∙◌, true, false, Option, none, some, List, [], ◌∷◌, ◌++◌, arith, All, All-map,
  all_iff, nat_eq, ◌==◌, ==_iff, Bool-cases, inl, inr,
}
use dockplane.Version.Codes.{
  Codes, is_digit, is_letter, is_word, is_space, trim, trim_start, trim_end, split, is_identifier,
  is_build_identifier, push,
}
use dockplane.Version.Decimal.{print_number, is_numeric-print_number}
use dockplane.Version.Semver.{VersionGroups, is_build, is_build_or_none}
use dockplane.Version.Order.{IsIdentifier, IsVersion}
use dockplane.Version.Printing.{
  print_version, print_prerelease, print_build, join, words_of_identifier,
}

-- No white space in the text.
abbrev pub IsSolid : Codes → Type 0
IsSolid s = All (λ c. is_space c ≡ false) s

trim_start-IsSolid : (s : Codes) → IsSolid s → trim_start s ≡ s
unfolding trim_start
trim_start-IsSolid [] h = refl
trim_start-IsSolid (c ∷ s) (hc, h) = rw hc refl

trim_end-IsSolid : (s : Codes) → IsSolid s → trim_end s ≡ s
unfolding trim_end
trim_end-IsSolid [] h = refl
trim_end-IsSolid (c ∷ []) (hc, h) = rw hc refl
trim_end-IsSolid (c ∷ d ∷ s) (hc, h) = rw (trim_end-IsSolid (d ∷ s) h) refl

pub trim-IsSolid : (s : Codes) → IsSolid s → trim s ≡ s
unfolding trim
trim-IsSolid s h = ap trim_end (trim_start-IsSolid s h) ∙ trim_end-IsSolid s h

word_not_space : (c : ℕ) → is_word c ≡ true → is_space c ≡ false
unfolding is_word is_digit is_letter is_space
word_not_space c h = ground (arith, ==_iff c b'-')

IsSolid-append : (s t : Codes) → IsSolid s → IsSolid t → IsSolid (s ++ t)
IsSolid-append [] t hs ht = ht
IsSolid-append (c ∷ s) t (hc, hs) ht = (hc, IsSolid-append s t hs ht)

IsSolid-identifier : (s : Codes) → IsIdentifier s → IsSolid s
IsSolid-identifier s h = All-map word_not_space s (words_of_identifier s h)

IsSolid-join : (ids : List Codes) → All IsIdentifier ids → IsSolid (join ids)
unfolding join is_space
IsSolid-join [] h = tt
IsSolid-join (part ∷ []) (h, _) = IsSolid-identifier part h
IsSolid-join (part ∷ next ∷ parts) (h, k) =
    IsSolid-append part _ (IsSolid-identifier part h) (refl, IsSolid-join (next ∷ parts) k)

IsSolid-number : (n : ℕ) → IsSolid (print_number n)
unfolding is_identifier
IsSolid-number n = IsSolid-identifier (print_number n) (rw (is_numeric-print_number n) refl)

IsSolid-prerelease : (ids : List Codes) → All IsIdentifier ids → IsSolid (print_prerelease ids)
unfolding print_prerelease is_space
IsSolid-prerelease [] h = tt
IsSolid-prerelease (part ∷ parts) h = (refl, IsSolid-join (part ∷ parts) h)

build_word : (s : Codes) → is_build_identifier s ≡ true → IsSolid s
unfolding is_build_identifier
build_word [] h = tt
build_word (c ∷ s) h = All-map word_not_space (c ∷ s) ((all_iff is_word (c ∷ s)).0 h)

dot_not_space : (c : ℕ) → c ≡ b'.' → is_space c ≡ false
unfolding is_space
dot_not_space c e = rw e refl

IsSolid-push :
    (c : ℕ) (parts : List Codes)
    → All IsSolid (push c parts)
    → (is_space c ≡ false) × All IsSolid parts
IsSolid-push c [] ((hc, _), _) = (hc, tt)
IsSolid-push c (part ∷ parts) ((hc, h), k) = (hc, (h, k))

-- The parts of a split text are solid only when the text is.
IsSolid-split : (s : Codes) → All IsSolid (split b'.' s) → IsSolid s
unfolding split
IsSolid-split [] h = tt
IsSolid-split (c ∷ s) h = elim (Bool-cases (c == b'.')) [
  | inl dot ↦
      let (_, k) : IsSolid [] × All IsSolid (split b'.' s) = rw dot at h in
      (dot_not_space c ((==_iff c b'.').0 dot), IsSolid-split s k)
  | inr other ↦ let k = IsSolid-push c (split b'.' s) (rw other at h) in (k.0, IsSolid-split s k.1)
]

IsSolid-build : (build : Option Codes) → is_build_or_none build ≡ true → IsSolid (print_build build)
unfolding print_build is_build_or_none is_build is_space
IsSolid-build none h = tt
IsSolid-build (some s) h = (
  refl,
  IsSolid-split s (All-map build_word (split b'.' s) ((all_iff is_build_identifier _).0 h)),
)

pub IsSolid-print :
    (v : VersionGroups) (build : Option Codes)
    → IsVersion v
    → is_build_or_none build ≡ true
    → IsSolid (print_version v build)
unfolding print_version IsVersion is_space
IsSolid-print v build h b = IsSolid-append _ _ (IsSolid-number v.major) (
  refl,
  IsSolid-append _ _ (IsSolid-number v.minor) (
    refl,
    IsSolid-append _ _ (IsSolid-number v.patch)
        (IsSolid-append _ _ (IsSolid-prerelease v.prerelease h) (IsSolid-build build b)),
  ),
)
