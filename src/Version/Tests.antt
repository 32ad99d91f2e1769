-- ===== src/Version/Tests.antt =====
-- Runs of the reading, the order and the summary, and the witnesses.
use Prim.Native.Nat.{Ordering}
use dockplane.Base.{
  ℕ, sym, subst, ◌∙◌, some-injective, All, arith, ◌≡◌, ◌≢◌, ◌↔◌, refl, inl, true, false, Option,
  none, some, String, List, [], ◌∷◌, option_eq,
}
use dockplane.Version.Codes.{Codes, codes, trim, is_identifier}
use dockplane.Version.Semver.{
  ParsedVersion, VersionGroups, parsed, without_v, read_number, read_part, read_suffix,
  match_version, parse_version, compare_parsed, compare_versions, is_newer, is_build_or_none,
}
use dockplane.Version.Order.{IsVersion, IsOrdered}
use dockplane.Version.Printing.{print_version}
use dockplane.Version.Reading.{
  parse_version-print_version, parse_version_iff, VersionText, exactly, IsSmall,
}
use dockplane.Version.Attribution.{
  supports_stack_attribution, supports_stack_attribution_iff, IsRecent,
}
use dockplane.Version.Fleet.{
  AgentVersionRow, codes_eq, normalise, read_row, summarise_agent_versions,
}
use dockplane.Version.Fleet.Ends.{IsInRange, summary_ends}
use dockplane.Version.Numbers.{finite, infinite, number}
use dockplane.Version.Fleet.Sorting.{Entry}

abbrev candidate : VersionGroups
candidate = record { major = 1; minor = 20; patch = 3; prerelease = codes "rc" ∷ codes "2" ∷ [] }

abbrev text : String → Option Codes
text s = some (codes s)

abbrev order_of_text : Codes → Codes → Ordering
order_of_text a b = Ordering.eq

abbrev rows : List AgentVersionRow
rows =
    record { version = text "0.10.0"; protocol_version = 1 }
    ∷ record { version = text "0.9.0"; protocol_version = 2 }
    ∷ record { version = none; protocol_version = 1 }
    ∷ record { version = text " 0.9.0 "; protocol_version = 1 }
    ∷ []

reads :
    (parse_version (text " v1.20.3-rc.2+5f0c ") ≡ some (exactly candidate))
    × (parse_version (text "1.0") ≡ none)
    × (parse_version (text "01.0.0") ≡ none)
    × (parse_version (text "1.0.0-01") ≡ none)
    × (is_newer (text "0.10.0") (text "0.9.0") ≡ some true)
    × (is_newer (text "1.0.0-rc.1") (text "1.0.0") ≡ some false)
    × (is_newer (text "1.0.0") (text "latest") ≡ none)
unfolding number parse_version match_version without_v read_number read_part read_suffix trim
    compare_versions is_newer compare_parsed
reads = (refl, refl, refl, refl, refl, refl, refl)

valid_candidate : IsVersion candidate
unfolding IsVersion is_identifier
valid_candidate = (refl, (refl, tt))

candidate-IsSmall : IsSmall candidate
candidate-IsSmall = (omega arith, omega arith, omega arith)

parse_version-print_version_example :
    (parse_version (some (print_version candidate (text "5f0c"))) ≡ some (exactly candidate))
    × (parse_version (some (b'v' ∷ print_version candidate (text "5f0c")))
        ≡ some (exactly candidate))
unfolding is_build_or_none
parse_version-print_version_example =
    parse_version-print_version candidate (text "5f0c") valid_candidate candidate-IsSmall refl

parse_version_iff_example : (parse_version (text "v1.20.3-rc.2") ≡ some (exactly candidate)) ↔ (
    (g : VersionGroups) × IsVersion g
    × VersionText (without_v (trim (codes "v1.20.3-rc.2"))) g
    × (exactly candidate ≡ parsed g))
parse_version_iff_example = parse_version_iff (codes "v1.20.3-rc.2") (exactly candidate)

supported :
    (supports_stack_attribution (text "0.3.0") ≡ true)
    × (is_newer (text "0.10.0") (text "0.3.0") ≡ some true)
unfolding number supports_stack_attribution parse_version match_version without_v read_number
    read_part read_suffix trim compare_versions is_newer compare_parsed
supported = (refl, refl)

supports_stack_attribution_iff_example :
    (supports_stack_attribution (text "0.3.0") ≡ true)
    ↔ ((v : ParsedVersion) × (parse_version (text "0.3.0") ≡ some v) × IsRecent v)
supports_stack_attribution_iff_example = supports_stack_attribution_iff (text "0.3.0")

abbrev ten : ParsedVersion
ten = record { major = finite 0; minor = finite 10; patch = finite 0; prerelease = [] }

finite_number : (n : ℕ) → finite n ≢ infinite
finite_number n e = ground (arith, e)

read-IsInRange :
    (row : AgentVersionRow) (w : Entry) → read_row row ≡ some w → IsOrdered w.1 → IsInRange row
read-IsInRange row w found h e read =
    subst (λ x. IsOrdered x.1) (some-injective w e (sym found ∙ read)) h

unread-IsInRange : (row : AgentVersionRow) → read_row row ≡ none → IsInRange row
unread-IsInRange row missing e read = absurd (ground (arith, missing, read))

plain-IsOrdered :
    (minor : ℕ)
    → IsOrdered
        (record { major = finite 0; minor = finite minor; patch = finite 0; prerelease = [] })
unfolding IsOrdered
plain-IsOrdered minor = (finite_number 0, finite_number minor, finite_number 0, tt)

rows-IsInRange : All IsInRange rows
unfolding read_row normalise parse_version match_version without_v read_number read_part read_suffix
    trim number
rows-IsInRange = (
  read-IsInRange (record { version = text "0.10.0"; protocol_version = 1 }) (codes "0.10.0", ten)
      refl (plain-IsOrdered 10),
  (
    read-IsInRange (record { version = text "0.9.0"; protocol_version = 2 })
        (codes "0.9.0", record ten { minor = finite 9 }) refl (plain-IsOrdered 9),
    (
      unread-IsInRange (record { version = none; protocol_version = 1 }) refl,
      (
        read-IsInRange (record { version = text " 0.9.0 "; protocol_version = 1 })
            (codes "0.9.0", record ten { minor = finite 9 }) refl (plain-IsOrdered 9),
        tt,
      ),
    ),
  ),
)

reads_ten :
    read_row (record { version = text "0.10.0"; protocol_version = 1 }) ≡ some (codes "0.10.0", ten)
unfolding read_row normalise parse_version match_version without_v read_number read_part read_suffix
    trim number
reads_ten = refl

summary_ends_example :
    (oldest : Codes) × (newest : Codes) × (low : ParsedVersion) × (high : ParsedVersion)
    × ((summarise_agent_versions order_of_text rows).oldest_version ≡ some oldest)
    × ((summarise_agent_versions order_of_text rows).newest_version ≡ some newest)
    × (parse_version (some oldest) ≡ some low)
    × (parse_version (some newest) ≡ some high)
    × (compare_parsed low ten ≢ Ordering.gt)
    × (compare_parsed ten high ≢ Ordering.gt)
summary_ends_example =
    summary_ends order_of_text rows (record { version = text "0.10.0"; protocol_version = 1 })
      (codes "0.10.0") ten rows-IsInRange (inl refl) reads_ten

-- 2 ^ 53 + 1 and 2 ^ 53 + 3 lie between two numbers of JavaScript, and the even one is taken.
rounded :
    (number 9007199254740993 ≡ finite 9007199254740992)
    × (number 9007199254740995 ≡ finite 9007199254740996)
    × (number 18014398509481987 ≡ finite 18014398509481988)
unfolding number
rounded = (refl, refl, refl)
