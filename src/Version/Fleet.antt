-- ===== src/Version/Fleet.antt =====
-- api/src/version/agent-versions.ts: the summary of the versions that the agents run. A `Map` is
-- the list of its entries in the order of insertion. `sort` inserts each element before the first
-- one that it does not stand above, which is a stable sort wherever the comparison is consistent;
-- `locale_compare` is JavaScript's `localeCompare`.
pub mod Counting
pub mod Sorting
pub mod Ends
use Prim.Native.Nat.{compare, Ordering}
use dockplane.Base.{
  ℕ, suc, ◌+◌, Bool, true, false, not, ◌&&◌, ◌||◌, Option, none, some, Option-cases, List, [], ◌∷◌,
  length, head?, ltb, Eq, option_eq, ◌==◌, ◌≡◌, ◌↔◌, refl, arith, if◌then◌else◌, nat_eq,
}
use dockplane.Version.Codes.{Codes, trim}
use dockplane.Version.Semver.{ParsedVersion, parse_version, compare_parsed}

-- `===` on texts.
unfoldable pub codes_same : Codes → Codes → Bool
codes_same [] [] = true
codes_same [] (d ∷ t) = false
codes_same (c ∷ s) [] = false
codes_same (c ∷ s) (d ∷ t) = (c == d) && codes_same s t

pub codes_same_sound : (s t : Codes) → (codes_same s t ≡ true) ↔ (s ≡ t)
unfolding codes_same
codes_same_sound [] [] = ground arith
codes_same_sound [] (d ∷ t) = ground arith
codes_same_sound (c ∷ s) [] = ground arith
codes_same_sound (c ∷ s) (d ∷ t) = ground (arith, codes_same_sound s t)

instance unfoldable pub codes_eq : Eq Codes
codes_eq = record { same = codes_same; sound = codes_same_sound }

-- `MINIMUM_PROTOCOL_VERSION` and `PROTOCOL_VERSION`
abbrev pub minimum_protocol_version : ℕ
minimum_protocol_version = 1

abbrev pub protocol_version : ℕ
protocol_version = 1

pub record AgentVersionCount : Type 0 where
  pub version : Option Codes
  pub count : ℕ

pub record AgentVersionRow : Type 0 where
  pub version : Option Codes
  pub protocol_version : ℕ

pub record AgentVersionSummary : Type 0 where
  pub total : ℕ
  pub versions : List AgentVersionCount
  pub mixed_versions : Bool
  pub unknown_count : ℕ
  pub protocol_unsupported_count : ℕ
  pub oldest_version : Option Codes
  pub newest_version : Option Codes

unfoldable pub normalise : Option Codes → Option Codes
normalise none = none
normalise (some version) = elim (trim version) [ [] ↦ none | c ∷ s ↦ some (c ∷ s) ]

-- `counts.set(version, (counts.get(version) ?? 0) + 1)`
unfoldable pub count_one : Option Codes → List AgentVersionCount → List AgentVersionCount
count_one version [] = record { version = version; count = 1 } ∷ []
count_one version (entry ∷ counts) =
    if entry.version == version
    then record { version = entry.version; count = suc entry.count } ∷ counts
    else entry ∷ count_one version counts

abbrev pub Readable : Type 0
Readable = List (Codes × ParsedVersion)

-- `readable.set(version, parsed)`
unfoldable pub set_readable : Codes → ParsedVersion → Readable → Readable
set_readable version parsed [] = (version, parsed) ∷ []
set_readable version parsed (entry ∷ readable) =
    if entry.0 == version
    then (version, parsed) ∷ readable
    else entry ∷ set_readable version parsed readable

-- `readable.get(version)`
unfoldable pub get_readable : Codes → Readable → Option ParsedVersion
get_readable version [] = none
get_readable version (entry ∷ readable) =
    if entry.0 == version then some entry.1 else get_readable version readable

-- The variables of the loop over the rows.
pub record Tally : Type 0 where
  pub counts : List AgentVersionCount
  pub readable : Readable
  pub unknown_count : ℕ
  pub protocol_unsupported_count : ℕ

unfoldable pub is_unsupported : AgentVersionRow → Bool
is_unsupported row =
    ltb row.protocol_version minimum_protocol_version || ltb protocol_version row.protocol_version

-- The version of a row and how it is read, when it is.
unfoldable pub read_row : AgentVersionRow → Option (Codes × ParsedVersion)
read_row row = elim (normalise row.version) [
  | none ↦ none
  | some version ↦ elim (parse_version (some version)) [
    | none ↦ none
    | some parsed ↦ some (version, parsed)
  ]
]

unfoldable pub count_row : AgentVersionRow → Tally → Tally
count_row row t =
    let counts = count_one (normalise row.version) t.counts in
    let unsupported =
      if is_unsupported row
      then suc t.protocol_unsupported_count
      else t.protocol_unsupported_count in
    elim (read_row row) [
      | none ↦ record {
        counts = counts;
        readable = t.readable;
        unknown_count = suc t.unknown_count;
        protocol_unsupported_count = unsupported;
      }
      | some (version, parsed) ↦ record {
        counts = counts;
        readable = set_readable version parsed t.readable;
        unknown_count = t.unknown_count;
        protocol_unsupported_count = unsupported;
      }
    ]

unfoldable pub count_rows : List AgentVersionRow → Tally → Tally
count_rows [] t = t
count_rows (row ∷ rows) t = count_rows rows (count_row row t)

abbrev pub empty_tally : Tally
empty_tally = record {
  counts = [];
  readable = [];
  unknown_count = 0;
  protocol_unsupported_count = 0;
}

module _ {A : Type 0} (cmp : A → A → Ordering) where
  unfoldable pub insert : A → List A → List A
  insert x [] = x ∷ []
  insert x (y ∷ ys) = elim (cmp x y) [ Ordering.gt ↦ y ∷ insert x ys | _ ↦ x ∷ y ∷ ys ]

  unfoldable pub sort : List A → List A
  sort [] = []
  sort (x ∷ xs) = insert x (sort xs)

abbrev pub last? : {A : Type 0} → List A → Option A
last? [] = none
last? (x ∷ []) = some x
last? (x ∷ y ∷ xs) = last? (y ∷ xs)

abbrev pub first_version : Option (Codes × ParsedVersion) → Option Codes
first_version none = none
first_version (some entry) = some entry.0

module _ (locale_compare : Codes → Codes → Ordering) where
  -- Most used first, then newest first, with the agents that name no version last.
  unfoldable pub compare_counts : Readable → AgentVersionCount → AgentVersionCount → Ordering
  compare_counts readable a b = elim (compare b.count a.count) [
    | Ordering.lt ↦ Ordering.lt
    | Ordering.gt ↦ Ordering.gt
    | Ordering.eq ↦ elim a.version [
      | none ↦ Ordering.gt
      | some left ↦ elim b.version [
        | none ↦ Ordering.lt
        | some right ↦ elim (get_readable left readable) [
          | none ↦ locale_compare left right
          | some l ↦ elim (get_readable right readable) [
            | none ↦ locale_compare left right
            | some r ↦ compare_parsed r l
          ]
        ]
      ]
    ]
  ]

  unfoldable pub summarise_agent_versions : List AgentVersionRow → AgentVersionSummary
  summarise_agent_versions rows =
      let t = count_rows rows empty_tally in
      let ordered = sort (λ a b. compare_parsed a.1 b.1) t.readable in
      record {
        total = length rows;
        versions = sort (compare_counts t.readable) t.counts;
        mixed_versions = ltb 1 (length t.readable);
        unknown_count = t.unknown_count;
        protocol_unsupported_count = t.protocol_unsupported_count;
        oldest_version = first_version (head? ordered);
        newest_version = first_version (last? ordered);
      }
