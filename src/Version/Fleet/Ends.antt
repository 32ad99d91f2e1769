-- ===== src/Version/Fleet/Ends.antt =====
-- The oldest and the newest version of the summary, as the ends of the sorted list of what is read.
use Prim.Native.Nat.{Ordering}
use dockplane.Base.{
  ◌≡◌, ◌≢◌, refl, sym, ap, some-injective, ◌∙◌, subst, some, Option-cases, Bool-cases, inl, inr,
  List, [], ◌∷◌, All, In, of_In, ◌==◌, ==_iff, arith,
}
use dockplane.Version.Codes.{Codes}
use dockplane.Version.Semver.{ParsedVersion, parse_version, compare_parsed}
use dockplane.Version.Fleet.{
  AgentVersionRow, Tally, Readable, codes_eq, normalise, read_row, set_readable, count_row,
  count_rows, empty_tally, sort, first_version, summarise_agent_versions,
}
use dockplane.Version.Order.{IsOrdered}
use dockplane.Version.Fleet.Sorting.{
  Entry, by_version, Le, Valid, Ends, All-sort, In-sort, Sorted-sort, Ends-of_In,
}

-- The rows that are read are kept under their text.
All-set_readable :
    (version : Codes) (parsed : ParsedVersion) (readable : Readable)
    → Valid (version, parsed)
    → All Valid readable
    → All Valid (set_readable version parsed readable)
unfolding set_readable
All-set_readable version parsed [] v h = (v, tt)
All-set_readable version parsed (entry ∷ readable) v (w, h) =
    ground (arith, All-set_readable version parsed readable v h)

-- Where the version of a row is read, its numbers are in range.
abbrev pub IsInRange : AgentVersionRow → Type 0
IsInRange row = (e : Entry) → read_row row ≡ some e → IsOrdered e.1

Valid-read_row :
    (row : AgentVersionRow) (found : Entry)
    → read_row row ≡ some found
    → IsInRange row
    → Valid found
unfolding read_row
Valid-read_row row found h range = elim (Option-cases (normalise row.version)) [
  | inl missing ↦ absurd (ground (arith, h, missing))
  | inr (version, named) ↦ elim (Option-cases (parse_version (some version))) [
    | inl unread ↦ absurd (ground (arith, h, named, unread))
    | inr (parsed, read) ↦
        let same : (version, parsed) ≡ found = ground (arith, h, named, read) in
        (subst (λ e. parse_version (some e.0) ≡ some e.1) same read, range found h)
  ]
]

In-set_readable :
    (version : Codes) (parsed : ParsedVersion) (readable : Readable)
    → In (version, parsed) (set_readable version parsed readable)
unfolding set_readable
In-set_readable version parsed [] = inl refl
In-set_readable version parsed (entry ∷ readable) = elim (Bool-cases (entry.0 == version)) [
  | inl same ↦ rw same (inl refl)
  | inr other ↦ rw other (inr (In-set_readable version parsed readable))
]

same_entry : (a b : Entry) → Valid a → Valid b → a.0 ≡ b.0 → a ≡ b
same_entry a b v w e =
    let read : parse_version (some a.0) ≡ parse_version (some b.0) =
      λ i. parse_version (some (e i)) in
    λ i. (e i, some-injective a.1 b.1 (sym v.0 ∙ (read ∙ w.0)) i)

-- An entry that holds what is read is kept.
In-set_other :
    (version : Codes) (parsed : ParsedVersion) (e : Entry) (readable : Readable)
    → Valid (version, parsed)
    → Valid e
    → In e readable
    → In e (set_readable version parsed readable)
unfolding set_readable
In-set_other version parsed e [] v w i = absurd i
In-set_other version parsed e (entry ∷ readable) v w i = elim (Bool-cases (entry.0 == version)) [
  | inl same ↦ rw same (elim i [
    | inl first ↦ inl (
        same_entry (version, parsed) e v w
          (sym ((==_iff entry.0 version).0 same) ∙ ap (λ a. a.0) first))
    | inr later ↦ inr later
  ])
  | inr other ↦ rw other (elim i [
    | inl first ↦ inl first
    | inr later ↦ inr (In-set_other version parsed e readable v w later)
  ])
]

-- What the loop keeps: every entry is how its text is read, and every row that is read has one.
Valid-count_row :
    (row : AgentVersionRow) (t : Tally)
    → IsInRange row
    → All Valid t.readable
    → All Valid (count_row row t).readable
unfolding count_row
Valid-count_row row t range h = elim (Option-cases (read_row row)) [
  | inl missing ↦ rw (count_row, missing) h
  | inr (found, e) ↦
      rw (count_row, e)
        (All-set_readable found.0 found.1 t.readable (Valid-read_row row found e range) h)
]

In-count_row_old :
    (row : AgentVersionRow) (t : Tally) (e : Entry)
    → IsInRange row
    → Valid e
    → In e t.readable
    → In e (count_row row t).readable
unfolding count_row
In-count_row_old row t e range v i = elim (Option-cases (read_row row)) [
  | inl missing ↦ rw (count_row, missing) i
  | inr (found, r) ↦
      rw (count_row, r)
        (In-set_other found.0 found.1 e t.readable (Valid-read_row row found r range) v i)
]

In-count_row_new :
    (row : AgentVersionRow) (t : Tally) (e : Entry)
    → read_row row ≡ some e
    → In e (count_row row t).readable
unfolding count_row
In-count_row_new row t e r = rw (count_row, r) (In-set_readable e.0 e.1 t.readable)

Valid-count_rows :
    (rows : List AgentVersionRow) (t : Tally)
    → All IsInRange rows
    → All Valid t.readable
    → All Valid (count_rows rows t).readable
unfolding count_rows
Valid-count_rows [] t range h = h
Valid-count_rows (row ∷ rows) t (one, range) h =
    Valid-count_rows rows (count_row row t) range (Valid-count_row row t one h)

In-count_rows_old :
    (rows : List AgentVersionRow) (t : Tally) (e : Entry)
    → All IsInRange rows
    → Valid e
    → In e t.readable
    → In e (count_rows rows t).readable
unfolding count_rows
In-count_rows_old [] t e range v i = i
In-count_rows_old (row ∷ rows) t e (one, range) v i =
    In-count_rows_old rows (count_row row t) e range v (In-count_row_old row t e one v i)

In-count_rows_new :
    (rows : List AgentVersionRow) (t : Tally) (row : AgentVersionRow) (e : Entry)
    → All IsInRange rows
    → In row rows
    → read_row row ≡ some e
    → In e (count_rows rows t).readable
unfolding count_rows
In-count_rows_new [] t row e range i r = absurd i
In-count_rows_new (first ∷ rows) t row e (one, range) (inl same) r =
    let r' : read_row first ≡ some e = ap read_row same ∙ r in
    In-count_rows_old rows (count_row first t) e range (Valid-read_row first e r' one)
      (In-count_row_new first t e r')
In-count_rows_new (first ∷ rows) t row e (one, range) (inr later) r =
    In-count_rows_new rows (count_row first t) row e range later r

-- Where the numbers of the versions that are read are finite, those of their prerelease identifiers
-- below 2 ^ 53, and an agent reports a version that is read, the summary names an oldest and a
-- newest version, each of them is read, and the agent's version does not stand below the oldest or
-- above the newest.
pub summary_ends :
    (locale_compare : Codes → Codes → Ordering) (rows : List AgentVersionRow)
    (row : AgentVersionRow) (text : Codes) (v : ParsedVersion)
    → All IsInRange rows
    → In row rows
    → read_row row ≡ some (text, v)
    → (oldest : Codes) × (newest : Codes) × (low : ParsedVersion) × (high : ParsedVersion)
      × ((summarise_agent_versions locale_compare rows).oldest_version ≡ some oldest)
      × ((summarise_agent_versions locale_compare rows).newest_version ≡ some newest)
      × (parse_version (some oldest) ≡ some low)
      × (parse_version (some newest) ≡ some high)
      × (compare_parsed low v ≢ Ordering.gt)
      × (compare_parsed v high ≢ Ordering.gt)
unfolding summarise_agent_versions Ends
summary_ends locale_compare rows row text v range i r =
    let readable = (count_rows rows empty_tally).readable in
    let ordered = sort by_version readable in
    let valid = All-sort Valid readable (Valid-count_rows rows empty_tally range tt) in
    let place : In (text, v) ordered =
      In-sort (text, v) readable (In-count_rows_new rows empty_tally row (text, v) range i r) in
    let sorted = Sorted-sort readable (Valid-count_rows rows empty_tally range tt) in
    let (oldest, newest, first, last, in_oldest, in_newest, between) =
      Ends-of_In (text, v) ordered place valid sorted in
    let (low, high) = of_In (λ e. Le oldest e × Le e newest) ordered (text, v) between place in
    (
      oldest.0,
      newest.0,
      oldest.1,
      newest.1,
      ap first_version first,
      ap first_version last,
      (of_In Valid ordered oldest valid in_oldest).0,
      (of_In Valid ordered newest valid in_newest).0,
      low,
      high,
    )
