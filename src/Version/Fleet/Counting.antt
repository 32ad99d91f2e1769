-- ===== src/Version/Fleet/Counting.antt =====
-- What the summary counts: every agent once, under the version that it reports.
use dockplane.Base.{
  ℕ, suc, ◌+◌, ◌≡◌, refl, ap, Option, Option-cases, inl, inr, List, [], ◌∷◌, length, filter,
  is_none, ◌==◌, ==_iff, option_eq, arith, if◌then◌else◌,
}
use Prim.Native.Nat.{Ordering}
use dockplane.Version.Codes.{Codes}
use dockplane.Version.Fleet.{
  AgentVersionCount, AgentVersionRow, Tally, codes_eq, normalise, count_one, read_row,
  is_unsupported, count_row, count_rows, empty_tally, insert, sort, compare_counts,
  summarise_agent_versions,
}

-- The agents under all the versions.
unfoldable pub sum_counts : List AgentVersionCount → ℕ
sum_counts [] = 0
sum_counts (entry ∷ counts) = entry.count + sum_counts counts

-- The agents under one version.
unfoldable pub count_of : Option Codes → List AgentVersionCount → ℕ
count_of version [] = 0
count_of version (entry ∷ counts) =
    (if entry.version == version then entry.count else 0) + count_of version counts

sum_counts-count_one :
    (version : Option Codes) (counts : List AgentVersionCount)
    → sum_counts (count_one version counts) ≡ suc (sum_counts counts)
unfolding sum_counts count_one
sum_counts-count_one version [] = refl
sum_counts-count_one version (entry ∷ counts) = ground (arith, sum_counts-count_one version counts)

count_of-count_one :
    (version other : Option Codes) (counts : List AgentVersionCount)
    → count_of other (count_one version counts)
      ≡ (if version == other then 1 else 0) + count_of other counts
unfolding count_of count_one
count_of-count_one version other [] = refl
count_of-count_one version other (entry ∷ counts) = ground (
  arith,
  count_of-count_one version other counts,
  ==_iff entry.version version,
  ==_iff entry.version other,
  ==_iff version other,
)

counts-count_row :
    (row : AgentVersionRow) (t : Tally)
    → (count_row row t).counts ≡ count_one (normalise row.version) t.counts
unfolding count_row
counts-count_row row t = elim (Option-cases (read_row row)) [
  | inl missing ↦ ground (arith, missing)
  | inr (found, e) ↦ ground (arith, e)
]

unknown-count_row :
    (row : AgentVersionRow) (t : Tally)
    → (count_row row t).unknown_count ≡ (if is_none (read_row row) then 1 else 0) + t.unknown_count
unfolding count_row
unknown-count_row row t = elim (Option-cases (read_row row)) [
  | inl missing ↦ ground (arith, missing)
  | inr (found, e) ↦ ground (arith, e)
]

unsupported-count_row :
    (row : AgentVersionRow) (t : Tally)
    → (count_row row t).protocol_unsupported_count
      ≡ (if is_unsupported row then 1 else 0) + t.protocol_unsupported_count
unfolding count_row
unsupported-count_row row t = elim (Option-cases (read_row row)) [
  | inl missing ↦ ground (arith, missing)
  | inr (found, e) ↦ ground (arith, e)
]

sum_counts-count_rows :
    (rows : List AgentVersionRow) (t : Tally)
    → sum_counts (count_rows rows t).counts ≡ length rows + sum_counts t.counts
unfolding count_rows
sum_counts-count_rows [] t = ground arith
sum_counts-count_rows (row ∷ rows) t =
    let step = ap sum_counts (counts-count_row row t) in
    omega (
      arith,
      sum_counts-count_rows rows (count_row row t),
      step,
      sum_counts-count_one (normalise row.version) t.counts,
    )

count_of-count_rows :
    (version : Option Codes) (rows : List AgentVersionRow) (t : Tally)
    → count_of version (count_rows rows t).counts
      ≡ length (filter (λ row. normalise row.version == version) rows) + count_of version t.counts
unfolding count_rows
count_of-count_rows version [] t = ground arith
count_of-count_rows version (row ∷ rows) t =
    let step = ap (count_of version) (counts-count_row row t) in
    ground (
      arith,
      count_of-count_rows version rows (count_row row t),
      step,
      count_of-count_one (normalise row.version) version t.counts,
    )

unknown-count_rows :
    (rows : List AgentVersionRow) (t : Tally)
    → (count_rows rows t).unknown_count
      ≡ length (filter (λ row. is_none (read_row row)) rows) + t.unknown_count
unfolding count_rows
unknown-count_rows [] t = ground arith
unknown-count_rows (row ∷ rows) t =
    ground (arith, unknown-count_rows rows (count_row row t), unknown-count_row row t)

unsupported-count_rows :
    (rows : List AgentVersionRow) (t : Tally)
    → (count_rows rows t).protocol_unsupported_count
      ≡ length (filter is_unsupported rows) + t.protocol_unsupported_count
unfolding count_rows
unsupported-count_rows [] t = ground arith
unsupported-count_rows (row ∷ rows) t =
    ground (arith, unsupported-count_rows rows (count_row row t), unsupported-count_row row t)

-- Sorting keeps the counts.
module _ (cmp : AgentVersionCount → AgentVersionCount → Ordering) where
  sum_counts-insert :
      (x : AgentVersionCount) (xs : List AgentVersionCount)
      → sum_counts (insert cmp x xs) ≡ x.count + sum_counts xs
  unfolding sum_counts insert
  sum_counts-insert x [] = refl
  sum_counts-insert x (y ∷ ys) = ground (arith, sum_counts-insert x ys)

  sum_counts-sort : (xs : List AgentVersionCount) → sum_counts (sort cmp xs) ≡ sum_counts xs
  unfolding sum_counts sort
  sum_counts-sort [] = refl
  sum_counts-sort (x ∷ xs) = omega (arith, sum_counts-insert x (sort cmp xs), sum_counts-sort xs)

  count_of-insert :
      (version : Option Codes) (x : AgentVersionCount) (xs : List AgentVersionCount)
      → count_of version (insert cmp x xs) ≡ count_of version (x ∷ xs)
  unfolding count_of insert
  count_of-insert version x [] = refl
  count_of-insert version x (y ∷ ys) = ground (arith, count_of-insert version x ys)

  count_of-sort :
      (version : Option Codes) (xs : List AgentVersionCount)
      → count_of version (sort cmp xs) ≡ count_of version xs
  unfolding count_of sort
  count_of-sort version [] = refl
  count_of-sort version (x ∷ xs) =
      ground (arith, count_of-insert version x (sort cmp xs), count_of-sort version xs)

-- The summary counts every agent once: under each version stand as many agents as report it, the
-- counts add up to the total, which is the number of agents, and the counts of unknown versions and
-- of unsupported protocols are the numbers of the agents whose version is not read and of those
-- whose protocol is outside the range.
summary_counts :
    (locale_compare : Codes → Codes → Ordering) (rows : List AgentVersionRow)
    (version : Option Codes)
    → (count_of version (summarise_agent_versions locale_compare rows).versions
        ≡ length (filter (λ row. normalise row.version == version) rows))
      × (sum_counts (summarise_agent_versions locale_compare rows).versions
          ≡ (summarise_agent_versions locale_compare rows).total)
      × ((summarise_agent_versions locale_compare rows).total ≡ length rows)
      × ((summarise_agent_versions locale_compare rows).unknown_count
          ≡ length (filter (λ row. is_none (read_row row)) rows))
      × ((summarise_agent_versions locale_compare rows).protocol_unsupported_count
          ≡ length (filter is_unsupported rows))
unfolding summarise_agent_versions
summary_counts locale_compare rows version =
    let t = count_rows rows empty_tally in
    let cmp = compare_counts locale_compare t.readable in
    let no_agents : sum_counts [] ≡ 0 = unfold sum_counts in refl in
    let no_version : count_of version [] ≡ 0 = unfold count_of in refl in
    let one = count_of-sort cmp version t.counts in
    let whole = sum_counts-sort cmp t.counts in
    (
      omega (arith, one, count_of-count_rows version rows empty_tally, no_version),
      omega (arith, whole, sum_counts-count_rows rows empty_tally, no_agents),
      refl,
      omega (arith, unknown-count_rows rows empty_tally),
      omega (arith, unsupported-count_rows rows empty_tally),
    )
