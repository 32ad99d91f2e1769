-- ===== src/Version/Attribution.antt =====
-- api/src/stacks/stack-attribution.ts: the agent release from which containers name their stack.
use Prim.Native.Nat.{Ordering}
use dockplane.Version.Numbers.{Number, finite, infinite, number, compare_numeric, minus_or}
use dockplane.Base.{
  ℕ, ◌≡◌, ◌≢◌, ◌↔◌, ◌⊎◌, ◌<◌, refl, sym, subst, ◌∙◌, some-injective, String, Bool, true, false,
  Option, none, some, Option-cases, [], ◌∷◌, Result, ok, err, conflict, ◌<>◌, if◌then◌else◌, arith,
  inl, inr,
}
use dockplane.Version.Codes.{Codes, codes, trim}
use dockplane.Version.Semver.{
  ParsedVersion, and_then, match_version, read_number, read_part, read_suffix, without_v,
  parse_version, compare_versions, compare_parsed, compare_prerelease,
}

abbrev pub minimum_agent_version : String
minimum_agent_version = "0.3.0-rc.2"

unfoldable pub supports_stack_attribution : Option Codes → Bool
supports_stack_attribution version =
    elim (compare_versions version (some (codes minimum_agent_version))) [
      | none ↦ false
      | some order ↦ elim order [ Ordering.lt ↦ false | _ ↦ true ]
    ]

unfoldable pub assert_stack_attribution : Option Codes → String → Result (Unit {0})
assert_stack_attribution version what =
    if supports_stack_attribution version
    then ok tt
    else err (
        conflict "AGENT_UPGRADE_REQUIRED" (
          "The agent on this host is older than " <> minimum_agent_version
          <> " and does not report which stack its containers belong to, so " <> what
          <> ". Upgrade the agent on this host."))

-- The number is above `n`.
abbrev pub Above : Number → ℕ → Type 0
Above (finite m) n = n < m
Above infinite n = Unit

-- 0.3.0-rc.2 or above it.
abbrev pub IsRecent : ParsedVersion → Type 0
IsRecent v =
    Above v.major 0
    ⊎ Above v.minor 3
    ⊎ ((v.minor ≡ finite 3)
        × (Above v.patch 0
            ⊎ (compare_prerelease v.prerelease (codes "rc" ∷ codes "2" ∷ []) ≢ Ordering.lt)))

minimum : ParsedVersion
minimum = record {
  major = finite 0;
  minor = finite 3;
  patch = finite 0;
  prerelease = codes "rc" ∷ codes "2" ∷ [];
}

parse-minimum : parse_version (some (codes minimum_agent_version)) ≡ some minimum
unfolding parse_version trim minimum match_version read_number read_part read_suffix without_v
    number
parse-minimum = refl

patch_iff :
    (p : Number) (o : Ordering)
    → (and_then (compare_numeric p (finite 0)) o ≢ Ordering.lt) ↔ (Above p 0 ⊎ (o ≢ Ordering.lt))
unfolding compare_numeric
patch_iff (finite n) o = ground arith
patch_iff infinite o = ground arith

minor_iff :
    (m : Number) (o : Ordering)
    → (minus_or m (finite 3) o ≢ Ordering.lt) ↔ (Above m 3 ⊎ ((m ≡ finite 3) × (o ≢ Ordering.lt)))
unfolding minus_or
minor_iff (finite n) o = ground arith
minor_iff infinite o = ground arith

major_iff :
    (m : Number) (o : Ordering)
    → (minus_or m (finite 0) o ≢ Ordering.lt) ↔ (Above m 0 ⊎ (o ≢ Ordering.lt))
unfolding minus_or
major_iff (finite n) o = ground arith
major_iff infinite o = ground arith

not_lower_iff : (v : ParsedVersion) → (compare_parsed v minimum ≢ Ordering.lt) ↔ IsRecent v
unfolding compare_parsed minimum
not_lower_iff v =
    let o = compare_prerelease v.prerelease (codes "rc" ∷ codes "2" ∷ []) in
    let rest = and_then (compare_numeric v.patch (finite 0)) o in
    ground (
      arith,
      major_iff v.major (minus_or v.minor (finite 3) rest),
      minor_iff v.minor rest,
      patch_iff v.patch o,
    )

compare_read :
    (a b : Option Codes) (v w : ParsedVersion)
    → parse_version a ≡ some v
    → parse_version b ≡ some w
    → compare_versions a b ≡ some (compare_parsed v w)
unfolding compare_versions
compare_read a b v w ha hb = rw (compare_versions, ha, hb) refl

compare_unread : (a b : Option Codes) → parse_version a ≡ none → compare_versions a b ≡ none
unfolding compare_versions
compare_unread a b h = rw (compare_versions, h) refl

supports_unread :
    (version : Option Codes)
    → parse_version version ≡ none
    → supports_stack_attribution version ≡ false
unfolding supports_stack_attribution
supports_unread version h =
    rw (supports_stack_attribution, compare_unread version (some (codes minimum_agent_version)) h)
      refl

supports_read_iff :
    (version : Option Codes) (v : ParsedVersion)
    → parse_version version ≡ some v
    → (supports_stack_attribution version ≡ true) ↔ (compare_parsed v minimum ≢ Ordering.lt)
unfolding supports_stack_attribution
supports_read_iff version v h =
    rw
      (
        supports_stack_attribution,
        compare_read version (some (codes minimum_agent_version)) v minimum h parse-minimum,
      )
      (ground arith)

-- Stack operations are supported exactly for a version that is read and is 0.3.0-rc.2 or above it:
-- the major number is positive, or the minor number is above 3, or it is 3 and the patch is
-- positive or the prerelease does not stand below `rc.2`.
pub supports_stack_attribution_iff :
    (version : Option Codes)
    → (supports_stack_attribution version ≡ true)
      ↔ ((v : ParsedVersion) × (parse_version version ≡ some v) × IsRecent v)
unfolding supports_stack_attribution compare_versions
supports_stack_attribution_iff version = elim (Option-cases (parse_version version)) [
  | inl missing ↦
      let unsupported = supports_unread version missing in
      (
        λ h. absurd (ground (arith, h, unsupported)),
        λ (v, h, recent). absurd (ground (arith, h, missing)),
      )
  | inr (v, found) ↦
      let above = supports_read_iff version v found in
      (
        λ h. (v, found, (not_lower_iff v).0 (above.0 h)),
        λ (w, h, recent).
            let same = some-injective w v (sym h ∙ found) in
            above.1 ((not_lower_iff v).1 (subst IsRecent same recent)),
      )
]
