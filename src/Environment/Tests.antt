-- ===== src/Environment/Tests.antt =====
-- Runs of the environments, and the witnesses.
use dockplane.Base.{
  ℕ, String, ◌≡◌, ◌↔◌, refl, Option, none, some, List, [], ◌∷◌, map, get_last, NoDup, ok, true,
  false, ◌<>◌, string_eq,
}
use dockplane.Environment.{
  StoredVariable, EnvironmentEntry, set_value, set_secret, unchanged, remove, container_words,
  stack_words, resolve_entry, resolve_entries, resolve_stack_environment, sent_value,
  sent_environment,
}
use Prim.Native.Char.{Char, char, code, IsScalar}
use dockplane.Base.{
  sym, subst, ap, ◌∙◌, ◌==◌, ==_iff, nat_eq, Bool-cases, inl, inr, if◌then◌else◌, arith, ◌≢◌, All,
}
use dockplane.Environment.Box.{
  IsPart, IsBox, encrypt, decrypt, join_dots, split_dots, decrypt_parts,
}
use dockplane.Environment.Sent.{IsSealable, asked, asked_all, sent_environment-resolve_entries}
use dockplane.Environment.Shown.{with_secret, shown, secrets_not_shown}
use dockplane.Environment.Once.{resolve_stack_environment_iff}

-- A box that does not seal.
abbrev seal : ℕ → String → String
seal call value = value

abbrev open_box : String → Option String
open_box envelope = some envelope

abbrev entries : List EnvironmentEntry
entries = set_value "PORT" "80" ∷ set_secret "TOKEN" "abc" ∷ unchanged "MODE" ∷ remove "OLD" ∷ []

abbrev before : List StoredVariable
before =
    record { key = "MODE"; value = some "fast"; value_encrypted = none; is_secret = false } ∷ []

abbrev after : List StoredVariable
after =
    record { key = "PORT"; value = some "80"; value_encrypted = none; is_secret = false }
    ∷ record { key = "TOKEN"; value = none; value_encrypted = some "abc"; is_secret = true }
    ∷ before

runs :
    (resolve_entries seal container_words entries before ≡ ok after)
    × (asked_all seal open_box before entries
        ≡ some (
            record { key = "PORT"; value = "80" }
            ∷ record { key = "TOKEN"; value = "abc" }
            ∷ record { key = "MODE"; value = "fast" }
            ∷ []))
unfolding resolve_entries resolve_entry get_last asked_all asked sent_environment sent_value
runs = (refl, refl)

-- A cipher that only keeps dots out: an `x` stands for a dot, and a `y` before any other character.
abbrev coded : String → String
coded String.[] = String.[]
coded (String.◌∷◌ c s) =
    let rest = coded s in
    if code c == b'.'
    then String.◌∷◌ (char b'x' tt) rest
    else String.◌∷◌ (char b'y' tt) (String.◌∷◌ c rest)

abbrev decoded : String → String
decoded String.[] = String.[]
decoded (String.◌∷◌ c String.[]) =
    if code c == b'x' then String.◌∷◌ (char b'.' tt) String.[] else String.[]
decoded (String.◌∷◌ c (String.◌∷◌ d s)) =
    let first = decoded (String.◌∷◌ d s) in
    let second = decoded s in
    if code c == b'x' then String.◌∷◌ (char b'.' tt) first else String.◌∷◌ d second

dot_char : (c : Char) → code c ≡ b'.' → char b'.' tt ≡ c
dot_char (char n p) e =
    subst (λ m. (q : IsScalar m) → char b'.' tt ≡ char m q) (sym e) (λ q. refl) p

decoded-dot :
    (s : String) → decoded (String.◌∷◌ (char b'x' tt) s) ≡ String.◌∷◌ (char b'.' tt) (decoded s)
decoded-dot String.[] = refl
decoded-dot (String.◌∷◌ c s) = refl

decoded-coded : (s : String) → decoded (coded s) ≡ s
decoded-coded String.[] = refl
decoded-coded (String.◌∷◌ c s) = elim (Bool-cases (code c == b'.')) [
  | inl dot ↦ rw dot (
      decoded-dot (coded s)
      ∙ (λ i. String.◌∷◌ (dot_char c ((==_iff (code c) b'.').0 dot) i) (decoded-coded s i)))
  | inr other ↦ rw other (ap (λ t. String.◌∷◌ c t) (decoded-coded s))
]

coded-IsPart : (s : String) → IsPart (coded s)
coded-IsPart String.[] = tt
coded-IsPart (String.◌∷◌ c s) = elim (Bool-cases (code c == b'.')) [
  | inl dot ↦ rw dot ((λ e. ground (arith, e)), coded-IsPart s)
  | inr other ↦ rw other (
    (λ e. ground (arith, e)),
    ((λ e. ground (arith, other, e, ==_iff (code c) b'.')), coded-IsPart s),
  )
]

abbrev IsCons : String → Type 0
IsCons String.[] = ⊥
IsCons (String.◌∷◌ c s) = Unit

coded-IsCons : (c : Char) (s : String) → IsCons (coded (String.◌∷◌ c s))
coded-IsCons c s = elim (Bool-cases (code c == b'.')) [
  | inl dot ↦ rw dot tt
  | inr other ↦ rw other tt
]

coded-there : (s : String) → s ≢ "" → coded s ≢ ""
coded-there String.[] n e = n refl
coded-there (String.◌∷◌ c s) n e = subst IsCons e (coded-IsCons c s)

abbrev iv : ℕ → String
iv call = "iv"

abbrev sealed_parts : String → String → String × String
sealed_parts bytes text = ("tag", coded text)

abbrev unseal : String → String → String → Option String
unseal bytes tag ciphertext = some (decoded ciphertext)

box-IsBox : IsBox iv sealed_parts unseal
box-IsBox = record {
  iv_part = λ call. (
    ((λ e. ground (arith, e)), ((λ e. ground (arith, e)), tt)),
    (λ e. ground (arith, ==_iff {A = String} "iv" "", e)),
  );
  tag_part = λ bytes text. (
    ((λ e. ground (arith, e)), ((λ e. ground (arith, e)), ((λ e. ground (arith, e)), tt))),
    (λ e. ground (arith, ==_iff {A = String} "tag" "", e)),
  );
  ciphertext_part = λ bytes text n. (coded-IsPart text, coded-there text n);
  unsealed = λ bytes text. ap (λ t. some t) (decoded-coded text);
}

abbrev sealed_after : List StoredVariable
sealed_after =
    record { key = "PORT"; value = some "80"; value_encrypted = none; is_secret = false }
    ∷ record {
      key = "TOKEN";
      value = none;
      value_encrypted = some "v1.iv.tag.yaybyc";
      is_secret = true;
    }
    ∷ before

sealed_run :
    resolve_entries (encrypt iv sealed_parts) container_words entries before ≡ ok sealed_after
unfolding resolve_entries resolve_entry get_last encrypt join_dots
sealed_run = refl

entries-IsSealable : All IsSealable entries
entries-IsSealable = (tt, ((λ e. ground (arith, ==_iff {A = String} "abc" "", e)), (tt, (tt, tt))))

-- An empty secret would not come back.
empty_run : decrypt unseal (encrypt iv sealed_parts 0 "") ≡ none
unfolding decrypt decrypt_parts encrypt join_dots split_dots
empty_run = refl

sent_environment-resolve_entries_example :
    sent_environment (decrypt unseal) sealed_after
    ≡ asked_all (encrypt iv sealed_parts) (decrypt unseal) before entries
sent_environment-resolve_entries_example =
    sent_environment-resolve_entries iv sealed_parts unseal container_words entries before
      sealed_after box-IsBox entries-IsSealable sealed_run

secrets_not_shown_example :
    shown (
      resolve_entries
        (λ n value. "sealed:" <> value)
        container_words
        (map (with_secret (λ value. "other")) entries)
        before)
    ≡ shown (resolve_entries seal container_words entries before)
secrets_not_shown_example =
    secrets_not_shown seal (λ n value. "sealed:" <> value) (λ value. "other") container_words
      entries before

resolve_stack_environment_iff_example :
    (resolve_stack_environment seal entries before ≡ ok after) ↔ (
      (resolve_entries seal stack_words entries before ≡ ok after) × NoDup (map (λ v. v.key) after))
resolve_stack_environment_iff_example = resolve_stack_environment_iff seal entries before after
