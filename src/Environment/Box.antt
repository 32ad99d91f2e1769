-- ===== src/Environment/Box.antt =====
-- `SecretBox` of api/src/common/crypto.ts: the envelope that a secret is kept in.
-- Node's AES-256-GCM and base64url are parameters: `iv` is the text of a call's random bytes, `seal`
-- gives the texts of the tag and of the ciphertext, and `unseal` the text that they hide, unless the
-- tag does not fit. A text has no lone surrogate.
use Prim.Native.String.append
use Prim.Native.Char.{Char, code}
use dockplane.Base.{
  ℕ, String, true, false, ◌||◌, not, ◌≡◌, ◌≢◌, refl, ap, ◌∙◌, Option, none, some, List, [], ◌∷◌,
  ◌==◌, ==_iff, nat_eq, string_eq, ◌<>◌, if◌then◌else◌, arith, Bool-cases, inl, inr,
}

-- `[a, …].join('.')`
unfoldable pub join_dots : List String → String
join_dots [] = ""
join_dots (part ∷ []) = part
join_dots (part ∷ next ∷ parts) = part <> ("." <> join_dots (next ∷ parts))

-- `text.split('.')`
unfoldable pub split_dots : String → List String
split_dots String.[] = "" ∷ []
split_dots (String.◌∷◌ c s) =
    let rest = split_dots s in
    if code c == b'.'
    then "" ∷ rest
    else elim rest [ [] ↦ [] | part ∷ parts ↦ String.◌∷◌ c part ∷ parts ]

-- The text has no dot.
abbrev pub IsPart : String → Type 0
IsPart String.[] = Unit
IsPart (String.◌∷◌ c s) = (code c ≢ b'.') × IsPart s

split_dots-part : (a : String) → IsPart a → split_dots a ≡ a ∷ []
unfolding split_dots
split_dots-part String.[] h = refl
split_dots-part (String.◌∷◌ c s) (n, h) = elim (Bool-cases (code c == b'.')) [
  | inl dot ↦ absurd (n ((==_iff (code c) b'.').0 dot))
  | inr other ↦ rw (other, split_dots-part s h) refl
]

separator :
    (c : Char) (b : String)
    → (code c == b'.') ≡ true
    → split_dots (String.◌∷◌ c "" <> b) ≡ "" ∷ split_dots b
unfolding split_dots
separator c b dot =
    ap split_dots (append.cons c "" b ∙ ap (λ t. String.◌∷◌ c t) (append.nil b)) ∙ rw dot refl

split_dots-cons :
    (c : Char) (s a : String) (parts : List String)
    → code c ≢ b'.'
    → split_dots s ≡ a ∷ parts
    → split_dots (String.◌∷◌ c s) ≡ String.◌∷◌ c a ∷ parts
unfolding split_dots
split_dots-cons c s a parts n h = elim (Bool-cases (code c == b'.')) [
  | inl dot ↦ absurd (n ((==_iff (code c) b'.').0 dot))
  | inr other ↦ rw (other, h) refl
]

split_dots-dot : (a b : String) → IsPart a → split_dots (a <> ("." <> b)) ≡ a ∷ split_dots b
unfolding split_dots
split_dots-dot String.[] b h = ap split_dots (append.nil ("." <> b)) ∙ separator _ b refl
split_dots-dot (String.◌∷◌ c s) b (n, h) =
    ap split_dots (append.cons c s ("." <> b))
    ∙ split_dots-cons c (s <> ("." <> b)) s (split_dots b) n (split_dots-dot s b h)

module _ (iv : ℕ → String) (seal : String → String → String × String) where
  -- `encrypt`: the envelope, made with the random bytes of one call.
  unfoldable pub encrypt : ℕ → String → String
  unfolding join_dots
  encrypt call text =
      join_dots ("v1" ∷ iv call ∷ (seal (iv call) text).0 ∷ (seal (iv call) text).1 ∷ [])

module _ (unseal : String → String → String → Option String) where
  -- `decrypt`: what is thrown is nothing.
  unfoldable pub decrypt_parts : List String → Option String
  decrypt_parts (version ∷ iv_text ∷ tag ∷ ciphertext ∷ more) =
      if not (version == "v1") || (iv_text == "") || (tag == "") || (ciphertext == "")
      then none
      else unseal iv_text tag ciphertext
  decrypt_parts (version ∷ iv_text ∷ tag ∷ []) = none
  decrypt_parts (version ∷ iv_text ∷ []) = none
  decrypt_parts (version ∷ []) = none
  decrypt_parts [] = none

  unfoldable pub decrypt : String → Option String
  unfolding split_dots decrypt_parts
  decrypt envelope = decrypt_parts (split_dots envelope)

module _ (iv : ℕ → String) (seal : String → String → String × String)
    (unseal : String → String → String → Option String) where
  -- A text of base64url has no dot, those of random bytes and of a tag are not empty, and that of a
  -- ciphertext is not empty when there is something to seal; what was sealed is unsealed with the
  -- same bytes and its tag.
  pub record IsBox : Type 0 where
    pub iv_part : (call : ℕ) → IsPart (iv call) × (iv call ≢ "")
    pub tag_part : (bytes text : String) → IsPart (seal bytes text).0 × ((seal bytes text).0 ≢ "")
    pub ciphertext_part :
        (bytes text : String) → text ≢ "" → IsPart (seal bytes text).1 × ((seal bytes text).1 ≢ "")
    pub unsealed :
        (bytes text : String) → unseal bytes (seal bytes text).0 (seal bytes text).1 ≡ some text

  split_dots-encrypt :
      (call : ℕ) (text : String)
      → IsBox
      → text ≢ ""
      → split_dots (encrypt iv seal call text)
        ≡ "v1" ∷ iv call ∷ (seal (iv call) text).0 ∷ (seal (iv call) text).1 ∷ []
  unfolding encrypt
  split_dots-encrypt call text box n =
      let tag = (seal (iv call) text).0 in
      let ciphertext = (seal (iv call) text).1 in
      let version : IsPart "v1" = ((λ e. ground (arith, e)), ((λ e. ground (arith, e)), tt)) in
      split_dots-dot "v1" (iv call <> ("." <> (tag <> ("." <> ciphertext)))) version
      ∙ ap (λ t. "v1" ∷ t)
          (split_dots-dot (iv call) (tag <> ("." <> ciphertext)) (box.iv_part call).0
            ∙ ap (λ t. iv call ∷ t)
                (split_dots-dot tag ciphertext (box.tag_part (iv call) text).0
                  ∙ ap (λ t. tag ∷ t)
                      (split_dots-part ciphertext (box.ciphertext_part (iv call) text n).0)))

  not_blank : (s : String) → s ≢ "" → (s == "") ≡ false
  not_blank s n = ground (arith, ==_iff s "", n)

  -- A text that is not empty comes back from its envelope.
  pub decrypt-encrypt :
      (call : ℕ) (text : String)
      → IsBox
      → text ≢ ""
      → decrypt unseal (encrypt iv seal call text) ≡ some text
  unfolding decrypt decrypt_parts
  decrypt-encrypt call text box n =
      rw
        (
          decrypt,
          split_dots-encrypt call text box n,
          decrypt_parts,
          not_blank (iv call) (box.iv_part call).1,
          not_blank (seal (iv call) text).0 (box.tag_part (iv call) text).1,
          not_blank (seal (iv call) text).1 (box.ciphertext_part (iv call) text n).1,
        )
        (box.unsealed (iv call) text)
