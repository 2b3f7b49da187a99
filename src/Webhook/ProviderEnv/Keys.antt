-- ===== src/Webhook/ProviderEnv/Keys.antt =====
-- Which entries of the provider-env annotation are accepted.
use chur.Base.{
  ℕ, ◌≤◌, ◌<◌, Bool, true, false, not, none, List, [], ◌∷◌, ◌++◌, ◌≡◌, refl, ◌↔◌, ◌⊎◌, arith, All,
  All-map_weaken, length,
}
use chur.Text.{Text, bytes, has_prefix}
use chur.Text.Runes.{runes}
use chur.Text.Laws.{has_prefix_sound, has_prefix-append}
use chur.Validate.{first_invalid}
use chur.Validate.Chars.{IsAscii, first_invalid-none_iff}
use chur.Webhook.ProviderEnv.{is_bad_key_rune, any_bad_key_rune, valid_provider_env_key}

-- An upper-case letter, a digit or an underscore.
abbrev pub IsEnvChar : ℕ → Type 0
IsEnvChar c = (c ≡ b'_') ⊎ ((b'A' ≤ c) × (c ≤ b'Z')) ⊎ ((b'0' ≤ c) × (c ≤ b'9'))

pub record IsEnvKey (k : Text) : Type 0 where
  pub short : length k ≤ 128
  pub chars : All IsEnvChar k
  pub prefixed : (rest : Text) × (k ≡ bytes "CHUR_" ++ rest)

is_good : ℕ → Bool
is_good r = not (is_bad_key_rune r)

is_good_iff : (c : ℕ) → (is_good c ≡ true) ↔ IsEnvChar c
unfolding is_good is_bad_key_rune
is_good_iff c = ground arith

is_good-IsAscii : IsAscii is_good
is_good-IsAscii r h = ground (arith, is_good_iff r)

any_bad_iff :
    (rs : List (ℕ × ℕ)) → (any_bad_key_rune rs ≡ false) ↔ (first_invalid is_good rs ≡ none)
unfolding any_bad_key_rune first_invalid is_good
any_bad_iff [] = (λ h. refl, λ h. refl)
any_bad_iff ((i, r) ∷ rs) = ground (arith, any_bad_iff rs)

key_chars : (k : Text) → (any_bad_key_rune (runes k) ≡ false) ↔ All IsEnvChar k
key_chars k =
    let i = first_invalid-none_iff is_good is_good-IsAscii k in
    (
      λ h. All-map_weaken _ (λ c. (is_good_iff c).0) k (i.0 ((any_bad_iff (runes k)).0 h)),
      λ h. (any_bad_iff (runes k)).1 (i.1 (All-map_weaken _ (λ c. (is_good_iff c).1) k h)),
    )

-- A key is accepted exactly if it has at most 128 characters, all of them upper-case letters,
-- digits and underscores, and begins with CHUR_.
pub valid_provider_env_key_iff : (k : Text) → (valid_provider_env_key k ≡ true) ↔ IsEnvKey k
unfolding valid_provider_env_key
valid_provider_env_key_iff k = (
  λ h. record {
    short = ground arith;
    chars = (key_chars k).0 (ground arith);
    prefixed = has_prefix_sound k (bytes "CHUR_") (ground arith);
  },
  λ v.
      let (rest, e) = v.prefixed in
      let p : has_prefix k (bytes "CHUR_") ≡ true = rw e (has_prefix-append (bytes "CHUR_") rest) in
      let n : 0 < length k = rw e (omega arith) in ground (arith, (key_chars k).1 v.chars),
)
