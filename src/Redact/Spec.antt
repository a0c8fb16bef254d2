-- ===== src/Redact/Spec.antt =====
-- The reference of the scanner in logger.py (`_EMAIL_REF_RE`), and what `re.sub` makes of it.
use delonghi_ha.Prelude.{◌≡◌, ◌≢◌, ℕ, ◌≤◌, List, [], ◌∷◌, ◌++◌, Bool, true, All, length}
use delonghi_ha.Redact.{at_sign, dot, is_local_char, is_domain_char, mask_email}

module _ (alnum : ℕ → Bool) where
  abbrev pub IsLocal : ℕ → Type 0
  IsLocal c = is_local_char alnum c ≡ true

  abbrev pub IsLabel : ℕ → Type 0
  IsLabel c = is_domain_char alnum c ≡ true

  -- `[\w-]+(?:\.[\w-]+)*`
  pub data Domain : List ℕ → Type 0 where
    last : {c : ℕ} → IsLabel c → Domain (c ∷ [])
    more : {c : ℕ} {text : List ℕ} → IsLabel c → Domain text → Domain (c ∷ text)
    next_label : {c : ℕ} {text : List ℕ} → IsLabel c → Domain text → Domain (c ∷ dot ∷ text)

  -- `[\w.+-]+@`, and a domain.
  pub record IsAddress (word : List ℕ) : Type 0 where
    pub local : List ℕ
    pub domain : List ℕ
    pub some_local : local ≢ []
    pub local_chars : All IsLocal local
    pub is_domain : Domain domain
    pub shape : word ≡ local ++ (at_sign ∷ domain)

  -- An address in a text, after `u` and before `v`.
  pub record Match (msg u word v : List ℕ) : Type 0 where
    pub found : msg ≡ u ++ (word ++ v)
    pub address : IsAddress word

  -- `re.sub`: of the first matches the longest is masked, and then the rest of the text.
  pub data Sub : List ℕ → List ℕ → Type 0 where
    no_match :
        {msg out : List ℕ}
        → ((u word v : List ℕ) → Match msg u word v → ⊥)
        → out ≡ msg
        → Sub msg out
    replace :
        {msg out : List ℕ}
        → (u word v rest : List ℕ) → Match msg u word v
        → ((u' word' v' : List ℕ) → Match msg u' word' v' → length u ≤ length u')
        → ((word' v' : List ℕ) → Match msg u word' v' → length word' ≤ length word)
        → Sub v rest
        → out ≡ u ++ (mask_email word ++ rest)
        → Sub msg out
