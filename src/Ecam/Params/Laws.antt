-- ===== src/Ecam/Params/Laws.antt =====
-- The two loops against the parameters that the bytes stand for.
use delonghi_ha.Prelude.{
  ℕ, List, [], ◌∷◌, ◌++◌, Bool, true, false, Option, none, some, ◌≡◌, refl, arith, All, All-append,
  length-append, ◌≤◌, ◌==◌, if◌then◌else◌, ◌∙◌, length, Bool-cases, inl, inr,
}
use delonghi_ha.Prelude.Int.{IsByte}
use delonghi_ha.Ecam.Params.{is_big, kept, find_accessory, copy_params}

-- An 8-bit parameter, or a 16-bit one (a quantity in mL).
pub data Param : Type 0 where
  small : ℕ → ℕ → Param
  big : ℕ → ℕ → ℕ → Param

abbrev pub id : Param → ℕ
id (small pid v) = pid
id (big pid hi lo) = pid

-- The size on the wire is the one that the id announces.
abbrev pub IsSized : Param → Type 0
IsSized (small pid v) = is_big pid ≡ false
IsSized (big pid hi lo) = is_big pid ≡ true

abbrev pub encode_param : Param → List ℕ
encode_param (small pid v) = pid ∷ v ∷ []
encode_param (big pid hi lo) = pid ∷ hi ∷ lo ∷ []

abbrev pub encode : List Param → List ℕ
encode [] = []
encode (p ∷ ps) = encode_param p ++ encode ps

-- The parameters whose id is not excluded, in order.
abbrev pub without : (ℕ → Bool) → List Param → List Param
without excluded [] = []
without excluded (p ∷ ps) = if excluded (id p) then without excluded ps else p ∷ without excluded ps

-- The value of the first ACCESSORIO parameter.
abbrev pub accessory : List Param → Option ℕ
accessory [] = none
accessory (small pid v ∷ ps) = if pid == 28 then some v else accessory ps
accessory (big pid hi lo ∷ ps) = accessory ps

module _ (excluded : ℕ → Bool) where
  copy_params-small :
      (pid v : ℕ) (rest : List ℕ)
      → is_big pid ≡ false
      → copy_params excluded (pid ∷ v ∷ rest)
        ≡ (if excluded pid then [] else pid ∷ v ∷ []) ++ copy_params excluded rest
  unfolding copy_params
  copy_params-small pid v [] h = ground arith
  copy_params-small pid v (w ∷ rest) h = ground arith

  copy_params-big :
      (pid v w : ℕ) (rest : List ℕ)
      → is_big pid ≡ true
      → copy_params excluded (pid ∷ v ∷ w ∷ rest)
        ≡ (if excluded pid then [] else pid ∷ v ∷ w ∷ []) ++ copy_params excluded rest
  unfolding copy_params
  copy_params-big pid v w rest h = ground arith

  -- Copying the bytes of a list of parameters gives the bytes of those that are not excluded.
  pub copy_params-encode :
      (ps : List Param)
      → All IsSized ps
      → copy_params excluded (encode ps) ≡ encode (without excluded ps)
  copy_params-encode [] h = unfold copy_params in refl
  copy_params-encode (small pid v ∷ ps) h =
      copy_params-small pid v (encode ps) h.0 ∙ ground (arith, copy_params-encode ps h.1)
  copy_params-encode (big pid hi lo ∷ ps) h =
      copy_params-big pid hi lo (encode ps) h.0 ∙ ground (arith, copy_params-encode ps h.1)

find_accessory-small :
    (pid v : ℕ) (rest : List ℕ)
    → is_big pid ≡ false
    → find_accessory (pid ∷ v ∷ rest) ≡ (if pid == 28 then some v else find_accessory rest)
unfolding find_accessory
find_accessory-small pid v [] h = ground arith
find_accessory-small pid v (w ∷ rest) h = ground arith

find_accessory-big :
    (pid v w : ℕ) (rest : List ℕ)
    → is_big pid ≡ true
    → find_accessory (pid ∷ v ∷ w ∷ rest) ≡ find_accessory rest
unfolding find_accessory
find_accessory-big pid v w rest h = ground arith

-- The accessory found in the bytes of a list of parameters is its first ACCESSORIO parameter.
pub find_accessory-encode :
    (ps : List Param) → All IsSized ps → find_accessory (encode ps) ≡ accessory ps
find_accessory-encode [] h = unfold find_accessory in refl
find_accessory-encode (small pid v ∷ ps) h =
    find_accessory-small pid v (encode ps) h.0 ∙ ground (arith, find_accessory-encode ps h.1)
find_accessory-encode (big pid hi lo ∷ ps) h =
    find_accessory-big pid hi lo (encode ps) h.0 ∙ find_accessory-encode ps h.1

kept-IsByte :
    (excluded : ℕ → Bool) (pid : ℕ) (chunk : List ℕ)
    → All IsByte chunk
    → All IsByte (kept excluded pid chunk)
kept-IsByte excluded pid chunk h = elim (Bool-cases (excluded pid)) [
  | inl out ↦ rw out tt
  | inr stays ↦ rw stays h
]

-- What the loop copies from bytes is bytes.
pub copy_params-IsByte :
    (excluded : ℕ → Bool) (raw : List ℕ) → All IsByte raw → All IsByte (copy_params excluded raw)
unfolding copy_params
copy_params-IsByte ex [] h = tt
copy_params-IsByte ex (pid ∷ []) h = tt
copy_params-IsByte ex (pid ∷ v ∷ []) h = kept-IsByte ex pid (pid ∷ v ∷ []) h
copy_params-IsByte ex (pid ∷ v ∷ w ∷ rest) h =
    let after_big =
      All-append IsByte (kept ex pid (pid ∷ v ∷ w ∷ [])) (copy_params ex rest)
        (kept-IsByte ex pid (pid ∷ v ∷ w ∷ []) (h.0, (h.1.0, (h.1.1.0, tt))))
        (copy_params-IsByte ex rest h.1.1.1) in
    let after_small =
      All-append IsByte (kept ex pid (pid ∷ v ∷ [])) (copy_params ex (w ∷ rest))
        (kept-IsByte ex pid (pid ∷ v ∷ []) (h.0, (h.1.0, tt)))
        (copy_params-IsByte ex (w ∷ rest) h.1.1) in
    elim (Bool-cases (is_big pid)) [ inl b ↦ rw b after_big | inr b ↦ rw b after_small ]

kept-le :
    (excluded : ℕ → Bool) (pid : ℕ) (chunk : List ℕ)
    → length (kept excluded pid chunk) ≤ length chunk
kept-le excluded pid chunk = elim (Bool-cases (excluded pid)) [
  | inl out ↦ rw out (omega arith)
  | inr stays ↦ rw stays (omega arith)
]

-- The loop copies no more bytes than it reads.
pub length-copy_params-le :
    (excluded : ℕ → Bool) (raw : List ℕ) → length (copy_params excluded raw) ≤ length raw
unfolding copy_params
length-copy_params-le ex [] = omega arith
length-copy_params-le ex (pid ∷ []) = omega arith
length-copy_params-le ex (pid ∷ v ∷ []) = kept-le ex pid (pid ∷ v ∷ [])
length-copy_params-le ex (pid ∷ v ∷ w ∷ rest) = elim (Bool-cases (is_big pid)) [
  | inl b ↦ rw b (
      omega (
        arith,
        length-append (kept ex pid (pid ∷ v ∷ w ∷ [])) (copy_params ex rest),
        kept-le ex pid (pid ∷ v ∷ w ∷ []),
        length-copy_params-le ex rest,
      ))
  | inr b ↦ rw b (
      omega (
        arith,
        length-append (kept ex pid (pid ∷ v ∷ [])) (copy_params ex (w ∷ rest)),
        kept-le ex pid (pid ∷ v ∷ []),
        length-copy_params-le ex (w ∷ rest),
      ))
]
