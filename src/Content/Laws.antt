-- ===== src/Content/Laws.antt =====
-- The loops over the pages end, and give all entries.
use delonghi_ha.Prelude.{
  ℕ, zero, suc, ◌+◌, ◌-◌, ◌≤◌, ◌<◌, List, [], ◌∷◌, ◌++◌, map, length, take, drop, length-append,
  length-take, length-drop, drop-append_length, append_assoc, append-nil, true, false, ◌==◌, ==_iff,
  min, ltb, ltb→lt, Option, some, if◌then◌else◌, ◌≡◌, refl, sym, ap, ap₂, ◌∙◌, ◌⊎◌, inl, inr, arith,
  if_rule, Bool-cases,
}
use delonghi_ha.Content.{
  Fetched, fetched, out_of_fuel, page_size, with_page, more_pages, fetch_pattern, is_done,
  bean_pages,
}

-- A server that gives a list by pages of `limit` entries.
abbrev pub serve : {E : Type 0} → ℕ → List E → ℕ → Option (List E)
serve limit xs skip = some (take limit (drop skip xs))

ltb-false : (a b : ℕ) → ltb a b ≡ false → b ≤ a
ltb-false a b h = ground arith

h_clash : (m : ℕ) → (m == page_size) ≡ false → m ≡ page_size → ⊥
h_clash m h e = absurd (clash (sym ((==_iff m page_size).1 e) ∙ h))
  where
    clash : true ≡ false → ⊥
    clash k = ground (arith, k)

absurd_or : (n : ℕ) → (0 < n → ⊥) → n ≡ 0
absurd_or zero h = refl
absurd_or (suc n) h = absurd (h (omega arith))

few_left : (n m : ℕ) → m ≡ min page_size n → (m == page_size) ≡ false → n - page_size ≡ 0
few_left n m e h = absurd_or (n - page_size) (λ more. h_clash m h (omega (arith, e, more)))

module _ {E : Type 0} where
  take-drop : (n : ℕ) (xs : List E) → take n xs ++ drop n xs ≡ xs
  take-drop zero xs = refl
  take-drop (suc n) [] = refl
  take-drop (suc n) (x ∷ xs) = ap (◌∷◌ x) (take-drop n xs)

  -- The next page after `front`.
  next_page :
      (limit : ℕ) (xs front rest : List E)
      → xs ≡ front ++ rest
      → take limit (drop (length front) xs) ≡ take limit rest
  next_page limit xs front rest e =
      ap (λ ys. take limit (drop (length front) ys)) e
      ∙ ap (λ ys. take limit ys) (drop-append_length front rest)

  split_again :
      (limit : ℕ) (xs front rest : List E)
      → xs ≡ front ++ rest
      → xs ≡ (front ++ take limit rest) ++ drop limit rest
  split_again limit xs front rest e =
      e
      ∙ ap (λ ys. front ++ ys) (sym (take-drop limit rest))
      ∙ sym (append_assoc front (take limit rest) (drop limit rest))

  -- Where the loop stands after a page: it was full and the fuel is enough, or nothing is left.
  abbrev Stands : ℕ → List E → List E → Type 0
  Stands fuel page rest =
      ((length page ≡ page_size) × (length rest < fuel))
      ⊎ (((length page == page_size) ≡ false) × (length rest ≡ 0))

  none_left : (rest : List E) → length rest ≡ 0 → rest ≡ []
  none_left [] h = refl
  none_left (x ∷ rest) h = absurd (omega (arith, h))

  Stands-next :
      (fuel : ℕ) (rest : List E)
      → length rest < suc fuel
      → Stands fuel (take page_size rest) (drop page_size rest)
  Stands-next fuel rest h = elim (Bool-cases (length (take page_size rest) == page_size)) [
    | inl e ↦ inl (
      (==_iff (length (take page_size rest)) page_size).0 e,
      omega (
        arith,
        h,
        (==_iff (length (take page_size rest)) page_size).0 e,
        length-take page_size rest,
        length-drop page_size rest,
      ),
    )
    | inr e ↦
        inr
          (e, length-drop page_size rest ∙ few_left (length rest) _ (length-take page_size rest) e)
  ]

  -- Nothing is left.
  all_read : (xs front rest : List E) → xs ≡ front ++ rest → length rest ≡ 0 → front ≡ xs
  all_read xs front rest e over =
      sym (append-nil front) ∙ ap (λ ys. front ++ ys) (sym (none_left rest over)) ∙ sym e

  more_pages-all :
      (fuel : ℕ) (xs page front rest : List E)
      → xs ≡ front ++ rest
      → Stands fuel page rest
      → more_pages (serve page_size xs) fuel (length front) page front ≡ fetched xs
  unfolding more_pages
  more_pages-all zero xs page front rest e (inl (full, enough)) = absurd (omega (arith, enough))
  more_pages-all zero xs page front rest e (inr (short, over)) =
      ap (λ b. if b then out_of_fuel else fetched front) short
      ∙ ap fetched (all_read xs front rest e over)
  more_pages-all (suc fuel) xs page front rest e (inr (short, over)) =
      ap
        (λ b.
          if b
          then with_page (serve page_size xs (length front)) (λ more.
            more_pages (serve page_size xs) fuel (length front + length more) more (front ++ more))
          else fetched front)
        short
      ∙ ap fetched (all_read xs front rest e over)
  more_pages-all (suc fuel) xs page front rest e (inl (full, enough)) =
      let cont : List E → Fetched E = λ more.
        more_pages (serve page_size xs) fuel (length front + length more) more (front ++ more) in
      let next : List E = take page_size rest in
      ap (λ b. if b then cont (take page_size (drop (length front) xs)) else fetched front)
        ((==_iff (length page) page_size).1 full)
      ∙ ap cont (next_page page_size xs front rest e)
      ∙ ap (λ (k : ℕ). more_pages (serve page_size xs) fuel k next (front ++ next))
          (sym (length-append front next))
      ∙ more_pages-all fuel xs next (front ++ next) (drop page_size rest)
          (split_again page_size xs front rest e) (Stands-next fuel rest enough)

  fetch_pattern-all :
      (fuel : ℕ) (xs : List E)
      → length xs < fuel
      → fetch_pattern (serve page_size xs) fuel ≡ fetched xs
  unfolding fetch_pattern
  fetch_pattern-all fuel xs enough =
      more_pages-all fuel xs (take page_size xs) (take page_size xs) (drop page_size xs)
        (sym (take-drop page_size xs)) (Stands-next fuel xs (omega (arith, enough)))

-- The beans: pages of `limit` entries, until one is empty or short.
module _ {E B : Type 0} (bean : E → B) (limit : ℕ) where
  map-append : (xs ys : List E) → map bean xs ++ map bean ys ≡ map bean (xs ++ ys)
  map-append [] ys = refl
  map-append (x ∷ xs) ys = ap (λ zs. bean x ∷ zs) (map-append xs ys)

  is_done-length : (xs : List E) → is_done xs ≡ true → length xs ≡ 0
  is_done-length [] h = refl
  is_done-length (x ∷ xs) h = absurd (clash (sym h))
    where
      clash : true ≡ false → ⊥
      clash k = ground (arith, k)

  -- The last page ends the list.
  last_page :
      (xs front rest : List E)
      → xs ≡ front ++ rest
      → length (take limit rest) < limit
      → map bean front ++ map bean (take limit rest) ≡ map bean xs
  last_page xs front rest e short =
      map-append front (take limit rest)
      ∙ ap (map bean) (
          all_read xs (front ++ take limit rest) (drop limit rest)
            (split_again limit xs front rest e)
            (omega (arith, short, length-take limit rest, length-drop limit rest)))

  bean_pages-all :
      (fuel : ℕ) (xs front rest : List E)
      → 0 < limit
      → xs ≡ front ++ rest
      → length rest < fuel
      → bean_pages bean (serve limit xs) limit fuel (length front) (map bean front)
        ≡ fetched (map bean xs)
  unfolding bean_pages
  bean_pages-all zero xs front rest some_limit e enough = absurd (omega (arith, enough))
  bean_pages-all (suc fuel) xs front rest some_limit e enough =
      ap cont (next_page limit xs front rest e)
      ∙ if_rule (λ (f : Fetched B). f ≡ fetched (map bean xs)) (is_done (take limit rest))
          (λ h.
            ap (λ ys. fetched (map bean ys))
              (all_read xs front rest e (
                omega
                  (arith, some_limit, length-take limit rest, is_done-length (take limit rest) h))))
          (λ h.
            if_rule (λ (f : Fetched B). f ≡ fetched (map bean xs))
              (ltb (length (take limit rest)) limit)
              (λ short. ap fetched (last_page xs front rest e (ltb→lt _ limit short)))
              (λ full. onward (ltb-false _ limit full) (
                bean_pages-all fuel xs (front ++ take limit rest) (drop limit rest) some_limit
                  (split_again limit xs front rest e))))
    where
      cont : List E → Fetched B
      cont entries =
          if is_done entries
          then fetched (map bean front)
          else if ltb (length entries) limit
          then fetched (map bean front ++ map bean entries)
          else bean_pages bean (serve limit xs) limit fuel (length front + limit)
              (map bean front ++ map bean entries)

      onward :
          limit ≤ length (take limit rest)
          → (length (drop limit rest) < fuel
              → bean_pages bean
                  (serve limit xs)
                  limit
                  fuel
                  (length (front ++ take limit rest))
                  (map bean (front ++ take limit rest))
                ≡ fetched (map bean xs))
          → bean_pages bean
              (serve limit xs)
              limit
              fuel
              (length front + limit)
              (map bean front ++ map bean (take limit rest))
            ≡ fetched (map bean xs)
      onward full again =
          ap₂ (bean_pages bean (serve limit xs) limit fuel) {x = length front + limit}
            {y = length (front ++ take limit rest)}
            (omega (arith, full, length-take limit rest, length-append front (take limit rest)))
            (map-append front (take limit rest))
          ∙ again (
              omega
                (arith, full, some_limit, enough, length-take limit rest, length-drop limit rest))

-- What both loops give of a server with the list `xs`.
pub record GivesAll {E B : Type 0} (bean : E → B) (limit : ℕ) (xs : List E) : Type 0 where
  pub drinks : (fuel : ℕ) → length xs < fuel → fetch_pattern (serve page_size xs) fuel ≡ fetched xs
  pub beans :
      (fuel : ℕ)
      → length xs < fuel
      → bean_pages bean (serve limit xs) limit fuel 0 [] ≡ fetched (map bean xs)

-- Both loops over the pages end and give every entry once and in order, however many pages there are,
-- if the server gives a list by pages: one round more than there are entries is enough. The limit of a
-- page of beans must not be 0.
pub fetch-GivesAll :
    {E B : Type 0} (bean : E → B) (limit : ℕ) (xs : List E) → 0 < limit → GivesAll bean limit xs
fetch-GivesAll bean limit xs some_limit = record {
  drinks = λ fuel enough. fetch_pattern-all fuel xs enough;
  beans = λ fuel enough. bean_pages-all bean limit fuel xs [] xs some_limit refl enough;
}
