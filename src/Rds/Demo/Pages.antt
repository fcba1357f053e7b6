-- ===== src/Rds/Demo/Pages.antt =====
-- rds_service.py in demo mode: the pages of `list_users` and the counts beside them.
use native.Mathlib.Nat.{div-add-mod, mod-lt}
use secure_multi_tenant_saas.Prelude.{
  ℕ, zero, suc, ◌+◌, ◌-◌, ◌*◌, ◌/◌, ◌≤◌, String, ◌≡◌, refl, ap, ◌∙◌, Bool, not, List, [], ◌∷◌, ◌++◌,
  arith, length, take, drop, keep_if,
}
use secure_multi_tenant_saas.Prelude.Dict.{values}
use secure_multi_tenant_saas.Rds.Row.{UserRow}
use secure_multi_tenant_saas.Rds.Demo.{
  Db, users_of, list_users, matching_rows, page_rows, at_least_one,
}

module _ {ℓ} {A : Type ℓ} where
  take-nil : (n : ℕ) → take {A = A} n [] ≡ []
  take-nil zero = refl
  take-nil (suc n) = refl

  take-add : (a b : ℕ) (xs : List A) → take (a + b) xs ≡ take a xs ++ take b (drop a xs)
  take-add zero b xs = let e : 0 + b ≡ b = omega arith in rw e
  take-add (suc a) b [] = let e : suc a + b ≡ suc (a + b) = omega arith in rw (e, take-nil b) refl
  take-add (suc a) b (x ∷ xs) =
      let e : suc a + b ≡ suc (a + b) = omega arith in rw e (ap (λ r. x ∷ r) (take-add a b xs))

  take-all : (n : ℕ) (xs : List A) → length xs ≤ n → take n xs ≡ xs
  take-all zero [] h = refl
  take-all zero (x ∷ xs) h = absurd (omega arith)
  take-all (suc n) [] h = refl
  take-all (suc n) (x ∷ xs) h = ap (λ r. x ∷ r) (take-all n xs (omega arith))

  length-take-le : (n : ℕ) (xs : List A) → length (take n xs) ≤ n
  length-take-le zero xs = omega arith
  length-take-le (suc n) [] = omega arith
  length-take-le (suc n) (x ∷ xs) = omega (arith, length-take-le n xs)

  count-partition :
      (p : A → Bool) (xs : List A)
      → length (keep_if p xs) + length (keep_if (λ x. not (p x)) xs) ≡ length xs
  count-partition p [] = omega arith
  count-partition p (x ∷ xs) = ground (arith, count-partition p xs)

-- Enough pages of a size hold all the rows.
pages-cover : (l s : ℕ) → 1 ≤ s → l ≤ at_least_one ((l + s - 1) / s) * s
pages-cover l s h = grind (arith, div-add-mod (l + s - 1) s, mod-lt (l + s - 1) {m = s} h)

module _ (db : Db) (tenant search : String) (size : ℕ) where
  -- The rows of the pages 1 to n, one after the other.
  pub first_pages : ℕ → List UserRow
  first_pages zero = []
  first_pages (suc n) = first_pages n ++ (list_users db tenant search (suc n) size).rows

  abbrev found : List UserRow
  found = matching_rows search (values (users_of db tenant))

  first_pages-eq-take : (n : ℕ) → first_pages n ≡ take (n * size) found
  unfolding first_pages list_users
  first_pages-eq-take zero = let e : 0 * size ≡ 0 = omega arith in rw e
  first_pages-eq-take (suc n) =
      let e : suc n * size ≡ n * size + size = omega arith in
      rw (e, take-add (n * size) size found, first_pages-eq-take n)

  -- In demo mode the pages of a search show each of its rows once: put one after the other they are all rows
  -- that match, and none has more rows than its size. `total` counts those rows, and the enabled
  -- and disabled counts add up to all users of the tenant.
  pub list_users_pages :
      1 ≤ size
      → (page : ℕ)
      → let p = list_users db tenant search page size in
        (first_pages p.total_pages ≡ found)
        × (length p.rows ≤ size)
        × (p.total ≡ length found)
        × (p.active + p.disabled ≡ length (values (users_of db tenant)))
  unfolding list_users
  list_users_pages h page = (
    first_pages-eq-take _ ∙ take-all _ found (pages-cover (length found) size h),
    page_size page,
    refl,
    count-partition (λ r. r.enabled) (values (users_of db tenant)),
  )
    where
      page_size : (n : ℕ) → length (page_rows n size found) ≤ size
      page_size zero = omega arith
      page_size (suc n) = length-take-le size (drop (n * size) found)
