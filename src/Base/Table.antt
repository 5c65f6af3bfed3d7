-- ===== src/Base/Table.antt =====
-- SQL tables as lists of rows in rowid order, with the statements that the program sends.
use swarmbus.Base.{
  ℕ, zero, suc, ◌+◌, ◌-◌, ◌≡◌, refl, Bool, true, false, ◌&&◌, ◌||◌, not, List, [], ◌∷◌, ◌++◌,
  Option, none, some, arith, min, leb, ◌==◌, if◌then◌else◌, any, Bool-cases, Option-cases, ap,
  subst, sym, ◌∙◌, inl, inr,
}

or_right : (b c : Bool) → c ≡ true → (b || c) ≡ true
or_right b c h = ground arith

module _ {ℓ} {A : Type ℓ} where
  -- `SELECT … WHERE p` with `fetchone`.
  unfoldable pub find_row : (A → Bool) → List A → Option A
  find_row p [] = none
  find_row p (x ∷ xs) = if p x then some x else find_row p xs

  -- `SELECT COUNT(*) … WHERE p`
  unfoldable pub count_rows : (A → Bool) → List A → ℕ
  count_rows p [] = 0
  count_rows p (x ∷ xs) = let rest = count_rows p xs in if p x then suc rest else rest

  -- `SELECT … WHERE p`, and `DELETE … WHERE p`.
  unfoldable pub select_rows : (A → Bool) → List A → List A
  select_rows p [] = []
  select_rows p (x ∷ xs) = let rest = select_rows p xs in if p x then x ∷ rest else rest

  abbrev pub delete_rows : (A → Bool) → List A → List A
  delete_rows p = select_rows (λ x. not (p x))

  -- `UPDATE … SET f WHERE p`
  unfoldable pub update_rows : (A → Bool) → (A → A) → List A → List A
  update_rows p f [] = []
  update_rows p f (x ∷ xs) = (if p x then f x else x) ∷ update_rows p f xs

  delete_first : (A → Bool) → List A → List A
  delete_first p [] = []
  delete_first p (x ∷ xs) = let rest = delete_first p xs in if p x then xs else x ∷ rest

  least : (A → Bool) → (A → ℕ) → List A → Option ℕ
  least p key [] = none
  least p key (x ∷ xs) =
      let rest = least p key xs in
      if p x then some (elim rest [ none ↦ key x | some k ↦ min (key x) k ]) else rest

  -- The row with the least (key, rowid) among those with `p` goes.
  drop_least : (A → Bool) → (A → ℕ) → List A → List A
  drop_least p key xs = elim (least p key xs) [
    | none ↦ xs
    | some k ↦ delete_first (λ x. p x && key x == k) xs
  ]

  -- `DELETE … WHERE rowid IN (SELECT rowid … WHERE p ORDER BY key, rowid LIMIT n)`
  unfoldable pub drop_oldest : ℕ → (A → Bool) → (A → ℕ) → List A → List A
  unfolding drop_least least delete_first
  drop_oldest zero p key xs = xs
  drop_oldest (suc n) p key xs = drop_oldest n p key (drop_least p key xs)

  pub any_of_find :
      (p : A → Bool) (xs : List A) (x : A)
      → find_row p xs ≡ some x
      → (p x ≡ true) × (any p xs ≡ true)
  unfolding find_row
  any_of_find p [] x h = cc
  any_of_find p (y ∷ xs) x h = elim (Bool-cases (p y)) [
    | inl e ↦ (ground (arith, ap p (found e)), rw e)
    | inr e ↦ let rest = any_of_find p xs x (rw e at h) in (rest.0, rw (e, rest.1))
  ]
    where
      found : p y ≡ true → y ≡ x
      found e = ground arith

  pub find_none : (p : A → Bool) (xs : List A) → find_row p xs ≡ none → any p xs ≡ false
  unfolding find_row
  find_none p [] h = refl
  find_none p (y ∷ xs) h = ground (arith, find_none p xs)

  pub any-select :
      (p q : A → Bool) (xs : List A) → any p (select_rows q xs) ≡ any (λ x. p x && q x) xs
  unfolding select_rows
  any-select p q [] = refl
  any-select p q (x ∷ xs) = ground (arith, any-select p q xs)

  delete_first_count :
      (p q : A → Bool) (xs : List A)
      → any (λ x. p x && q x) xs ≡ true
      → suc (count_rows p (delete_first (λ x. p x && q x) xs)) ≡ count_rows p xs
  unfolding count_rows delete_first
  delete_first_count p q [] h = cc
  delete_first_count p q (x ∷ xs) h = ground (arith, delete_first_count p q xs)

  least-none :
      (p : A → Bool) (key : A → ℕ) (xs : List A) → least p key xs ≡ none → count_rows p xs ≡ 0
  unfolding least count_rows
  least-none p key [] h = refl
  least-none p key (x ∷ xs) h = ground (arith, least-none p key xs)

  least_min :
      (p : A → Bool) (key : A → ℕ) (x : A) (xs : List A) (j k : ℕ)
      → p x ≡ true
      → any (λ y. p y && key y == j) xs ≡ true
      → k ≡ min (key x) j
      → any (λ y. p y && key y == k) (x ∷ xs) ≡ true
  least_min p key x xs j k q t e = elim (Bool-cases (leb (key x) j)) [
    | inl l ↦ let same : k ≡ key x = ground arith in ground (arith, same)
    | inr l ↦
        let same : k ≡ j = ground arith in
        subst (λ i. any (λ y. p y && key y == i) (x ∷ xs) ≡ true) (sym same) (or_right _ _ t)
  ]

  same_any : (p : A → Bool) (zs : List A) → any (λ x. p x && p x) zs ≡ any p zs
  same_any p [] = refl
  same_any p (z ∷ zs) = ground (arith, same_any p zs)

  least-some :
      (p : A → Bool) (key : A → ℕ) (xs : List A) (k : ℕ)
      → least p key xs ≡ some k
      → any (λ x. p x && key x == k) xs ≡ true
  unfolding least
  least-some p key [] k h = cc
  least-some p key (x ∷ xs) k h = elim (Option-cases (least p key xs)) [
    | inl e ↦ ground (arith, least-some p key xs k)
    | inr (j, e) ↦ elim (Bool-cases (p x)) [
      | inr q ↦ rw q (least-some p key xs k (rw q at h))
      | inl q ↦ least_min p key x xs j k q (least-some p key xs j e) (ground arith)
    ]
  ]

  drop_least_count :
      (p : A → Bool) (key : A → ℕ) (xs : List A)
      → count_rows p (drop_least p key xs) ≡ count_rows p xs - 1
  unfolding drop_least
  drop_least_count p key xs = elim (Option-cases (least p key xs)) [
    | inl e ↦ rw (e, drop_least) (omega (arith, least-none p key xs e))
    | inr (k, e) ↦
        rw (e, drop_least)
          (omega (arith, delete_first_count p (λ x. key x == k) xs (least-some p key xs k e)))
  ]

  -- Dropping the oldest leaves that many fewer, and never fewer than none.
  pub count-drop_oldest :
      (n : ℕ) (p : A → Bool) (key : A → ℕ) (xs : List A)
      → count_rows p (drop_oldest n p key xs) ≡ count_rows p xs - n
  unfolding drop_oldest
  count-drop_oldest zero p key xs = omega arith
  count-drop_oldest (suc n) p key xs =
      count-drop_oldest n p key (drop_least p key xs) ∙ omega (arith, drop_least_count p key xs)

  delete_first_keeps :
      (p q r : A → Bool) (xs : List A)
      → ((x : A) → p x ≡ true → r x ≡ false)
      → select_rows r (delete_first (λ x. p x && q x) xs) ≡ select_rows r xs
  unfolding select_rows delete_first
  delete_first_keeps p q r [] h = refl
  delete_first_keeps p q r (x ∷ xs) h = ground (arith, delete_first_keeps p q r xs h, h x)

  drop_least_keeps :
      (p : A → Bool) (key : A → ℕ) (r : A → Bool) (xs : List A)
      → ((x : A) → p x ≡ true → r x ≡ false)
      → select_rows r (drop_least p key xs) ≡ select_rows r xs
  unfolding drop_least
  drop_least_keeps p key r xs h = elim (Option-cases (least p key xs)) [
    | inl e ↦ rw (e, drop_least)
    | inr (k, e) ↦ rw (e, drop_least) (delete_first_keeps p (λ x. key x == k) r xs h)
  ]

  -- The rows without `p` all stay, in their order.
  pub select-drop_oldest :
      (n : ℕ) (p : A → Bool) (key : A → ℕ) (r : A → Bool) (xs : List A)
      → ((x : A) → p x ≡ true → r x ≡ false)
      → select_rows r (drop_oldest n p key xs) ≡ select_rows r xs
  unfolding drop_oldest
  select-drop_oldest zero p key r xs h = refl
  select-drop_oldest (suc n) p key r xs h =
      select-drop_oldest n p key r (drop_least p key xs) h ∙ drop_least_keeps p key r xs h

  pub count-append :
      (p : A → Bool) (xs ys : List A) → count_rows p (xs ++ ys) ≡ count_rows p xs + count_rows p ys
  unfolding count_rows
  count-append p [] ys = omega arith
  count-append p (x ∷ xs) ys = ground (arith, count-append p xs ys)

  pub any_of_select :
      (r : A → Bool) (xs ys : List A) → select_rows r xs ≡ select_rows r ys → any r xs ≡ any r ys
  any_of_select r xs ys e = sym (select_any r xs) ∙ ap (any r) e ∙ select_any r ys
    where
      select_any : (p : A → Bool) (zs : List A) → any p (select_rows p zs) ≡ any p zs
      select_any p zs = any-select p p zs ∙ same_any p zs

-- A row that is added where none has `p` is the one found.
pub find_append {ℓ} :
    {A : Type ℓ} (p : A → Bool) (xs : List A) (x : A)
    → find_row p xs ≡ none
    → p x ≡ true
    → find_row p (xs ++ x ∷ []) ≡ some x
unfolding find_row
find_append p [] x h e = rw e
find_append p (y ∷ xs) x h e = ground (arith, find_append p xs x)
